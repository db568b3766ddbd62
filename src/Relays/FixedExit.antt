-- ===== src/Relays/FixedExit.antt =====
-- `createClientWithSocks5Relay`: a client, a relay route of its own to a landing exit, and the
-- binding between them, stored together.
use yuchen_panel.Common.{
  String, true, not, ◌||◌, Option, none, some, [], ◌∷◌, ℤ, pos, ltb_ℤ, lookup, insert, append, itoa,
  trim_space, split, head_or, ◌==◌, if◌then◌else◌, Outcome, ok, err, ◌>>=◌, ◌>>◌, fail_if, or_fail,
}
use yuchen_panel.Model.{Time, Client, LandingExit, RelayRoute, PanelData}
use yuchen_panel.Http.{Reply, error, reply, bad_request}
use yuchen_panel.Store.{Store, Env, log_and_save}
use yuchen_panel.Store.SingleMode.{ensure_single_mode_locked}
use yuchen_panel.Clients.{ClientBody, with_relay, max_limit_gb}
use yuchen_panel.Nodes.{Keys, default_server_id, or_text}
use yuchen_panel.Relays.Normalize.{check_relay_port}

pub record CreateClientRelayRequest : Type 0 where
  pub username : String
  pub email : String
  pub password : String
  pub traffic_limit_gb : ℤ
  pub expire_at : String
  pub relay_server_id : String
  pub relay_host : String
  pub relay_port : ℤ
  pub landing_exit_id : String
  pub route_name : String
  pub relay_sni : String
  pub relay_dest : String
  pub fingerprint : String
  pub remark : String

-- the checks before a server is chosen; the landing exit
unfoldable pub check_relay_request : PanelData → CreateClientRelayRequest → Outcome LandingExit
check_relay_request d body = do
  fail_if (trim_space body.username == "") "请填写客户名称"
  fail_if (ltb_ℤ body.traffic_limit_gb (pos 0) || ltb_ℤ (pos max_limit_gb) body.traffic_limit_gb)
      "invalid traffic limit"
  fail_if (trim_space body.landing_exit_id == "") "请选择落地出口"
  landing ← or_fail (lookup (trim_space body.landing_exit_id) d.landing_exits) "落地出口不存在或未启用"
  fail_if (not landing.enabled) "落地出口不存在或未启用"
  ok landing

-- the checks on the server and the port; the host of the relay
unfoldable pub check_relay_place : PanelData → String → CreateClientRelayRequest → Outcome String
check_relay_place d server_id body = do
  srv ← or_fail (lookup server_id d.servers) "中转服务器不存在"
  fail_if (ltb_ℤ body.relay_port (pos 10000) || ltb_ℤ (pos 60000) body.relay_port)
      "中转端口建议使用 10000-60000"
  check_relay_port d none " 使用" server_id body.relay_port
  let host = if srv.host == "" then srv.ip else srv.host
  ok (or_text (trim_space body.relay_host) host)

-- no expiry, or one that does not parse, means that the client never expires
abbrev pub expiry : Option Time → Time
expiry none = 0
expiry (some t) = t

-- `parse_time` is `time.Parse(time.RFC3339, …)`
unfoldable pub exit_client : (String → Option Time) → Env → CreateClientRelayRequest → Client
exit_client parse_time env body = record {
  remark = "";
  id = env.new_id;
  username = trim_space body.username;
  email = trim_space body.email;
  uuid = env.uuid;
  password = or_text (trim_space body.password) env.password;
  traffic_limit_gb = body.traffic_limit_gb;
  traffic_used_gb = pos 0;
  traffic_used_bytes = pos 0;
  billing_cycle_start = env.now;
  billing_cycle_days = pos 30;
  traffic_reset_at = 0;
  traffic_cursors = [];
  expire_at = expiry (if body.expire_at == "" then none else parse_time body.expire_at);
  subscribe_token = env.token;
  enabled = true;
  node_ids = [];
  relay_route_ids = env.relay_id ∷ [];
  created_at = env.now;
  updated_at = env.now;
}

unfoldable pub exit_relay :
    Env
    → Keys
    → CreateClientRelayRequest
    → LandingExit
    → String
    → String
    → String × String
    → RelayRoute
exit_relay env keys body landing server_id host (private, public) =
    let dest = or_text (trim_space body.relay_dest) "www.intel.com:443" in
    record {
      id = env.relay_id;
      name =
          or_text (trim_space body.route_name)
            (append (trim_space body.username) (append "-" (append landing.host "固定出口")));
      relay_server_id = server_id;
      landing_node_id = "";
      relay_host = host;
      relay_port = body.relay_port;
      landing_mode = "manual_socks5";
      manual_socks_host = landing.host;
      manual_socks_port = landing.port;
      manual_socks_username = landing.username;
      manual_socks_password = landing.password;
      manual_socks_udp = landing.udp;
      route_mode = "socks5_route";
      relay_network = "tcp";
      relay_sni = or_text (trim_space body.relay_sni) (head_or "" (split dest b':'));
      relay_fingerprint = or_text (trim_space body.fingerprint) "chrome";
      relay_reality_dest = dest;
      relay_reality_private_key = private;
      relay_reality_public_key = public;
      relay_reality_short_id = keys.short_id;
      relay_reality_spider_x = "/";
      remark = trim_space body.remark;
      enabled = true;
      created_at = env.now;
      updated_at = env.now;
    }

-- both records are stored
abbrev pub with_exit : PanelData → Client → RelayRoute → PanelData
with_exit d c r = record d {
  relay_routes = insert r.id r d.relay_routes;
  clients = insert c.id c d.clients;
}

-- the part after the server is chosen
unfoldable pub store_exit_client :
    (String → Option Time)
    → Env
    → Keys
    → CreateClientRelayRequest
    → LandingExit
    → String
    → Store
    → Store × Reply ClientBody
unfolding exit_client exit_relay log_and_save
store_exit_client parse_time env keys body landing server_id s =
    elim (check_relay_place s.memory server_id body) [
      | err e ↦ (s, bad_request e)
      | ok host ↦ elim keys.new_keys [
        | err e ↦ (s, error 500 (append "Reality 密钥生成失败：" e))
        | ok pair ↦
            let c = exit_client parse_time env body in
            let r = exit_relay env keys body landing server_id host pair in
            (
              log_and_save env "client.create_relay"
                  (append c.username
                    (append " -> " (append landing.host (append ":" (itoa landing.port)))))
                  (with_exit s.memory c r) s,
              reply 201 (with_relay c r landing),
            )
      ]
    ]

-- `createClientWithSocks5Relay`
unfoldable pub create_client_with_relay :
    (String → Option Time)
    → Env
    → Keys
    → Option CreateClientRelayRequest
    → Store
    → Store × Reply ClientBody
unfolding check_relay_request store_exit_client
create_client_with_relay parse_time env keys none s = (s, bad_request "invalid json")
create_client_with_relay parse_time env keys (some body) s =
    elim (check_relay_request s.memory body) [
      | err e ↦ (s, bad_request e)
      | ok landing ↦
          let named = trim_space body.relay_server_id in
          let s' = if named == "" then ensure_single_mode_locked env s else s in
          let server_id = if named == "" then default_server_id s'.memory.servers else named in
          store_exit_client parse_time env keys body landing server_id s'
    ]
