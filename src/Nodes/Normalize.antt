-- ===== src/Nodes/Normalize.antt =====
-- `defaultServerIDLocked`, `normalizeNodeLocked` and `randomSocksUsername`.
use yuchen_panel.Common.{
  ℕ, ◌%◌, String, not, ◌&&◌, ◌||◌, Option, none, some, List, [], ◌∷◌, Map, ℤ, pos, ltb_ℤ, eqb_ℤ,
  lookup, values, append, itoa, trim_space, to_lower, split, head_or, ◌==◌, if◌then◌else◌, Outcome,
  ok, err, ◌>>=◌, ◌>>◌, fail_if, or_fail, nth_char, from_chars,
}
use yuchen_panel.Model.{Node, Server, PanelData, after}
use yuchen_panel.Store.{Store, Env}
use yuchen_panel.Store.SingleMode.{ensure_single_mode_locked}
use yuchen_panel.Xray.Credentials.{take_text}

-- What backend/internal/xray/reality.go and `crypto/rand` draw: a key pair, the public key of a
-- private one, a short id, and the random bytes of a user name.
pub record Keys : Type 0 where
  pub new_keys : Outcome (String × String)
  pub public_of : String → Option String
  pub short_id : String
  pub random_bytes : Option (List ℕ)

-- one round of the loop of `defaultServerIDLocked`
better_server : Server → Server → Server
better_server best s =
    if s.status == "online" && not (best.status == "online")
    then s
    else if after s.last_sync_at best.last_sync_at
    then s
    else best

best_server : Server → List Server → Server
best_server best [] = best
best_server best (s ∷ rest) = best_server (better_server best s) rest

abbrev best_id : List Server → String
best_id [] = ""
best_id (s ∷ rest) = (best_server s rest).id

unfoldable pub default_server_id : Map Server → String
unfolding best_server better_server values
default_server_id servers = best_id (values servers)

-- "abcdefghijkmnpqrstuvwxyz23456789", of 32 characters
unfoldable pub random_socks_username : Option (List ℕ) → String → String
random_socks_username none token = take_text 12 token
random_socks_username (some bytes) token =
    from_chars (λ b. nth_char "abcdefghijkmnpqrstuvwxyz23456789" (b % 32)) bytes

unfoldable pub trim_node : Node → Node
trim_node n = record n {
  server_id = trim_space n.server_id;
  name = trim_space n.name;
  protocol = to_lower (trim_space n.protocol);
  host = trim_space n.host;
  transport = to_lower (trim_space n.transport);
  security = to_lower (trim_space n.security);
  sni = trim_space n.sni;
  path = trim_space n.path;
  fingerprint = trim_space n.fingerprint;
  reality_dest = trim_space n.reality_dest;
  reality_private_key = trim_space n.reality_private_key;
  reality_public_key = trim_space n.reality_public_key;
  reality_short_id = trim_space n.reality_short_id;
  reality_spider_x = trim_space n.reality_spider_x;
  socks_username = trim_space n.socks_username;
  socks_password = trim_space n.socks_password;
  remark = trim_space n.remark;
}

abbrev pub or_text : String → String → String
or_text v fallback = if v == "" then fallback else v

-- the security of a node that names none: the anti-blocking default of its protocol
unfoldable pub default_security : String → String
default_security protocol =
    if protocol == "trojan" then "tls" else if protocol == "vless" then "reality" else "none"

-- protocol, transport and security, when empty
unfoldable pub default_kind : Node → Node
unfolding default_security
default_kind n =
    let protocol = or_text n.protocol "vless" in
    record n {
      protocol = to_lower (trim_space protocol);
      transport = or_text n.transport "tcp";
      security = if n.security == "" then default_security protocol else n.security;
    }

-- VMess has no Reality, and host, server name and path get their defaults
unfoldable pub default_place : Server → Node → Node
default_place srv n =
    let security =
      if n.protocol == "vmess" && n.security == "reality" then "none" else n.security in
    let host = if n.host == "" then (if srv.host == "" then srv.ip else srv.host) else n.host in
    record n {
      security = security;
      host = host;
      sni =
          if n.sni == "" && not (security == "none") && not (security == "reality")
          then host
          else n.sni;
      path = if n.path == "" && n.transport == "ws" then "/yuchen" else n.path;
    }

-- a SOCKS5 inbound has none of the settings of the others, and always credentials
unfoldable pub socks_node : Env → Keys → Node → Node
unfolding random_socks_username
socks_node env keys n =
    if n.protocol == "socks" || n.protocol == "socks5"
    then record n {
      protocol = "socks";
      transport = "tcp";
      security = "none";
      path = "";
      sni = "";
      fingerprint = "";
      reality_dest = "";
      reality_private_key = "";
      reality_public_key = "";
      reality_short_id = "";
      reality_spider_x = "";
      socks_username = or_text n.socks_username (random_socks_username keys.random_bytes env.token);
      socks_password = or_text n.socks_password env.token;
    }
    else n

-- the Reality key pair: kept, completed from the private key, or drawn
unfoldable pub reality_keys : Keys → String → String → Outcome (String × String)
reality_keys keys private public =
    if not (private == "") && not (public == "")
    then ok (private, public)
    else if not (private == "")
    then (elim (keys.public_of private) [
      | none ↦ err "Reality 私钥格式不正确，请点击重新生成"
      | some pub_key ↦ ok (private, pub_key)
    ])
    else elim keys.new_keys [ err e ↦ err (append "Reality 密钥生成失败：" e) | ok pair ↦ ok pair ]

-- a Reality inbound runs over TCP, and its settings get their defaults
abbrev pub with_reality : Keys → Node → String × String → Node
with_reality keys n (private, public) = record n {
  transport = "tcp";
  path = "";
  reality_dest = or_text n.reality_dest "www.intel.com:443";
  sni = or_text n.sni (head_or "" (split (or_text n.reality_dest "www.intel.com:443") b':'));
  fingerprint = or_text n.fingerprint "chrome";
  reality_spider_x = or_text n.reality_spider_x "/";
  reality_short_id = or_text n.reality_short_id keys.short_id;
  reality_private_key = private;
  reality_public_key = public;
}

unfoldable pub reality_node : Keys → Node → Outcome Node
unfolding reality_keys
reality_node keys n =
    if n.security == "reality"
    then (do
      pair ← reality_keys keys n.reality_private_key n.reality_public_key
      ok (with_reality keys n pair))
    else ok n

-- the first enabled node of the server on the port, other than the one that is edited
unfoldable pub node_on_port : String → ℤ → String → Map Node → Option Node
node_on_port server_id port current_id [] = none
node_on_port server_id port current_id ((id, n) ∷ rest) =
    let later = node_on_port server_id port current_id rest in
    if not (id == current_id) && (n.server_id == server_id && n.enabled && eqb_ℤ n.port port)
    then some n
    else later

unfoldable pub check_port : Map Node → String → Node → Outcome (Unit {0})
unfolding node_on_port
check_port nodes current_id n =
    if not n.enabled then ok tt else elim (node_on_port n.server_id n.port current_id nodes) [
      | none ↦ ok tt
      | some other ↦ err (
          append "端口 "
            (append (itoa n.port) (append " 已被节点 " (append other.name " 使用，请换一个端口或先停用原节点"))))
    ]

-- the switches at the end, which a SOCKS5 inbound skips
unfoldable pub check_wire : Node → Outcome (Unit {0})
check_wire n = do
  fail_if (not (n.protocol == "vless" || n.protocol == "vmess" || n.protocol == "trojan"))
      (append "暂不支持的协议：" n.protocol)
  fail_if (not (n.transport == "tcp" || n.transport == "ws" || n.transport == "grpc"))
      (append "暂不支持的传输方式：" n.transport)
  fail_if (not (n.security == "none" || n.security == "tls" || n.security == "reality"))
      (append "暂不支持的安全方式：" n.security)

unfoldable pub check_kind : Node → Outcome (Unit {0})
check_kind n =
    if n.protocol == "socks"
    then fail_if (n.socks_username == "" || n.socks_password == "") "SOCKS5 入站必须设置账号和密码，避免落地出口裸奔"
    else check_wire n

-- `normalizeNodeLocked` after the server is chosen
unfoldable pub normalize_on_server : Env → Keys → PanelData → String → Node → Outcome Node
normalize_on_server env keys d current_id n = do
  fail_if (n.server_id == "") "单机服务器尚未初始化，请重新运行安装脚本或到高级服务器管理检查本机服务器"
  srv ← or_fail (lookup n.server_id d.servers) "服务器不存在，请到高级服务器管理检查本机服务器"
  fail_if (n.name == "") "请填写节点名称"
  let kind = default_kind n
  fail_if (kind.protocol == "shadowsocks") "面板已停用 Shadowsocks 节点，请改用 VLESS/Reality"
  final ← reality_node keys (socks_node env keys (default_place srv kind))
  fail_if (ltb_ℤ final.port (pos 1) || ltb_ℤ (pos 65535) final.port) "端口必须在 1-65535 之间"
  check_port d.nodes current_id final
  check_kind final
  ok final

-- `normalizeNodeLocked`: a node with no server gets the local one, which may first be created
unfoldable pub normalize_node : Env → Keys → Node → String → Store → Store × Outcome Node
unfolding trim_node
normalize_node env keys body current_id s =
    let n = trim_node body in
    let s' = if n.server_id == "" then ensure_single_mode_locked env s else s in
    let server_id =
      if n.server_id == "" then default_server_id s'.memory.servers else n.server_id in
    (s', normalize_on_server env keys s'.memory current_id (record n { server_id = server_id }))
