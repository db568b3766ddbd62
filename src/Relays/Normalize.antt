-- ===== src/Relays/Normalize.antt =====
-- `normalizeRelayLocked`.
use yuchen_panel.Common.{
  String, Bool, false, not, ◌&&◌, ◌||◌, Option, none, some, [], ◌∷◌, Map, ℤ, pos, ltb_ℤ, eqb_ℤ,
  lookup, append, itoa, trim_space, to_lower, split, head_or, ◌==◌, if◌then◌else◌, Outcome, ok, err,
  ◌>>=◌, ◌>>◌, fail_if, or_fail,
}
use yuchen_panel.Model.{Node, RelayRoute, PanelData}
use yuchen_panel.Store.{Store, Env}
use yuchen_panel.Store.SingleMode.{ensure_single_mode_locked}
use yuchen_panel.Nodes.{Keys, default_server_id, or_text}

unfoldable pub trim_relay : RelayRoute → RelayRoute
trim_relay r = record r {
  name = trim_space r.name;
  relay_server_id = trim_space r.relay_server_id;
  landing_node_id = trim_space r.landing_node_id;
  relay_host = trim_space r.relay_host;
  landing_mode = to_lower (trim_space r.landing_mode);
  manual_socks_host = trim_space r.manual_socks_host;
  manual_socks_username = trim_space r.manual_socks_username;
  manual_socks_password = trim_space r.manual_socks_password;
  route_mode = to_lower (trim_space r.route_mode);
  relay_network = to_lower (trim_space r.relay_network);
  relay_sni = trim_space r.relay_sni;
  relay_fingerprint = trim_space r.relay_fingerprint;
  relay_reality_dest = trim_space r.relay_reality_dest;
  relay_reality_private_key = trim_space r.relay_reality_private_key;
  relay_reality_public_key = trim_space r.relay_reality_public_key;
  relay_reality_short_id = trim_space r.relay_reality_short_id;
  relay_reality_spider_x = trim_space r.relay_reality_spider_x;
  remark = trim_space r.remark;
}

-- what a TCP relay can forward to, and with which network
unfoldable pub check_forwarded : String → Node → Outcome (Unit {0})
check_forwarded network landing = do
  fail_if (not landing.enabled) "落地节点不存在或未启用"
  fail_if (not (landing.protocol == "vless") || not (landing.security == "reality"))
      "TCP 透传中转仅支持 VLESS + Reality 落地节点；SOCKS5 落地请改用 SOCKS5 路由中转"
  fail_if (not (network == "tcp" || network == "udp" || network == "tcp,udp"))
      "中转协议只支持 tcp、udp 或 tcp,udp"
  fail_if
      (landing.protocol == "vless"
        && landing.security == "reality"
        && (landing.transport == "" || landing.transport == "tcp")
        && network == "udp")
      "当前落地节点为 VLESS Reality TCP，不支持 UDP-only 中转；请改用 TCP。TCP+UDP 仅作为实验模式，不建议正式使用"

-- the case `tcp_forward`: the landing node is an enabled VLESS Reality node
unfoldable pub check_tcp_forward : Map Node → RelayRoute → Outcome RelayRoute
check_tcp_forward nodes r = do
  fail_if (r.landing_node_id == "") "TCP 透传中转请选择 VLESS Reality 落地节点"
  landing ← or_fail (lookup r.landing_node_id nodes) "落地节点不存在或未启用"
  check_forwarded (or_text r.relay_network "tcp") landing
  ok (record r { relay_network = or_text r.relay_network "tcp" })

-- a SOCKS5 inbound of the panel that may be an exit
unfoldable pub check_exit_inbound : Node → Outcome (Unit {0})
check_exit_inbound landing = do
  fail_if (not landing.enabled) "落地 SOCKS5 入站不存在或未启用"
  fail_if (not (landing.protocol == "socks")) "SOCKS5 路由中转必须选择 SOCKS5 落地入站"
  fail_if (trim_space landing.socks_username == "" || trim_space landing.socks_password == "")
      "落地 SOCKS5 必须设置账号和密码，避免出口裸奔"

-- a landing that is an inbound of the panel
unfoldable pub check_panel_node : Map Node → RelayRoute → Outcome RelayRoute
check_panel_node nodes r = do
  fail_if (r.landing_node_id == "") "请选择本面板 SOCKS5 落地入站，或切换为手动填写远程 SOCKS5"
  landing ← or_fail (lookup r.landing_node_id nodes) "落地 SOCKS5 入站不存在或未启用"
  check_exit_inbound landing
  ok r

-- a remote landing, with credentials
unfoldable pub check_manual_socks5 : RelayRoute → Outcome RelayRoute
check_manual_socks5 r = do
  fail_if (r.manual_socks_host == "") "请填写远程落地 SOCKS5 地址，例如 203.0.113.10"
  fail_if (ltb_ℤ r.manual_socks_port (pos 1) || ltb_ℤ (pos 65535) r.manual_socks_port)
      "远程落地 SOCKS5 端口必须在 1-65535 之间"
  fail_if (r.manual_socks_username == "" || r.manual_socks_password == "") "远程落地 SOCKS5 必须填写账号和密码"
  ok (record r { landing_node_id = "" })

unfoldable pub check_landing : Map Node → RelayRoute → Outcome RelayRoute
check_landing nodes r =
    if r.landing_mode == "panel_node"
    then check_panel_node nodes r
    else if r.landing_mode == "manual_socks5"
    then check_manual_socks5 r
    else err "SOCKS5 落地方式只支持本面板入站或手动填写远程 SOCKS5"

unfoldable pub relay_reality_keys : Keys → RelayRoute → Outcome (String × String)
relay_reality_keys keys r =
    if not (r.relay_reality_private_key == "") && not (r.relay_reality_public_key == "")
    then ok (r.relay_reality_private_key, r.relay_reality_public_key)
    else if not (r.relay_reality_private_key == "")
    then (elim (keys.public_of r.relay_reality_private_key) [
      | none ↦ err "中转 Reality 私钥格式不正确"
      | some pub_key ↦ ok (r.relay_reality_private_key, pub_key)
    ])
    else elim keys.new_keys [ err e ↦ err (append "中转 Reality 密钥生成失败：" e) | ok pair ↦ ok pair ]

-- the settings of the route's own Reality inbound
abbrev pub route_reality : Keys → RelayRoute → String × String → RelayRoute
route_reality keys landed (private, public) =
    let dest = or_text landed.relay_reality_dest "www.intel.com:443" in
    record landed {
      relay_network = "tcp";
      relay_reality_dest = dest;
      relay_sni = or_text landed.relay_sni (head_or "" (split dest b':'));
      relay_fingerprint = or_text landed.relay_fingerprint "chrome";
      relay_reality_spider_x = or_text landed.relay_reality_spider_x "/";
      relay_reality_short_id = or_text landed.relay_reality_short_id keys.short_id;
      relay_reality_private_key = private;
      relay_reality_public_key = public;
    }

-- a route that names no landing mode has that of its landing node
abbrev pub with_landing_mode : RelayRoute → RelayRoute
with_landing_mode r = record r {
  landing_mode =
      or_text r.landing_mode (if r.landing_node_id == "" then "manual_socks5" else "panel_node");
}

-- the case `socks5_route`
unfoldable pub check_socks5_route : Keys → Map Node → RelayRoute → Outcome RelayRoute
unfolding relay_reality_keys
check_socks5_route keys nodes r = do
  landed ← check_landing nodes (with_landing_mode r)
  pair ← relay_reality_keys keys landed
  ok (route_reality keys landed pair)

-- an enabled node, or an enabled relay other than the edited one, on the port of the server
unfoldable pub node_at : String → ℤ → Map Node → Option Node
node_at server_id port [] = none
node_at server_id port ((id, n) ∷ rest) =
    let later = node_at server_id port rest in
    if n.server_id == server_id && n.enabled && eqb_ℤ n.port port then some n else later

unfoldable pub relay_at : String → ℤ → Option String → Map RelayRoute → Option RelayRoute
relay_at server_id port skip [] = none
relay_at server_id port skip ((id, rr) ∷ rest) =
    let later = relay_at server_id port skip rest in
    let same : Bool = elim skip [ none ↦ false | some current ↦ id == current ] in
    if not same && (rr.relay_server_id == server_id && rr.enabled && eqb_ℤ rr.relay_port port)
    then some rr
    else later

abbrev pub in_use : String → String → String → ℤ → Outcome (Unit {0})
in_use kind name tail port =
    err (append "中转端口 " (append (itoa port) (append " 已被" (append kind (append name tail)))))

unfoldable pub check_relay_port :
    PanelData → Option String → String → String → ℤ → Outcome (Unit {0})
unfolding node_at relay_at
check_relay_port d skip tail server_id port = elim (node_at server_id port d.nodes) [
  | some n ↦ in_use "入站 " n.name tail port
  | none ↦ elim (relay_at server_id port skip d.relay_routes) [
    | some rr ↦ in_use "中转线路 " rr.name tail port
    | none ↦ ok tt
  ]
]

-- the switch on the route mode, which is one of the two
unfoldable pub check_route : Keys → Map Node → RelayRoute → Outcome RelayRoute
check_route keys nodes r =
    if r.route_mode == "tcp_forward"
    then check_tcp_forward nodes r
    else check_socks5_route keys nodes r

-- `normalizeRelayLocked` after the name, the mode and the server are settled
unfoldable pub normalize_relay_on_server :
    Keys → PanelData → String → RelayRoute → Outcome RelayRoute
normalize_relay_on_server keys d current_id r = do
  srv ← or_fail (lookup r.relay_server_id d.servers) "中转服务器不存在，请先到服务器管理添加或检查 Agent"
  let host = if srv.host == "" then srv.ip else srv.host
  let placed : RelayRoute = record r { relay_host = or_text r.relay_host host }
  fail_if (ltb_ℤ r.relay_port (pos 1) || ltb_ℤ (pos 65535) r.relay_port) "中转端口必须在 1-65535 之间"
  fail_if (ltb_ℤ r.relay_port (pos 10000)) "中转端口建议使用 10000-60000，高端口更适合当前服务器环境"
  final ← check_route keys d.nodes placed
  check_relay_port d (some current_id) " 使用，请换一个端口" r.relay_server_id r.relay_port
  ok final

-- `normalizeRelayLocked`
unfoldable pub normalize_relay :
    Env → Keys → RelayRoute → String → Store → Store × Outcome RelayRoute
unfolding trim_relay
normalize_relay env keys body current_id s =
    let trimmed = trim_relay body in
    let r : RelayRoute = record trimmed { route_mode = or_text trimmed.route_mode "tcp_forward" } in
    if r.name == ""
    then (s, err "请填写中转名称，例如：美国中转01")
    else if not (r.route_mode == "tcp_forward" || r.route_mode == "socks5_route")
    then (s, err "中转类型只支持 TCP 透传中转或 SOCKS5 路由中转")
    else let s' = if r.relay_server_id == "" then ensure_single_mode_locked env s else s in
      let server_id =
        if r.relay_server_id == ""
        then default_server_id s'.memory.servers
        else r.relay_server_id in
      (
        s',
        normalize_relay_on_server keys s'.memory current_id
            (record r { relay_server_id = server_id }),
      )
