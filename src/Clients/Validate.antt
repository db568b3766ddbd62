-- ===== src/Clients/Validate.antt =====
-- `validateClientLocked`.
use yuchen_panel.Common.{
  ℕ, ◌-◌, ◌^◌, String, ◌||◌, none, some, List, [], ◌∷◌, Map, pos, ltb_ℤ, ltb, length, lookup,
  has_key, contains, append, trim_space, ◌==◌, if◌then◌else◌, Outcome, ok, err, ◌>>=◌, ◌>>◌,
  fail_if,
}
use yuchen_panel.Model.{Client, Node, RelayRoute, PanelData}

abbrev pub cons_ok : String → Outcome (List String) → Outcome (List String)
cons_ok id (ok ids) = ok (id ∷ ids)
cons_ok id (err e) = err e

-- the loop over `c.NodeIDs`; `seen` holds the ids that were kept
unfoldable pub clean_node_ids : Map Node → List String → List String → Outcome (List String)
clean_node_ids nodes seen [] = ok []
clean_node_ids nodes seen (raw ∷ rest) =
    let id = trim_space raw in
    let skipped = clean_node_ids nodes seen rest in
    let kept = cons_ok id (clean_node_ids nodes (id ∷ seen) rest) in
    if id == "" || contains seen id
    then skipped
    else if has_key id nodes
    then kept
    else err (append "绑定的节点不存在：" id)

-- the loop over `c.RelayRouteIDs`
unfoldable pub clean_relay_ids : Map RelayRoute → List String → List String → Outcome (List String)
clean_relay_ids relays seen [] = ok []
clean_relay_ids relays seen (raw ∷ rest) =
    let id = trim_space raw in
    let skipped = clean_relay_ids relays seen rest in
    let kept = cons_ok id (clean_relay_ids relays (id ∷ seen) rest) in
    if id == "" || contains seen id then skipped else elim (lookup id relays) [
      | none ↦ err (append "绑定的中转线路不存在：" id)
      | some rr ↦
          if rr.route_mode == "socks5_route"
          then kept
          else err (append "客户固定出口只能绑定 SOCKS5 路由中转线路：" rr.name)
    ]

-- (int64(1) << 33) - 1
abbrev pub max_limit_gb : ℕ
max_limit_gb = 2 ^ 33 - 1

-- the checks on the limit and the cycle
unfoldable pub check_billing : Client → Outcome (Unit {0})
check_billing c = do
  fail_if (ltb_ℤ c.traffic_limit_gb (pos 0)) "流量限制不能小于 0"
  fail_if (ltb_ℤ (pos max_limit_gb) c.traffic_limit_gb) "流量上限超出允许范围"
  fail_if (ltb_ℤ c.billing_cycle_days (pos 0) || ltb_ℤ (pos 366) c.billing_cycle_days)
      "计费周期天数必须为 1-366（空值默认为 30）"

-- the client with its texts trimmed and its bindings replaced
abbrev pub cleaned_client : Client → List String → List String → Client
cleaned_client c node_ids relay_ids = record c {
  username = trim_space c.username;
  email = trim_space c.email;
  remark = trim_space c.remark;
  node_ids = node_ids;
  relay_route_ids = relay_ids;
}

unfoldable pub validate_client : PanelData → Client → Outcome Client
validate_client d c = do
  fail_if (trim_space c.username == "") "请填写客户名"
  node_ids ← clean_node_ids d.nodes [] c.node_ids
  relay_ids ← clean_relay_ids d.relay_routes [] c.relay_route_ids
  fail_if (ltb 1 (length relay_ids)) "固定出口客户只能绑定一条中转线路"
  check_billing c
  ok (cleaned_client c node_ids relay_ids)
