-- ===== src/Policies/Handlers.antt =====
-- The requests for the network policy: status, preview, save and rollback. The log keeps the
-- address of the connection, `req.RemoteAddr`.
use yuchen_panel.Common.{
  String, Bool, true, false, not, ◌&&◌, ◌||◌, List, ◌++◌, Option, none, some, append, to_lower,
  has_infix, ◌==◌, if◌then◌else◌,
}
use yuchen_panel.Model.{NetworkPolicy}
use yuchen_panel.Http.{Method, get, post, put, Reply, error, reply, method_not_allowed, bad_request}
use yuchen_panel.Store.{Store, Env, add_log, save_locked}
use yuchen_panel.Store.Policy.{is_empty}
use yuchen_panel.Policies.Normalize.{
  normalize_policy_for_api, policy_summary, policy_warnings, routing_preview, line_if,
}

-- the map of `xrayDNSPreview`: absent keys are `none` or false
pub record DnsPreview : Type 0 where
  pub servers : Option (List String)
  pub query_strategy : Option String
  pub disable_fallback : Bool
  pub disable_fallback_if_match : Bool

unfoldable pub xray_dns_preview : NetworkPolicy → DnsPreview
xray_dns_preview p = record {
  servers = if p.public_dns || not (is_empty p.dns_servers) then some p.dns_servers else none;
  query_strategy =
      if not (p.query_strategy == "") && not (p.query_strategy == "AsIs")
      then some p.query_strategy
      else none;
  disable_fallback = p.disable_fallback;
  disable_fallback_if_match = p.disable_fallback_if_match;
}

pub record PolicyView : Type 0 where
  pub policy : NetworkPolicy
  pub summary : List String
  pub warnings : List String
  pub dns : DnsPreview
  pub routing : List String

unfoldable pub policy_view : NetworkPolicy → PolicyView
unfolding policy_summary policy_warnings xray_dns_preview routing_preview
policy_view p = record {
  policy = p;
  summary = policy_summary p;
  warnings = policy_warnings p;
  dns = xray_dns_preview p;
  routing = routing_preview p;
}

pub data PolicyBody : Type 0 where
  status : PolicyView → NetworkPolicy → PolicyBody
  preview : PolicyView → PolicyBody
  saved : NetworkPolicy → NetworkPolicy → List String → List String → PolicyBody
  rolled_back : NetworkPolicy → PolicyBody

-- the fields that the panel sets itself
abbrev pub stamped : Env → NetworkPolicy → NetworkPolicy
stamped env p = record p { updated_at = env.now; updated_by = env.actor }

abbrev pub at_address : String → Env → Env
at_address remote_addr env = record env { client_ip = remote_addr }

-- both policies, a log entry, and the file
unfoldable pub store_policies :
    Env → String → String → String → NetworkPolicy → NetworkPolicy → Store → Store × Bool
unfolding add_log save_locked
store_policies env remote_addr action detail current backup s =
    let d = record (s.memory) { network_policy = current; network_policy_backup = backup } in
    save_locked env.file_written
      (record s { memory = add_log (at_address remote_addr env) action detail d })

abbrev pub when_saved : {B : Type 0} → Store × Bool → B → Store × Reply B
when_saved (s, true) body = (s, reply 200 body)
when_saved (s, false) body = (s, error 500 "save failed")

unfoldable pub network_policy_status : Store → Store × Reply PolicyBody
unfolding normalize_policy_for_api policy_view
network_policy_status s =
    let p = normalize_policy_for_api s.memory.network_policy in
    (
      s,
      reply 200 (status (policy_view p) (normalize_policy_for_api s.memory.network_policy_backup)),
    )

-- `confirm` is the query parameter
unfoldable pub save_warnings : String → NetworkPolicy → List String
unfolding policy_warnings
save_warnings confirm p =
    policy_warnings p
    ++ line_if (p.mode == "strict" && not (has_infix (to_lower confirm) "yes"))
        "严格模式可能导致部分网站变慢、DNS 解析失败或软路由兼容性下降。"

abbrev pub save_detail : NetworkPolicy → NetworkPolicy → String
save_detail old p = append "应用网络策略：" (append old.mode (append " -> " p.mode))

abbrev pub rollback_detail : NetworkPolicy → String
rollback_detail p = append "回滚到上一次网络策略：" p.mode

unfoldable pub network_policy_save :
    Env → String → String → NetworkPolicy → Store → Store × Reply PolicyBody
unfolding normalize_policy_for_api store_policies save_warnings policy_summary
network_policy_save env remote_addr confirm body s =
    let old = normalize_policy_for_api s.memory.network_policy in
    let p = stamped env (normalize_policy_for_api body) in
    when_saved (store_policies env remote_addr "network_policy_apply" (save_detail old p) p old s)
      (saved p old (policy_summary p) (save_warnings confirm (normalize_policy_for_api body)))

unfoldable pub network_policy_rollback : Env → String → Store → Store × Reply PolicyBody
unfolding normalize_policy_for_api store_policies
network_policy_rollback env remote_addr s =
    let backup = stamped env (normalize_policy_for_api s.memory.network_policy_backup) in
    let current = normalize_policy_for_api s.memory.network_policy in
    when_saved
      (store_policies env remote_addr "network_policy_rollback" (rollback_detail backup) backup
        current s)
      (rolled_back backup)

-- `networkPolicy`
unfoldable pub network_policy :
    Env → Method → String → String → Option NetworkPolicy → Store → Store × Reply PolicyBody
network_policy env get remote_addr confirm body s = network_policy_status s
network_policy env put remote_addr confirm none s = (s, bad_request "invalid json")
network_policy env put remote_addr confirm (some body) s =
    network_policy_save env remote_addr confirm body s
network_policy env post remote_addr confirm none s = (s, bad_request "invalid json")
network_policy env post remote_addr confirm (some body) s =
    network_policy_save env remote_addr confirm body s
network_policy env _ remote_addr confirm body s = (s, method_not_allowed)

-- `networkPolicyPreview`
unfoldable pub network_policy_preview :
    Method → Option NetworkPolicy → Store → Store × Reply PolicyBody
unfolding normalize_policy_for_api policy_view
network_policy_preview post none s = (s, bad_request "invalid json")
network_policy_preview post (some body) s =
    (s, reply 200 (preview (policy_view (normalize_policy_for_api body))))
network_policy_preview _ body s = (s, method_not_allowed)

-- `networkPolicyRollback`
unfoldable pub rollback_request : Env → Method → String → Store → Store × Reply PolicyBody
rollback_request env post remote_addr s = network_policy_rollback env remote_addr s
rollback_request env _ remote_addr s = (s, method_not_allowed)
