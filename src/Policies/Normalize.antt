-- ===== src/Policies/Normalize.antt =====
-- `normalizePolicyForAPI`, `cleanDNSServers` and the texts that the pages show of a policy.
use yuchen_panel.Common.{
  String, Bool, true, false, not, ◌&&◌, ◌||◌, List, [], ◌∷◌, ◌++◌, append, join, trim_space,
  trim_prefix, has_infix, contains, is_ip, ◌==◌, if◌then◌else◌,
}
use yuchen_panel.Model.{NetworkPolicy}
use yuchen_panel.Nodes.{or_text}
use yuchen_panel.Store.Policy.{
  default_dns, allowed_modes, allowed_query, allowed_ipv6, or_default, is_empty,
}

-- what the loop of `cleanDNSServers` keeps of a trimmed entry
unfoldable pub is_dns_server : String → Bool
unfolding is_ip
is_dns_server v =
    let scheme = has_infix v "://" in
    let host = if scheme then trim_prefix (trim_prefix v "https+local://") "tcp+local://" else v in
    not (v == "") && (is_ip host || scheme)

-- the loop of `cleanDNSServers`
unfoldable pub clean_list : List String → List String → List String
unfolding is_dns_server trim_space contains
clean_list seen [] = []
clean_list seen (raw ∷ list) =
    let v = trim_space raw in
    let kept = clean_list (v ∷ seen) list in
    let rest = clean_list seen list in
    if is_dns_server v && not (contains seen v) then v ∷ kept else rest

unfoldable pub clean_dns_servers : List String → Bool → List String
unfolding clean_list
clean_dns_servers list use_default =
    let out = clean_list [] list in if is_empty out && use_default then default_dns else out

-- `normalizePolicyForAPI`, of the mode
unfoldable pub policy_mode : String → String
unfolding or_default
policy_mode raw = or_default allowed_modes "compat" (or_text (trim_space raw) "compat")

abbrev pub hinted : String → String → String
hinted current hint = if current == "" || current == "keep" then hint else current

-- the cases of the switch in `normalizePolicyForAPI`
abbrev pub compat_case : NetworkPolicy → NetworkPolicy
compat_case p = record p {
  mode = "compat";
  public_dns = true;
  dns_servers = default_dns;
  query_strategy = "UseIPv4";
  disable_fallback = false;
  disable_fallback_if_match = false;
  block_dns_53 = false;
  block_china_dns = false;
  block_quic = false;
  ipv6_strategy = or_text p.ipv6_strategy "keep";
  clash_include_quad9 = false;
  sing_box_include_quad9 = false;
}

abbrev pub public_dns_case : NetworkPolicy → NetworkPolicy
public_dns_case p = record p {
  mode = "public_dns";
  public_dns = true;
  dns_servers = clean_dns_servers p.dns_servers true;
  query_strategy = "UseIPv4";
  disable_fallback = false;
  disable_fallback_if_match = false;
  block_dns_53 = false;
  block_china_dns = false;
  block_quic = false;
  ipv6_strategy = or_text p.ipv6_strategy "keep";
  clash_include_quad9 = true;
  sing_box_include_quad9 = true;
}

abbrev pub leak_guard_case : NetworkPolicy → NetworkPolicy
leak_guard_case p = record p {
  mode = "dns_leak_guard";
  public_dns = true;
  dns_servers = clean_dns_servers p.dns_servers true;
  query_strategy = "UseIPv4";
  disable_fallback = false;
  disable_fallback_if_match = false;
  block_dns_53 = false;
  block_china_dns = false;
  block_quic = false;
  ipv6_strategy = hinted p.ipv6_strategy "warn";
  clash_include_quad9 = true;
  sing_box_include_quad9 = true;
}

abbrev pub strict_case : NetworkPolicy → NetworkPolicy
strict_case p = record p {
  mode = "strict";
  public_dns = true;
  dns_servers = clean_dns_servers p.dns_servers true;
  query_strategy = "UseIPv4";
  disable_fallback = true;
  disable_fallback_if_match = true;
  block_dns_53 = true;
  block_china_dns = true;
  block_quic = true;
  ipv6_strategy = hinted p.ipv6_strategy "disable_hint";
  clash_include_quad9 = true;
  sing_box_include_quad9 = true;
}

abbrev pub custom_case : NetworkPolicy → NetworkPolicy
custom_case p = record p {
  mode = "custom";
  dns_servers = clean_dns_servers p.dns_servers p.public_dns;
  query_strategy = or_text p.query_strategy "AsIs";
  ipv6_strategy = or_text p.ipv6_strategy "keep";
}

-- the switch; `mode` is one of the allowed modes
unfoldable pub policy_case : String → NetworkPolicy → NetworkPolicy
policy_case mode p =
    if mode == "compat"
    then compat_case p
    else if mode == "public_dns"
    then public_dns_case p
    else if mode == "dns_leak_guard"
    then leak_guard_case p
    else if mode == "strict"
    then strict_case p
    else custom_case p

-- the two checks after the switch
unfoldable pub allowed_texts : NetworkPolicy → NetworkPolicy
unfolding or_default
allowed_texts p = record p {
  query_strategy = or_default allowed_query "AsIs" p.query_strategy;
  ipv6_strategy = or_default allowed_ipv6 "keep" p.ipv6_strategy;
}

unfoldable pub normalize_policy_for_api : NetworkPolicy → NetworkPolicy
unfolding policy_mode policy_case allowed_texts
normalize_policy_for_api p = allowed_texts (policy_case (policy_mode p.mode) p)

unfoldable pub mode_name : String → String
mode_name m =
    if m == "compat"
    then "兼容稳定模式"
    else if m == "public_dns"
    then "公共 DNS 稳定模式"
    else if m == "dns_leak_guard"
    then "DNS 防泄漏增强模式"
    else if m == "strict"
    then "严格防泄漏模式"
    else if m == "custom"
    then "自定义模式"
    else m

unfoldable pub yes_no : String → Bool → String
yes_no label ok = append label (if ok then "：已启用" else "：未启用")

unfoldable pub ipv6_strategy_label : String → String
ipv6_strategy_label v =
    if v == "warn" then "检测提醒" else if v == "disable_hint" then "建议禁用" else "不处理"

unfoldable pub policy_summary : NetworkPolicy → List String
unfolding mode_name yes_no ipv6_strategy_label join
policy_summary p =
    append "当前模式：" (mode_name p.mode)
    ∷ (if p.public_dns || not (is_empty p.dns_servers)
        then append "DNS 服务器：" (join p.dns_servers " / ")
        else "DNS 服务器：跟随默认配置")
    ∷ append "查询策略：" p.query_strategy
    ∷ yes_no "禁用 fallback" p.disable_fallback
    ∷ yes_no "阻断 53 端口" p.block_dns_53
    ∷ yes_no "阻断中国公共 DNS" p.block_china_dns
    ∷ yes_no "阻断 QUIC UDP 443" p.block_quic
    ∷ append "IPv6 策略：" (ipv6_strategy_label p.ipv6_strategy)
    ∷ []

abbrev pub line_if : Bool → String → List String
line_if b line = if b then line ∷ [] else []

unfoldable pub policy_warnings : NetworkPolicy → List String
policy_warnings p =
    line_if
      (p.mode == "strict"
        || p.disable_fallback
        || p.disable_fallback_if_match
        || p.block_dns_53
        || p.block_quic)
      "当前策略包含严格选项，可能造成网页首次打开变慢、部分域名解析失败、软路由兼容性下降。"
    ++ (line_if p.block_dns_53 "阻断 tcp/udp 53 只建议在确认 DNS 泄漏后启用，不建议作为默认生产策略。"
        ++ (line_if p.block_quic "阻断 QUIC 可能影响 Google / YouTube / Gemini 首次连接体验，但可减少部分 UDP 旁路风险。"
            ++ line_if (p.ipv6_strategy == "disable_hint")
                "IPv6 禁用建议需要在客户端或软路由侧执行，面板不会自动修改客户本地网络。"))

abbrev pub lines_or : String → List String → List String
lines_or none_text [] = none_text ∷ []
lines_or none_text (l ∷ ls) = l ∷ ls

unfoldable pub routing_preview : NetworkPolicy → List String
routing_preview p = lines_or "不增加强制阻断规则" (
    line_if p.block_dns_53 "将增加 tcp/udp 53 阻断规则"
    ++ (line_if p.block_china_dns "将增加常见中国公共 DNS IP 阻断规则"
        ++ line_if p.block_quic "将增加 UDP 443 / QUIC 阻断规则"))
