-- ===== src/Subscriptions/Formats.antt =====
-- The format of a subscription (backend/internal/api/subscription_formats.go,
-- `subscriptionFormat`).
use yuchen_panel.Common.{
  String, ◌||◌, List, [], ◌∷◌, contains, trim_space, to_lower, has_infix, ◌==◌, if◌then◌else◌,
}

pub data Format : Type 0 where
  clash singbox v2rayn raw : Format

-- the value of the request: the parameters `format` and `target`, or the second part of the path
abbrev pub second_part : List String → String
second_part [] = ""
second_part (x ∷ []) = ""
second_part (x ∷ y ∷ parts) = to_lower (trim_space y)

abbrev pub first_named : String → String → String → String
first_named a b c = if a == "" then (if b == "" then c else b) else a

unfoldable pub requested_format : String → String → List String → String
unfolding to_lower trim_space
requested_format format target parts =
    first_named (to_lower (trim_space format)) (to_lower (trim_space target)) (second_part parts)

unfoldable pub user_agent_format : String → Format
unfolding has_infix to_lower
user_agent_format user_agent =
    let ua = to_lower user_agent in
    if has_infix ua "clash" || has_infix ua "mihomo" || has_infix ua "stash"
    then clash
    else if has_infix ua "sing-box"
        || has_infix ua "singbox"
        || has_infix ua "sfa"
        || has_infix ua "sfi"
    then singbox
    else v2rayn

abbrev pub named_format : String → Format × String
named_format value =
    if contains ("clash" ∷ "clash-meta" ∷ "mihomo" ∷ "yaml" ∷ "yml" ∷ []) value
    then (clash, "explicit")
    else if contains ("sing-box" ∷ "singbox" ∷ "sb" ∷ "json" ∷ []) value
    then (singbox, "explicit")
    else if contains ("v2rayn" ∷ "v2rayng" ∷ "shadowrocket" ∷ "base64" ∷ []) value
    then (v2rayn, "explicit")
    else if value == "raw"
    then (raw, "explicit")
    else (v2rayn, "unknown-format-fallback")

-- the format and where it comes from
unfoldable pub subscription_format : String → String → List String → String → Format × String
unfolding requested_format user_agent_format contains
subscription_format format target parts user_agent =
    let value = requested_format format target parts in
    if value == "" then (user_agent_format user_agent, "user-agent") else named_format value
