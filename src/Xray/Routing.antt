-- ===== src/Xray/Routing.antt =====
-- The routing rules of a configuration name inbounds and outbounds that it has.
use yuchen_panel.Common.{
  ◌≡◌, refl, subst, String, Bool, true, false, not, ◌||◌, List, [], ◌∷◌, ◌++◌, map, Map, Option,
  none, some, contains, All, All-map_weaken, leb_ℤ, pos, ◌==◌, if◌then◌else◌, inl, inr, Bool-cases,
  Option-cases,
}
use mathlib.Core.List.{map-append}
use yuchen_panel.Model.{Time, Node, Client, RelayRoute, NetworkPolicy}
use yuchen_panel.Nodes.{or_text}
use yuchen_panel.Xray.Users.{collect}
use yuchen_panel.Xray.Policy.{
  Rule, inbound_rule, port_rule, ip_rule, outbound_of, rule_if, rules_in_force, policy_rules,
  policy_in_force, china_dns,
}
use yuchen_panel.Xray.Inbounds.{Inbound, node_inbound}
use yuchen_panel.Xray.RelayEntries.{
  Outbound, tag_of, RelayEntry, forward_entry, exit_entry, exit_entry_of, forward_entry_of,
  relay_entry, route_target, usable_landing, inbound_of, outbounds_of, rules_of,
}
use yuchen_panel.Xray.Config.{
  generate_server_config, stats_inbound, stats_port, used_ports, ServerConfig,
}
use yuchen_panel.Xray.Among.{
  All-collect, All-append, contains-append_left, contains-append_right, contains-cons,
  All-contains-map, map-compose,
}

-- the inbound that a rule names, if it names one, is there
abbrev pub NamesInbound : List Inbound → Rule → Type 0
NamesInbound inbounds (inbound_rule i o) = contains (map (λ b. b.tag) inbounds) i ≡ true
NamesInbound inbounds (port_rule port network o) = Unit
NamesInbound inbounds (ip_rule ips o) = Unit

abbrev pub NamesOutbound : List Outbound → Rule → Type 0
NamesOutbound outbounds rule = contains ("api" ∷ map tag_of outbounds) (outbound_of rule) ≡ true

-- "api" stands for the built-in outbound of the statistics service
abbrev pub IsResolved : ServerConfig → Type 0
IsResolved c = All (NamesInbound c.inbounds) c.rules × All (NamesOutbound c.outbounds) c.rules

-- the rule of an entry leads from its inbound to its outbound
abbrev pub IsWired : RelayEntry → Type 0
IsWired (forward_entry i) = Unit
IsWired (exit_entry i o rule) = rule ≡ inbound_rule i.tag (tag_of o)

abbrev pub WiredResult : Option RelayEntry → Type 0
WiredResult none = Unit
WiredResult (some e) = IsWired e

relay_entry-IsWired :
    (now : Time) (clients : List Client) (all_nodes : Map Node) (r : RelayRoute)
    → WiredResult (relay_entry now clients all_nodes r)
unfolding relay_entry exit_entry_of forward_entry_of
relay_entry-IsWired now clients all_nodes r =
    elim (Bool-cases (not r.enabled || leb_ℤ r.relay_port (pos 0))) [
      | inl s ↦ rw (relay_entry, s, if◌then◌else◌) tt
      | inr s ↦ elim (Bool-cases (or_text r.route_mode "tcp_forward" == "socks5_route")) [
        | inl m ↦ elim (Option-cases (route_target all_nodes r)) [
          | inl e ↦ rw (relay_entry, s, m, e, if◌then◌else◌) tt
          | inr (t, e) ↦ rw (relay_entry, s, m, e, if◌then◌else◌) refl
        ]
        | inr m ↦ elim (Option-cases (usable_landing all_nodes r.landing_node_id)) [
          | inl e ↦ rw (relay_entry, s, m, e, if◌then◌else◌) tt
          | inr (t, e) ↦ rw (relay_entry, s, m, e, if◌then◌else◌) tt
        ]
      ]
    ]

-- the rules of entries whose tags are there are resolved
wired_rules :
    (inbounds : List Inbound) (outbounds : List Outbound) (entries : List RelayEntry)
    → All IsWired entries
    → All (λ e. contains (map (λ b. b.tag) inbounds) (inbound_of e).tag ≡ true) entries
    → All (λ o. contains ("api" ∷ map tag_of outbounds) (tag_of o) ≡ true) (outbounds_of entries)
    → All (NamesInbound inbounds) (rules_of entries)
      × All (NamesOutbound outbounds) (rules_of entries)
unfolding rules_of outbounds_of
wired_rules inbounds outbounds [] wired here there = (tt, tt)
wired_rules inbounds outbounds (forward_entry i ∷ rest) wired here there =
    wired_rules inbounds outbounds rest wired.1 here.1 there
wired_rules inbounds outbounds (exit_entry i o rule ∷ rest) wired here there =
    let (a, b) = wired_rules inbounds outbounds rest wired.1 here.1 there.1 in
    ((rw wired.0 here.0, a), (rw wired.0 there.0, b))

-- a rule of the policy leads to "blocked" and names no inbound
rule_if-Blocked :
    (inbounds : List Inbound) (outbounds : List Outbound) (b : Bool) (rule : Rule)
    → NamesInbound inbounds rule
    → NamesOutbound outbounds rule
    → All (NamesInbound inbounds) (rule_if b rule) × All (NamesOutbound outbounds) (rule_if b rule)
rule_if-Blocked inbounds outbounds true rule i o = ((i, tt), (o, tt))
rule_if-Blocked inbounds outbounds false rule i o = (tt, tt)

rules_in_force-resolved :
    (inbounds : List Inbound) (outbounds : List Outbound) (p : NetworkPolicy)
    → contains ("api" ∷ map tag_of outbounds) "blocked" ≡ true
    → All (NamesInbound inbounds) (rules_in_force p)
      × All (NamesOutbound outbounds) (rules_in_force p)
unfolding rules_in_force
rules_in_force-resolved inbounds outbounds p blocked =
    let dns = port_rule "53" "tcp,udp" "blocked" in
    let china = ip_rule china_dns "blocked" in
    let quic = port_rule "443" "udp" "blocked" in
    let (a, d) = rule_if-Blocked inbounds outbounds p.block_dns_53 dns tt blocked in
    let (b, e) = rule_if-Blocked inbounds outbounds p.block_china_dns china tt blocked in
    let (c, f) = rule_if-Blocked inbounds outbounds p.block_quic quic tt blocked in
    (
      All-append _ (rule_if p.block_dns_53 dns) _ a
          (All-append _ (rule_if p.block_china_dns china) (rule_if p.block_quic quic) b c),
      All-append _ (rule_if p.block_dns_53 dns) _ d
          (All-append _ (rule_if p.block_china_dns china) (rule_if p.block_quic quic) e f),
    )

abbrev tags : List Inbound → List String
tags = map (λ b. b.tag)

tags-middle :
    (a : List Inbound) (entries : List RelayEntry) (b : List Inbound) (v : String)
    → contains (map (λ e. (inbound_of e).tag) entries) v ≡ true
    → contains (tags (a ++ (map inbound_of entries ++ b))) v ≡ true
tags-middle a entries b v h =
    rw
      (
        map-append (λ b. b.tag) a (map inbound_of entries ++ b),
        map-append (λ b. b.tag) (map inbound_of entries) b,
        map-compose (λ b. b.tag) inbound_of entries,
      )
      (contains-append_right (tags a) _ v (contains-append_left _ (tags b) v h))

tags-last :
    (a m b : List Inbound) (v : String)
    → contains (tags b) v ≡ true
    → contains (tags (a ++ (m ++ b))) v ≡ true
tags-last a m b v h =
    rw (map-append (λ b. b.tag) a (m ++ b), map-append (λ b. b.tag) m b)
      (contains-append_right (tags a) _ v (contains-append_right (tags m) (tags b) v h))

contains-cons3 :
    (x y z : String) (xs : List String) (v : String)
    → contains xs v ≡ true
    → contains (x ∷ y ∷ z ∷ xs) v ≡ true
contains-cons3 x y z xs v h = contains-cons x _ v (contains-cons y _ v (contains-cons z xs v h))

-- Every rule of a configuration leads to an outbound of it, and a rule for an inbound names one
-- that it has.
pub generate_server_config-IsResolved :
    (sha256_hex : String → String) (now : Time) (nodes : List Node) (clients : List Client)
    (relays : List RelayRoute) (all_nodes : Map Node) (policy : NetworkPolicy)
    → IsResolved (generate_server_config sha256_hex now nodes clients relays all_nodes policy)
unfolding generate_server_config policy_rules stats_inbound contains
generate_server_config-IsResolved sha256_hex now nodes clients relays all_nodes policy =
    let entries = collect (relay_entry now clients all_nodes) relays in
    let own = collect (node_inbound sha256_hex now clients) nodes in
    let stats = stats_inbound (stats_port (used_ports nodes relays)) ∷ [] in
    let c = generate_server_config sha256_hex now nodes clients relays all_nodes policy in
    let wired =
      All-collect (relay_entry now clients all_nodes) IsWired
        (λ r e h. subst WiredResult h (relay_entry-IsWired now clients all_nodes r)) relays in
    let (a, b) =
      wired_rules c.inbounds c.outbounds entries wired
        (All-map_weaken _ _ entries (λ e h. tags-middle own entries stats (inbound_of e).tag h)
          (All-contains-map (λ e. (inbound_of e).tag) entries))
        (All-map_weaken _ _ (outbounds_of entries)
          (λ o h. contains-cons3 "api" "direct" "blocked" _ (tag_of o) h)
          (All-contains-map tag_of (outbounds_of entries))) in
    let (d, e) = rules_in_force-resolved c.inbounds c.outbounds (policy_in_force policy) refl in
    (
      (
        tags-last own (map inbound_of entries) stats "api" refl,
        All-append _ (rules_of entries) _ a d,
      ),
      (refl, All-append _ (rules_of entries) _ b e),
    )
