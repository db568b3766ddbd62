-- ===== src/Policies/Settled.antt =====
-- What a normalised policy is: normalising it again, saving it, or generating a configuration from
-- it changes nothing.
use yuchen_panel.Common.{◌≡◌, refl, String, true, contains, trim_space, if◌then◌else◌}
use yuchen_panel.Model.{Time, NetworkPolicy}
use yuchen_panel.Nodes.{or_text}
use yuchen_panel.Store.Policy.{or_default, normalize_network_policy}
use yuchen_panel.Xray.Policy.{policy_in_force}
use yuchen_panel.Policies.Normalize.{
  policy_mode, hinted, policy_case, allowed_texts, normalize_policy_for_api,
}
use yuchen_panel.Policies.Texts.{
  clean_dns_servers_idem, clean_dns_servers-is_empty, query_settled, query_named, ipv6_settled,
  known_after, hint_settled, KnownMode, policy_mode-KnownMode, KnownIpv6, compat_mode,
  public_dns_mode, leak_guard_mode, strict_mode, custom_mode,
}

-- what the two normalisers and the configuration make of a normalised policy, by its mode
abbrev IsFixed : NetworkPolicy → Type 0
IsFixed q = (normalize_network_policy q ≡ q) × (policy_in_force q ≡ q)

case-IsFixed :
    (m : String) → KnownMode m → (p : NetworkPolicy) → IsFixed (allowed_texts (policy_case m p))
unfolding policy_case allowed_texts normalize_network_policy policy_in_force contains or_default
case-IsFixed _ compat_mode p = (rw (ipv6_settled (or_text p.ipv6_strategy "keep")) refl, refl)
case-IsFixed _ public_dns_mode p =
    let full = clean_dns_servers-is_empty p.dns_servers true in
    (
      rw (ipv6_settled (or_text p.ipv6_strategy "keep"), full, if◌then◌else◌) refl,
      rw (full, if◌then◌else◌) refl,
    )
case-IsFixed _ leak_guard_mode p =
    let full = clean_dns_servers-is_empty p.dns_servers true in
    (
      rw (ipv6_settled (hinted p.ipv6_strategy "warn"), full, if◌then◌else◌) refl,
      rw (full, if◌then◌else◌) refl,
    )
case-IsFixed _ strict_mode p =
    let full = clean_dns_servers-is_empty p.dns_servers true in
    (
      rw (ipv6_settled (hinted p.ipv6_strategy "disable_hint"), full, if◌then◌else◌) refl,
      rw (full, if◌then◌else◌) refl,
    )
case-IsFixed _ custom_mode p =
    let full = clean_dns_servers-is_empty p.dns_servers p.public_dns in
    (
      rw
          (
            ipv6_settled (or_text p.ipv6_strategy "keep"),
            query_settled (or_text p.query_strategy "AsIs"),
            full,
            if◌then◌else◌,
          )
          refl,
      rw (full, query_named (or_text p.query_strategy "AsIs"), if◌then◌else◌) refl,
    )

case_idem :
    (m : String)
    → KnownMode m
    → (p : NetworkPolicy) → KnownIpv6 p.ipv6_strategy
    → normalize_policy_for_api (allowed_texts (policy_case m p)) ≡ allowed_texts (policy_case m p)
unfolding normalize_policy_for_api policy_mode policy_case allowed_texts contains or_default
    trim_space
case_idem _ compat_mode p h = rw (ipv6_settled (or_text p.ipv6_strategy "keep")) refl
case_idem _ public_dns_mode p h =
    rw (ipv6_settled (or_text p.ipv6_strategy "keep"), clean_dns_servers_idem p.dns_servers true)
      refl
case_idem _ leak_guard_mode p h =
    rw (hint_settled p.ipv6_strategy "warn" h refl refl, clean_dns_servers_idem p.dns_servers true)
      refl
case_idem _ strict_mode p h =
    rw
      (
        hint_settled p.ipv6_strategy "disable_hint" h refl refl,
        clean_dns_servers_idem p.dns_servers true,
      )
      refl
case_idem _ custom_mode p h =
    rw
      (
        ipv6_settled (or_text p.ipv6_strategy "keep"),
        query_settled (or_text p.query_strategy "AsIs"),
        clean_dns_servers_idem p.dns_servers p.public_dns,
      )
      refl

-- A policy with a known IPv6 strategy, or with none, is normalised by one pass.
pub normalize_policy_idem :
    (p : NetworkPolicy)
    → KnownIpv6 p.ipv6_strategy
    → normalize_policy_for_api (normalize_policy_for_api p) ≡ normalize_policy_for_api p
unfolding normalize_policy_for_api
normalize_policy_idem p h = case_idem (policy_mode p.mode) (policy_mode-KnownMode p.mode) p h

-- The configuration of Xray follows the policy that the page shows: what the page's normalisation
-- leaves is neither changed when the file is saved nor when a configuration is generated from it.
pub normalize_policy_in_force :
    (p : NetworkPolicy)
    → let q = normalize_policy_for_api p in policy_in_force (normalize_network_policy q) ≡ q
unfolding normalize_policy_for_api
normalize_policy_in_force p =
    let (stored, runs) = case-IsFixed (policy_mode p.mode) (policy_mode-KnownMode p.mode) p in
    rw stored runs

-- An unknown IPv6 strategy in the leak guard mode takes two passes: "keep" after the first one, a
-- hint after the second.
normalize_policy_twice :
    (p : NetworkPolicy)
    → p.mode ≡ "dns_leak_guard"
    → p.ipv6_strategy ≡ "off"
    → ((normalize_policy_for_api p).ipv6_strategy ≡ "keep")
      × ((normalize_policy_for_api (normalize_policy_for_api p)).ipv6_strategy ≡ "warn")
unfolding normalize_policy_for_api policy_mode policy_case allowed_texts contains or_default
    trim_space
normalize_policy_twice p m v = rw (m, v) (refl, refl)

pub normalize-stored :
    (p : NetworkPolicy)
    → normalize_network_policy (normalize_policy_for_api p) ≡ normalize_policy_for_api p
unfolding normalize_policy_for_api
normalize-stored p = (case-IsFixed (policy_mode p.mode) (policy_mode-KnownMode p.mode) p).0

case-KnownIpv6 :
    (m : String)
    → KnownMode m
    → (p : NetworkPolicy) → KnownIpv6 (allowed_texts (policy_case m p)).ipv6_strategy
unfolding policy_case allowed_texts
case-KnownIpv6 _ compat_mode p = known_after (or_text p.ipv6_strategy "keep")
case-KnownIpv6 _ public_dns_mode p = known_after (or_text p.ipv6_strategy "keep")
case-KnownIpv6 _ leak_guard_mode p = known_after (hinted p.ipv6_strategy "warn")
case-KnownIpv6 _ strict_mode p = known_after (hinted p.ipv6_strategy "disable_hint")
case-KnownIpv6 _ custom_mode p = known_after (or_text p.ipv6_strategy "keep")

pub normalize-KnownIpv6 : (p : NetworkPolicy) → KnownIpv6 (normalize_policy_for_api p).ipv6_strategy
unfolding normalize_policy_for_api
normalize-KnownIpv6 p = case-KnownIpv6 (policy_mode p.mode) (policy_mode-KnownMode p.mode) p

-- the time and the author of a change play no part
case_stamped :
    (m : String)
    → KnownMode m
    → (p : NetworkPolicy) (t : Time) (u : String)
    → allowed_texts (policy_case m (record p { updated_at = t; updated_by = u }))
      ≡ record (allowed_texts (policy_case m p)) { updated_at = t; updated_by = u }
unfolding policy_case allowed_texts
case_stamped _ compat_mode p t u = refl
case_stamped _ public_dns_mode p t u = refl
case_stamped _ leak_guard_mode p t u = refl
case_stamped _ strict_mode p t u = refl
case_stamped _ custom_mode p t u = refl

pub normalize_stamped :
    (p : NetworkPolicy) (t : Time) (u : String)
    → normalize_policy_for_api (record p { updated_at = t; updated_by = u })
      ≡ record (normalize_policy_for_api p) { updated_at = t; updated_by = u }
unfolding normalize_policy_for_api
normalize_stamped p t u = case_stamped (policy_mode p.mode) (policy_mode-KnownMode p.mode) p t u
