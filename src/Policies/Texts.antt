-- ===== src/Policies/Texts.antt =====
-- The cleaned lists and the allowed texts of a network policy stay as they are when they are cleaned
-- again (backend/internal/api/network_policy.go, backend/internal/store/store.go).
use yuchen_panel.Common.{
  has_infix, ◌≡◌, refl, subst, sym, String, Bool, true, false, not, ◌&&◌, ◌||◌, List, [], ◌∷◌,
  contains, trim_space, trim_space_idem, ◌==◌, if◌then◌else◌, arith, inl, inr, Bool-cases, ap, ◌∙◌,
}
use text.Mathlib.TextEquality.{eq_iff}
use yuchen_panel.Places.{true_is_not_false}
use yuchen_panel.Nodes.{or_text}
use yuchen_panel.Store.Policy.{
  default_dns, allowed_modes, allowed_query, allowed_ipv6, or_default, is_empty,
}
use yuchen_panel.Policies.Normalize.{
  is_dns_server, clean_list, clean_dns_servers, policy_mode, hinted,
}

clean_list_idem :
    (seen list : List String) → clean_list seen (clean_list seen list) ≡ clean_list seen list
unfolding clean_list
clean_list_idem seen [] = refl
clean_list_idem seen (raw ∷ list) =
    let v = trim_space raw in
    elim (Bool-cases (is_dns_server v && not (contains seen v))) [
      | inr drop ↦ rw (drop, if◌then◌else◌) (clean_list_idem seen list)
      | inl keep ↦
          rw
            (
              keep,
              if◌then◌else◌,
              trim_space_idem raw,
              keep,
              if◌then◌else◌,
              clean_list_idem (trim_space raw ∷ seen) list,
            )
            refl
    ]

default_clean : clean_list [] default_dns ≡ default_dns
unfolding clean_list is_dns_server trim_space has_infix
default_clean = refl

pub clean_dns_servers_idem :
    (list : List String) (b : Bool)
    → clean_dns_servers (clean_dns_servers list b) b ≡ clean_dns_servers list b
unfolding clean_dns_servers
clean_dns_servers_idem list b = elim (Bool-cases (is_empty (clean_list [] list) && b)) [
  | inl e ↦ rw (e, if◌then◌else◌, default_clean) refl
  | inr e ↦ rw (e, if◌then◌else◌, clean_list_idem [] list, e, if◌then◌else◌) refl
]

-- with the default, a cleaned list is not empty
pub clean_dns_servers-is_empty :
    (list : List String) (b : Bool) → (b && is_empty (clean_dns_servers list b)) ≡ false
unfolding clean_dns_servers
clean_dns_servers-is_empty list b = elim (Bool-cases (is_empty (clean_list [] list) && b)) [
  | inl e ↦ rw (e, if◌then◌else◌) (ground arith)
  | inr e ↦ rw (e, if◌then◌else◌) (ground arith)
]

-- the modes
pub data KnownMode : String → Type 0 where
  compat_mode : KnownMode "compat"
  public_dns_mode : KnownMode "public_dns"
  leak_guard_mode : KnownMode "dns_leak_guard"
  strict_mode : KnownMode "strict"
  custom_mode : KnownMode "custom"

allowed-KnownMode : (m : String) → contains allowed_modes m ≡ true → KnownMode m
unfolding contains
allowed-KnownMode m h = elim (Bool-cases ("compat" == m)) [
  | inl e ↦ subst KnownMode ((eq_iff "compat" m).0 e) compat_mode
  | inr a ↦ elim (Bool-cases ("public_dns" == m)) [
    | inl e ↦ subst KnownMode ((eq_iff "public_dns" m).0 e) public_dns_mode
    | inr b ↦ elim (Bool-cases ("dns_leak_guard" == m)) [
      | inl e ↦ subst KnownMode ((eq_iff "dns_leak_guard" m).0 e) leak_guard_mode
      | inr c ↦ elim (Bool-cases ("strict" == m)) [
        | inl e ↦ subst KnownMode ((eq_iff "strict" m).0 e) strict_mode
        | inr d ↦ elim (Bool-cases ("custom" == m)) [
          | inl e ↦ subst KnownMode ((eq_iff "custom" m).0 e) custom_mode
          | inr e ↦ absurd (ground arith)
        ]
      ]
    ]
  ]
]

pub policy_mode-KnownMode : (raw : String) → KnownMode (policy_mode raw)
unfolding policy_mode or_default
policy_mode-KnownMode raw =
    elim (Bool-cases (contains allowed_modes (or_text (trim_space raw) "compat"))) [
      | inl e ↦ rw (e, if◌then◌else◌) (allowed-KnownMode _ e)
      | inr e ↦ rw (e, if◌then◌else◌) compat_mode
    ]

or_default_idem :
    (allowed : List String) (fallback v : String)
    → contains allowed fallback ≡ true
    → or_default allowed fallback (or_default allowed fallback v) ≡ or_default allowed fallback v
unfolding or_default
or_default_idem allowed fallback v h = elim (Bool-cases (contains allowed v)) [
  | inl e ↦ rw (e, if◌then◌else◌, e, if◌then◌else◌) refl
  | inr e ↦ rw (e, if◌then◌else◌, h, if◌then◌else◌) refl
]

-- the text that is left is allowed
or_default-allowed :
    (allowed : List String) (fallback v : String)
    → contains allowed fallback ≡ true
    → contains allowed (or_default allowed fallback v) ≡ true
unfolding or_default
or_default-allowed allowed fallback v h = elim (Bool-cases (contains allowed v)) [
  | inl e ↦ rw (e, if◌then◌else◌) e
  | inr e ↦ rw (e, if◌then◌else◌) h
]

-- an allowed text is not empty where the empty one is not allowed
allowed-or_text :
    (allowed : List String) (v fallback : String)
    → contains allowed "" ≡ false
    → contains allowed v ≡ true
    → (v == "") ≡ false
allowed-or_text allowed v fallback none_empty h = elim (Bool-cases (v == "")) [
  | inr e ↦ e
  | inl e ↦
      let same : v ≡ "" = (eq_iff v "").0 e in
      absurd (true_is_not_false (sym h ∙ (ap (contains allowed) same ∙ none_empty)))
]

-- an IPv6 strategy that a page sends: one of the three, or none
abbrev pub KnownIpv6 : String → Type 0
KnownIpv6 v = (v == "" || contains allowed_ipv6 v) ≡ true

pub query_settled :
    (v : String)
    → or_default allowed_query "AsIs" (or_text (or_default allowed_query "AsIs" v) "AsIs")
      ≡ or_default allowed_query "AsIs" v
unfolding contains
query_settled v =
    let y = or_default allowed_query "AsIs" v in
    rw
      (
        allowed-or_text allowed_query y "AsIs" refl
            (or_default-allowed allowed_query "AsIs" v refl),
        if◌then◌else◌,
      )
      (or_default_idem allowed_query "AsIs" v refl)

pub query_named : (v : String) → (or_default allowed_query "AsIs" v == "") ≡ false
unfolding contains
query_named v =
    allowed-or_text allowed_query (or_default allowed_query "AsIs" v) "AsIs" refl
      (or_default-allowed allowed_query "AsIs" v refl)

pub ipv6_settled :
    (v : String)
    → or_default allowed_ipv6 "keep" (or_text (or_default allowed_ipv6 "keep" v) "keep")
      ≡ or_default allowed_ipv6 "keep" v
unfolding contains
ipv6_settled v =
    let y = or_default allowed_ipv6 "keep" v in
    rw
      (
        allowed-or_text allowed_ipv6 y "keep" refl (or_default-allowed allowed_ipv6 "keep" v refl),
        if◌then◌else◌,
      )
      (or_default_idem allowed_ipv6 "keep" v refl)

pub known_after : (v : String) → KnownIpv6 (or_default allowed_ipv6 "keep" v)
unfolding contains
known_after v = let h = or_default-allowed allowed_ipv6 "keep" v refl in ground (arith, h)

-- a hint stays, and so does what it does not replace
pub hint_settled :
    (v hint : String)
    → KnownIpv6 v
    → contains allowed_ipv6 hint ≡ true
    → hinted hint hint ≡ hint
    → or_default allowed_ipv6 "keep" (hinted (or_default allowed_ipv6 "keep" (hinted v hint)) hint)
      ≡ or_default allowed_ipv6 "keep" (hinted v hint)
unfolding or_default
hint_settled v hint known good stays = elim (Bool-cases (v == "" || v == "keep")) [
  | inl e ↦ rw (e, if◌then◌else◌, good, if◌then◌else◌, stays, good, if◌then◌else◌) refl
  | inr e ↦
      let allowed : contains allowed_ipv6 v ≡ true = ground arith in
      rw (e, if◌then◌else◌, allowed, if◌then◌else◌, e, if◌then◌else◌, allowed, if◌then◌else◌) refl
]
