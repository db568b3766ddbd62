-- ===== src/Xray/InForce.antt =====
-- The policy in force is settled by one pass.
use yuchen_panel.Common.{
  ◌≡◌, refl, String, Bool, true, false, ◌||◌, ◌&&◌, List, [], ◌∷◌, ◌==◌, if◌then◌else◌, inl, inr,
  Bool-cases,
}
use yuchen_panel.Model.{NetworkPolicy}
use yuchen_panel.Store.Policy.{default_dns, is_empty}
use yuchen_panel.Xray.Policy.{dns_or_default, policy_in_force}

dns_or_default_idem :
    (servers : List String) → dns_or_default (dns_or_default servers) ≡ dns_or_default servers
dns_or_default_idem [] = refl
dns_or_default_idem (s ∷ servers) = refl

custom_dns_idem :
    (b : Bool) (servers : List String)
    → let once = if b && is_empty servers then default_dns else servers in
      (if b && is_empty once then default_dns else once) ≡ once
custom_dns_idem true [] = refl
custom_dns_idem true (s ∷ servers) = refl
custom_dns_idem false servers = refl

custom_strategy_idem :
    (q : String)
    → let once = if q == "" then "AsIs" else q in (if once == "" then "AsIs" else once) ≡ once
custom_strategy_idem q = elim (Bool-cases (q == "")) [
  | inl e ↦ rw (e, if◌then◌else◌) refl
  | inr e ↦ rw (e, if◌then◌else◌, e, if◌then◌else◌) refl
]

-- The policy in force is its own: once the mode is settled, settling it again changes nothing.
policy_in_force_idem : (p : NetworkPolicy) → policy_in_force (policy_in_force p) ≡ policy_in_force p
unfolding policy_in_force
policy_in_force_idem p = elim (Bool-cases (p.mode == "" || p.mode == "compat")) [
  | inl a ↦ rw (policy_in_force, a, if◌then◌else◌) refl
  | inr a ↦ elim (Bool-cases (p.mode == "public_dns" || p.mode == "dns_leak_guard")) [
    | inl b ↦
        rw
          (
            policy_in_force,
            a,
            b,
            if◌then◌else◌,
            a,
            b,
            if◌then◌else◌,
            dns_or_default_idem p.dns_servers,
          )
          refl
    | inr b ↦ elim (Bool-cases (p.mode == "strict")) [
      | inl c ↦
          rw
            (
              policy_in_force,
              a,
              b,
              c,
              if◌then◌else◌,
              a,
              b,
              c,
              if◌then◌else◌,
              dns_or_default_idem p.dns_servers,
            )
            refl
      | inr c ↦ elim (Bool-cases (p.mode == "custom")) [
        | inl d ↦
            rw
              (
                policy_in_force,
                a,
                b,
                c,
                d,
                if◌then◌else◌,
                a,
                b,
                c,
                d,
                if◌then◌else◌,
                custom_dns_idem p.public_dns p.dns_servers,
                custom_strategy_idem p.query_strategy,
              )
              refl
        | inr d ↦ rw (policy_in_force, a, b, c, d, if◌then◌else◌) refl
      ]
    ]
  ]
]
