-- ===== src/Clients/Bindings.antt =====
-- What validation leaves in a client: bindings that exist, each once, and none of the request lost.
use yuchen_panel.Common.{
  ◌≤◌, ◌≡◌, ◌≢◌, refl, true, false, ◌||◌, String, List, [], ◌∷◌, Map, some, map, arith, pos, ◌≤ℤ◌,
  lookup, has_key, contains, trim_space, ◌==◌, if◌then◌else◌, Outcome, ok, err, inl, inr, All,
  length, Bool-cases, Option-cases, fail_if-eq-ok, >>=-eq-ok, ok-injective, sym,
}
use text.Mathlib.TextEquality.{eq_iff}
use yuchen_panel.Model.{Node, RelayRoute, Client, PanelData}
use yuchen_panel.Clients.Validate.{
  clean_node_ids, clean_relay_ids, cons_ok, check_billing, validate_client, max_limit_gb,
  cleaned_client,
}

-- no text twice, and none that `seen` holds
abbrev pub DistinctFrom : List String → List String → Type 0
DistinctFrom seen [] = Unit
DistinctFrom seen (x ∷ xs) = (contains seen x ≡ false) × DistinctFrom (x ∷ seen) xs

cons_ok-eq-ok :
    (id : String) (m : Outcome (List String)) (ids : List String)
    → cons_ok id m ≡ ok ids
    → (rest : List String) × (m ≡ ok rest) × (ids ≡ id ∷ rest)
cons_ok-eq-ok id (ok rest) ids h = (rest, refl, ground arith)
cons_ok-eq-ok id (err e) ids h = absurd (cc)

-- A cleaned list holds nodes of the panel, each once.
pub clean_node_ids_sound :
    (nodes : Map Node) (seen raw ids : List String)
    → clean_node_ids nodes seen raw ≡ ok ids
    → All (λ id. has_key id nodes ≡ true) ids × DistinctFrom seen ids
unfolding clean_node_ids
clean_node_ids_sound nodes seen [] ids h = let e : ids ≡ [] = ground arith in rw e (tt, tt)
clean_node_ids_sound nodes seen (r ∷ raw) ids h =
    elim (Bool-cases (trim_space r == "" || contains seen (trim_space r))) [
      | inl skip ↦ clean_node_ids_sound nodes seen raw ids (rw (skip, if◌then◌else◌) at h)
      | inr keep ↦ elim (Bool-cases (has_key (trim_space r) nodes)) [
        | inl found ↦
            let (rest, e, same) =
              cons_ok-eq-ok (trim_space r) _ ids (rw (keep, found, if◌then◌else◌) at h) in
            let (exist, distinct) = clean_node_ids_sound nodes (trim_space r ∷ seen) raw rest e in
            rw same ((found, exist), (ground arith, distinct))
        | inr gone ↦ absurd (ground arith)
      ]
    ]

-- a relay route that a fixed-exit client may be bound to
abbrev pub IsFixedExit : Map RelayRoute → String → Type 0
IsFixedExit relays id =
    (rr : RelayRoute) × (lookup id relays ≡ some rr) × (rr.route_mode ≡ "socks5_route")

-- A cleaned list holds SOCKS5 relay routes of the panel, each once.
pub clean_relay_ids_sound :
    (relays : Map RelayRoute) (seen raw ids : List String)
    → clean_relay_ids relays seen raw ≡ ok ids
    → All (IsFixedExit relays) ids × DistinctFrom seen ids
unfolding clean_relay_ids
clean_relay_ids_sound relays seen [] ids h = let e : ids ≡ [] = ground arith in rw e (tt, tt)
clean_relay_ids_sound relays seen (r ∷ raw) ids h =
    elim (Bool-cases (trim_space r == "" || contains seen (trim_space r))) [
      | inl skip ↦ clean_relay_ids_sound relays seen raw ids (rw (skip, if◌then◌else◌) at h)
      | inr keep ↦ elim (Option-cases (lookup (trim_space r) relays)) [
        | inl gone ↦ absurd (ground arith)
        | inr (rr, found) ↦ elim (Bool-cases (rr.route_mode == "socks5_route")) [
          | inl mode ↦
              let (rest, e, same) =
                cons_ok-eq-ok (trim_space r) _ ids (rw (keep, found, mode, if◌then◌else◌) at h) in
              let (exist, distinct) =
                clean_relay_ids_sound relays (trim_space r ∷ seen) raw rest e in
              rw same (
                ((rr, found, (eq_iff rr.route_mode "socks5_route").0 mode), exist),
                (ground arith, distinct),
              )
          | inr other ↦ absurd (ground arith)
        ]
      ]
    ]

-- an id that is skipped is blank or was kept before
skipped_differs :
    (id v : String) (seen : List String)
    → v ≢ ""
    → contains seen v ≡ false
    → (id == "" || contains seen id) ≡ true
    → (id == v) ≡ false
skipped_differs id v seen named new skip = elim (Bool-cases (id == v)) [
  | inr other ↦ other
  | inl hit ↦
      let same : id ≡ v = (eq_iff id v).0 hit in
      absurd (ground (arith, rw same at skip, eq_iff v ""))
]

-- Cleaning drops no binding: a text is in the result exactly when some requested id trims to it.
clean_node_ids_complete :
    (nodes : Map Node) (seen raw ids : List String) (v : String)
    → clean_node_ids nodes seen raw ≡ ok ids
    → v ≢ ""
    → contains seen v ≡ false
    → contains ids v ≡ contains (map trim_space raw) v
unfolding clean_node_ids contains
clean_node_ids_complete nodes seen [] ids v h named new = let e : ids ≡ [] = ground arith in rw e
clean_node_ids_complete nodes seen (r ∷ raw) ids v h named new =
    elim (Bool-cases (trim_space r == "" || contains seen (trim_space r))) [
      | inl skip ↦
          rw (skipped_differs (trim_space r) v seen named new skip, if◌then◌else◌)
            (clean_node_ids_complete nodes seen raw ids v (rw (skip, if◌then◌else◌) at h) named new)
      | inr keep ↦ elim (Bool-cases (has_key (trim_space r) nodes)) [
        | inl found ↦
            let (rest, e, same) =
              cons_ok-eq-ok (trim_space r) _ ids (rw (keep, found, if◌then◌else◌) at h) in
            elim (Bool-cases (trim_space r == v)) [
              | inl hit ↦ rw (same, hit)
              | inr other ↦
                  rw (same, other, if◌then◌else◌)
                    (clean_node_ids_complete nodes (trim_space r ∷ seen) raw rest v e named
                      (ground arith))
            ]
        | inr gone ↦ absurd (ground arith)
      ]
    ]

-- What a validated client has: a name, bindings to what exists, at most one relay, and a limit and
-- a cycle in their ranges.
pub record IsValidClient (d : PanelData) (c : Client) : Type 0 where
  pub named : c.username ≢ ""
  pub nodes_exist : All (λ id. has_key id d.nodes ≡ true) c.node_ids
  pub nodes_distinct : DistinctFrom [] c.node_ids
  pub relays_exist : All (IsFixedExit d.relay_routes) c.relay_route_ids
  pub one_relay : length c.relay_route_ids ≤ 1
  pub limit : (pos 0 ≤ℤ c.traffic_limit_gb) × (c.traffic_limit_gb ≤ℤ pos max_limit_gb)
  pub cycle : (pos 0 ≤ℤ c.billing_cycle_days) × (c.billing_cycle_days ≤ℤ pos 366)

check_billing_bounds :
    (c : Client)
    → check_billing c ≡ ok tt
    → ((pos 0 ≤ℤ c.traffic_limit_gb) × (c.traffic_limit_gb ≤ℤ pos max_limit_gb))
      × ((pos 0 ≤ℤ c.billing_cycle_days) × (c.billing_cycle_days ≤ℤ pos 366))
unfolding check_billing
check_billing_bounds c h = ground arith

-- The steps of a validation that succeeds.
validate_client_steps :
    (d : PanelData) (c v : Client)
    → validate_client d c ≡ ok v
    → (node_ids : List String) × (relay_ids : List String) × (clean_node_ids d.nodes [] c.node_ids
        ≡ ok node_ids)
      × (clean_relay_ids d.relay_routes [] c.relay_route_ids ≡ ok relay_ids)
      × (length relay_ids ≤ 1)
      × (check_billing c ≡ ok tt)
      × ((trim_space c.username == "") ≡ false)
      × (v ≡ cleaned_client c node_ids relay_ids)
unfolding validate_client
validate_client_steps d c v h =
    let (named, h₁) = fail_if-eq-ok _ _ _ h in
    let (node_ids, en, h₂) = >>=-eq-ok _ _ h₁ in
    let (relay_ids, er, h₃) = >>=-eq-ok _ _ h₂ in
    let (few, h₄) = fail_if-eq-ok _ _ _ h₃ in
    let (u, eb, h₅) = >>=-eq-ok _ _ h₄ in
    (node_ids, relay_ids, en, er, ground arith, eb, named, sym (ok-injective h₅))

-- A client that validation accepts is valid.
pub validate_client-IsValidClient :
    (d : PanelData) (c v : Client) → validate_client d c ≡ ok v → IsValidClient d v
validate_client-IsValidClient d c v h =
    let (node_ids, relay_ids, en, er, few, eb, named, same) = validate_client_steps d c v h in
    let (nodes, distinct) = clean_node_ids_sound d.nodes [] c.node_ids node_ids en in
    let relays = (clean_relay_ids_sound d.relay_routes [] c.relay_route_ids relay_ids er).0 in
    let (limit, cycle) = check_billing_bounds c eb in
    rw same (record {
      named = λ e. ground (arith, eq_iff (trim_space c.username) "");
      nodes_exist = nodes;
      nodes_distinct = distinct;
      relays_exist = relays;
      one_relay = few;
      limit = limit;
      cycle = cycle;
    })
