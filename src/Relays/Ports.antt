-- ===== src/Relays/Ports.antt =====
-- The ports of the relay routes: they stay distinct, also from those of the nodes.
use yuchen_panel.Common.{
  trim_space, ◌≡◌, refl, sym, String, true, false, not, ◌&&◌, ◌||◌, [], ◌∷◌, Map, ℤ, eqb_ℤ, arith,
  lookup, insert, lookup-insert_here, lookup-insert_there, none, some, ◌==◌, if◌then◌else◌, inl,
  inr, Bool-cases, Option-cases, Outcome-cases, ok,
}
use text.Mathlib.TextEquality.{eq_iff}
use yuchen_panel.Places.{Place, clashes, named_key, PlacesDistinct, PlacesDistinct-insert}
use yuchen_panel.Model.{Node, RelayRoute, PanelData}
use yuchen_panel.Store.{Store, Env, normalize, save_locked, add_log, log_and_save}
use yuchen_panel.Nodes.{Keys, or_text}
use yuchen_panel.Nodes.Ports.{node_place}
use yuchen_panel.Relays.Normalize.{trim_relay, normalize_relay, check_relay_port, node_at, relay_at}
use yuchen_panel.Relays.Handlers.{create_relay, update_relay, created_relay}
use yuchen_panel.Relays.Accepted.{Accepted, normalize_relay_on_server-Accepted}

-- where a relay listens
abbrev pub relay_place : RelayRoute → Place
relay_place r = record { server = r.relay_server_id; port = r.relay_port; enabled = r.enabled }

-- No two enabled relays share a port, and no enabled relay shares one with an enabled node.
pub record RelaysPlaced (d : PanelData) : Type 0 where
  pub distinct : PlacesDistinct relay_place d.relay_routes
  pub apart :
      (i j : String) (r : RelayRoute) (n : Node)
      → lookup i d.relay_routes ≡ some r
      → lookup j d.nodes ≡ some n
      → r.enabled ≡ true
      → clashes (relay_place r) (node_place n) ≡ false

node_at-none :
    (server_id : String) (port : ℤ) (j : String) (nodes : Map Node) (n : Node)
    → node_at server_id port nodes ≡ none
    → lookup j nodes ≡ some n
    → (n.server_id == server_id && n.enabled && eqb_ℤ n.port port) ≡ false
unfolding node_at lookup
node_at-none server_id port j [] n h stored = cc
node_at-none server_id port j ((k, m) ∷ nodes) n h stored =
    elim (Bool-cases (m.server_id == server_id && m.enabled && eqb_ℤ m.port port)) [
      | inl t ↦ cc
      | inr f ↦ elim (Bool-cases (k == j)) [
        | inl e ↦ let same : m ≡ n = ground arith in rw (sym same) f
        | inr e ↦
            node_at-none server_id port j nodes n (rw (f, if◌then◌else◌) at h)
              (rw (e, if◌then◌else◌) at stored)
      ]
    ]

relay_at-none :
    (server_id : String) (port : ℤ) (current_id j : String) (relays : Map RelayRoute)
    (r : RelayRoute)
    → relay_at server_id port (some current_id) relays ≡ none
    → lookup j relays ≡ some r
    → (j == current_id) ≡ false
    → (r.relay_server_id == server_id && r.enabled && eqb_ℤ r.relay_port port) ≡ false
unfolding relay_at lookup
relay_at-none server_id port current_id j [] r h stored away = cc
relay_at-none server_id port current_id j ((k, q) ∷ relays) r h stored away =
    elim (Bool-cases (
      not (k == current_id)
      && (q.relay_server_id == server_id && q.enabled && eqb_ℤ q.relay_port port))) [
        | inl t ↦ cc
        | inr f ↦ elim (Bool-cases (k == j)) [
          | inl e ↦
              let same : q ≡ r = ground arith in
              let key : k ≡ j = (eq_iff k j).0 e in rw (sym same) (ground arith)
          | inr e ↦
              relay_at-none server_id port current_id j relays r (rw (f, if◌then◌else◌) at h)
                (rw (e, if◌then◌else◌) at stored) away
        ]
      ]

-- the place of a route that was accepted is free
abbrev IsFree : PanelData → String → RelayRoute → Type 0
IsFree d current_id r =
    ((j : String) (n : Node)
      → lookup j d.nodes ≡ some n
      → clashes (relay_place r) (node_place n) ≡ false)
    × ((j : String) (q : RelayRoute)
        → lookup j d.relay_routes ≡ some q
        → (j == current_id) ≡ false
        → clashes (relay_place r) (relay_place q) ≡ false)

check_relay_port-IsFree :
    (d : PanelData) (current_id tail : String) (r : RelayRoute)
    → check_relay_port d (some current_id) tail r.relay_server_id r.relay_port ≡ ok tt
    → IsFree d current_id r
unfolding check_relay_port
check_relay_port-IsFree d current_id tail r h =
    let server_id = r.relay_server_id in
    let port = r.relay_port in
    elim (Option-cases (node_at server_id port d.nodes)) [
      | inr (n, e) ↦ absurd (ground arith)
      | inl quiet ↦ elim (Option-cases (relay_at server_id port (some current_id) d.relay_routes)) [
        | inr (q, e) ↦ absurd (ground arith)
        | inl calm ↦ (
          λ j n. node_at-none server_id port j d.nodes n quiet,
          λ j q. relay_at-none server_id port current_id j d.relay_routes q calm,
        )
      ]
    ]

normalize_relay-Accepted :
    (env : Env) (keys : Keys) (body : RelayRoute) (id : String) (s : Store) (r : RelayRoute)
    → (normalize_relay env keys body id s).1 ≡ ok r
    → (b : RelayRoute) × Accepted (normalize_relay env keys body id s).0.memory id b r
unfolding normalize_relay
normalize_relay-Accepted env keys body id s r h =
    let mode = or_text (trim_relay body).route_mode "tcp_forward" in
    elim (Bool-cases ((trim_relay body).name == "")) [
      | inl e ↦ absurd (ground arith)
      | inr e ↦ elim (Bool-cases (not (mode == "tcp_forward" || mode == "socks5_route"))) [
        | inl m ↦ absurd (ground arith)
        | inr m ↦
            rw (normalize_relay, e, m, if◌then◌else◌)
              (_, normalize_relay_on_server-Accepted keys _ id _ r (rw (e, m, if◌then◌else◌) at h))
      ]
    ]

normalize_relay-IsFree :
    (env : Env) (keys : Keys) (body : RelayRoute) (id : String) (s : Store) (r : RelayRoute)
    → (normalize_relay env keys body id s).1 ≡ ok r
    → IsFree (normalize_relay env keys body id s).0.memory id r
normalize_relay-IsFree env keys body id s r h =
    let (b, a) = normalize_relay-Accepted env keys body id s r h in
    let d = (normalize_relay env keys body id s).0.memory in
    check_relay_port-IsFree d id " 使用，请换一个端口" r (rw (a.same.0, a.same.1) a.port_free)

RelaysPlaced-insert :
    (d : PanelData) (k : String) (r : RelayRoute)
    → RelaysPlaced d
    → ((j : String) (n : Node)
        → lookup j d.nodes ≡ some n
        → clashes (relay_place r) (node_place n) ≡ false)
    → ((j : String) (q : RelayRoute)
        → lookup j d.relay_routes ≡ some q
        → (j == k) ≡ false
        → clashes (relay_place r) (relay_place q) ≡ false)
    → RelaysPlaced (record d { relay_routes = insert k r d.relay_routes })
RelaysPlaced-insert d k r h quiet calm = record {
  distinct =
      PlacesDistinct-insert relay_place k r d.relay_routes h.distinct
        (λ j q stored away on. calm j q stored away);
  apart = λ i j q n si sj on. elim (Bool-cases (i == k)) [
    | inl e ↦
        let same : r ≡ q = lookup-insert_here k i r d.relay_routes e si in
        rw (sym same) (quiet j n sj)
    | inr e ↦ h.apart i j q n (lookup-insert_there k i r d.relay_routes e si) sj on
  ];
}

normalize_relay_named :
    (env : Env) (keys : Keys) (body : RelayRoute) (id : String) (s : Store)
    → (trim_space body.relay_server_id == "") ≡ false
    → (normalize_relay env keys body id s).0 ≡ s
unfolding normalize_relay trim_relay
normalize_relay_named env keys body id s named =
    let mode = or_text (trim_relay body).route_mode "tcp_forward" in
    elim (Bool-cases ((trim_relay body).name == "")) [
      | inl e ↦ rw (normalize_relay, e, if◌then◌else◌) refl
      | inr e ↦ elim (Bool-cases (not (mode == "tcp_forward" || mode == "socks5_route"))) [
        | inl m ↦ rw (normalize_relay, e, m, if◌then◌else◌) refl
        | inr m ↦ rw (normalize_relay, e, m, named, if◌then◌else◌) refl
      ]
    ]

-- A request to change a relay route that names a server keeps the enabled relay routes of each
-- server on distinct ports, on which no enabled node of the server listens.
pub update_relay-RelaysPlaced :
    (env : Env) (keys : Keys) (id : String) (item body : RelayRoute) (s : Store)
    → (trim_space body.relay_server_id == "") ≡ false
    → RelaysPlaced s.memory
    → RelaysPlaced (update_relay env keys id item body s).0.memory
unfolding update_relay log_and_save add_log save_locked normalize
update_relay-RelaysPlaced env keys id item body s named placed =
    let h : RelaysPlaced (normalize_relay env keys body id s).0.memory =
      rw (normalize_relay_named env keys body id s named) placed in
    elim (Outcome-cases (normalize_relay env keys body id s).1) [
      | inr (e, q) ↦ rw (update_relay, q) h
      | inl (r, q) ↦
          let (quiet, calm) = normalize_relay-IsFree env keys body id s r q in
          let stored : RelayRoute = record r {
            id = id;
            created_at = item.created_at;
            updated_at = env.now;
          } in
          let p =
            RelaysPlaced-insert (normalize_relay env keys body id s).0.memory id stored h quiet
              calm in
          rw (update_relay, q) (record { distinct = p.distinct; apart = p.apart })
    ]

-- A request to create a relay route that names a server does so too, where no route is stored under
-- the empty id.
pub create_relay-RelaysPlaced :
    (env : Env) (keys : Keys) (body : RelayRoute) (s : Store)
    → (trim_space body.relay_server_id == "") ≡ false
    → lookup "" s.memory.relay_routes ≡ none
    → RelaysPlaced s.memory
    → RelaysPlaced (create_relay env keys body s).0.memory
unfolding create_relay log_and_save add_log save_locked normalize
create_relay-RelaysPlaced env keys body s named missing placed =
    let same = normalize_relay_named env keys body "" s named in
    let h : RelaysPlaced (normalize_relay env keys body "" s).0.memory = rw (same) placed in
    let unnamed : lookup "" (normalize_relay env keys body "" s).0.memory.relay_routes ≡ none =
      rw (same) missing in
    elim (Outcome-cases (normalize_relay env keys body "" s).1) [
      | inr (e, q) ↦ rw (create_relay, q) h
      | inl (r, q) ↦
          let d = (normalize_relay env keys body "" s).0.memory in
          let (quiet, calm) = normalize_relay-IsFree env keys body "" s r q in
          let p =
            RelaysPlaced-insert d env.new_id (created_relay env r) h quiet
              (λ j w stored away. calm j w stored (named_key "" j d.relay_routes unnamed stored)) in
          rw (create_relay, q) (record { distinct = p.distinct; apart = p.apart })
    ]
