-- ===== src/Traffic/Billing.antt =====
-- Billing: who is switched off, and whose accounting a heartbeat can change.
use yuchen_panel.Common.{
  ℕ, ◌*◌, ◌^◌, ◌<◌, List, All, ltb_ℤ, ◌≡◌, ◌≢◌, refl, ◌∙◌, true, false, not, ◌&&◌, ◌||◌, String, [],
  ◌∷◌, Map, some, arith, pos, lookup, lookup-insert, lookup-map_values, map_values, AllValues,
  if◌then◌else◌, inl, inr, ◌⊎◌, Bool-cases, Option-cases, ◌==◌,
}
use text.Mathlib.TextEquality.{eq_iff}
use yuchen_panel.Model.{Time, Client, Node, RelayRoute, ClientTraffic, AgentHeartbeat, PanelData}
use yuchen_panel.Traffic.{
  migrate_traffic, expired, limited, enforce_client, enforce_billing, traffic_source_allowed,
  node_on_server, relay_on_server, account_traffic, account_sample, account_samples,
}

-- no time of expiry, or one that is still to come
abbrev pub HasTime : Time → Client → Type 0
HasTime now c = (c.expire_at ≡ 0) ⊎ (now < c.expire_at)

-- A limit of n GB, from 1 to the most that the bytes of an int64 can hold, is n * 2 ^ 30 bytes.
abbrev pub HasTraffic : Client → Type 0
HasTraffic c =
    (n : ℕ)
    → c.traffic_limit_gb ≡ pos n
    → 0 < n
    → n < 2 ^ 33
    → ltb_ℤ c.traffic_used_bytes (pos (n * 2 ^ 30)) ≡ true

-- A client that may go on: enabled only if it has time and traffic left.
abbrev pub IsEnforced : Time → Client → Type 0
IsEnforced now c = c.enabled ≡ true → HasTime now c × HasTraffic c

expired-HasTime : (now : Time) (c : Client) → expired now c ≡ false → HasTime now c
unfolding expired
expired-HasTime now c h = ground arith

limited-HasTraffic : (c : Client) → limited c ≡ false → HasTraffic c
unfolding limited
limited-HasTraffic c h n same some_limit small = let h' = rw same at h in ground arith

enforce_client-IsEnforced : (now : Time) (c : Client) → IsEnforced now (enforce_client now c)
unfolding enforce_client
enforce_client-IsEnforced now c = elim (Bool-cases (m.enabled && (expired now m || limited m))) [
  | inl e ↦ rw (e, if◌then◌else◌) (λ h. absurd (cc))
  | inr e ↦
      rw (e, if◌then◌else◌)
        (λ on. (expired-HasTime now m (ground arith), limited-HasTraffic m (ground arith)))
]
  where
    m : Client
    m = migrate_traffic c

all-IsEnforced :
    (now : Time) (m : Map Client) → AllValues (IsEnforced now) (map_values (enforce_client now) m)
unfolding map_values
all-IsEnforced now [] = tt
all-IsEnforced now ((id, c) ∷ m) = (enforce_client-IsEnforced now c, all-IsEnforced now m)

-- After the billing pass each enabled client of the panel has no time of expiry or one that is still
-- to come, and, where it has a limit from 1 to 2 ^ 33 - 1 GB, has used less than so many times
-- 2 ^ 30 bytes.
pub enforce_billing-IsEnforced :
    (now : Time) (d : PanelData) → AllValues (IsEnforced now) (enforce_billing now d).0.clients
unfolding enforce_billing
enforce_billing-IsEnforced now d = all-IsEnforced now d.clients

-- A round of accounting changes clients alone.
account_sample-nodes :
    (hb : AgentHeartbeat) (j : String) (sample : ClientTraffic) (d : PanelData)
    → ((account_sample hb j sample d).nodes ≡ d.nodes)
      × ((account_sample hb j sample d).relay_routes ≡ d.relay_routes)
unfolding account_sample
account_sample-nodes hb j sample d = ground arith

allowed-account_sample :
    (hb : AgentHeartbeat) (j : String) (sample : ClientTraffic) (d : PanelData) (c : Client)
    (s : String)
    → traffic_source_allowed (account_sample hb j sample d) c s ≡ traffic_source_allowed d c s
unfolding traffic_source_allowed
allowed-account_sample hb j sample d c s =
    let same = account_sample-nodes hb j sample d in rw (same.0, same.1)

account_sample_foreign :
    (hb : AgentHeartbeat) (j : String) (sample : ClientTraffic) (d : PanelData) (id : String)
    (c : Client)
    → lookup id d.clients ≡ some c
    → traffic_source_allowed d c hb.server_id ≡ false
    → lookup id (account_sample hb j sample d).clients ≡ some c
unfolding account_sample
account_sample_foreign hb j sample d id c found foreign = elim (Bool-cases (j == id)) [
  | inl e ↦
      let same : j ≡ id = (eq_iff j id).0 e in
      rw (same, account_sample, found, foreign, not, if◌then◌else◌) found
  | inr e ↦ elim (Option-cases (lookup j d.clients)) [
    | inl gone ↦ rw (account_sample, gone) found
    | inr (c', e') ↦ elim (Bool-cases (traffic_source_allowed d c' hb.server_id)) [
      | inl t ↦
          rw (account_sample, e', t, not, if◌then◌else◌, lookup-insert, e, if◌then◌else◌) found
      | inr f ↦ rw (account_sample, e', f, not, if◌then◌else◌) found
    ]
  ]
]

account_samples_foreign :
    (hb : AgentHeartbeat) (samples : Map ClientTraffic) (d : PanelData) (id : String) (c : Client)
    → lookup id d.clients ≡ some c
    → traffic_source_allowed d c hb.server_id ≡ false
    → lookup id (account_samples hb samples d).clients ≡ some c
unfolding account_samples
account_samples_foreign hb [] d id c found foreign = found
account_samples_foreign hb ((j, sample) ∷ rest) d id c found foreign =
    account_samples_foreign hb rest _ id c (account_sample_foreign hb j sample d id c found foreign)
      (allowed-account_sample hb j sample d c hb.server_id ∙ foreign)

-- No node or relay route of the client is on the server.
abbrev pub IsForeign : PanelData → Client → String → Type 0
IsForeign d c server_id =
    All (λ id. (n : Node) → lookup id d.nodes ≡ some n → n.server_id ≢ server_id) c.node_ids
    × All
        (λ id. (r : RelayRoute) → lookup id d.relay_routes ≡ some r → r.relay_server_id ≢ server_id)
        c.relay_route_ids

node_on_server_none :
    (server_id : String) (nodes : Map Node) (ids : List String)
    → All (λ id. (n : Node) → lookup id nodes ≡ some n → n.server_id ≢ server_id) ids
    → node_on_server server_id nodes ids ≡ false
unfolding node_on_server
node_on_server_none server_id nodes [] h = refl
node_on_server_none server_id nodes (id ∷ ids) h =
    let rest = node_on_server_none server_id nodes ids h.1 in
    elim (Option-cases (lookup id nodes)) [
      | inl gone ↦ rw (node_on_server, gone) rest
      | inr (n, found) ↦
          let other = h.0 n found in
          rw (node_on_server, found) (ground (arith, eq_iff n.server_id server_id))
    ]

relay_on_server_none :
    (server_id : String) (relays : Map RelayRoute) (ids : List String)
    → All (λ id. (r : RelayRoute) → lookup id relays ≡ some r → r.relay_server_id ≢ server_id) ids
    → relay_on_server server_id relays ids ≡ false
unfolding relay_on_server
relay_on_server_none server_id relays [] h = refl
relay_on_server_none server_id relays (id ∷ ids) h =
    let rest = relay_on_server_none server_id relays ids h.1 in
    elim (Option-cases (lookup id relays)) [
      | inl gone ↦ rw (relay_on_server, gone) rest
      | inr (r, found) ↦
          let other = h.0 r found in
          rw (relay_on_server, found) (ground (arith, eq_iff r.relay_server_id server_id))
    ]

IsForeign-disallowed :
    (d : PanelData) (c : Client) (server_id : String)
    → IsForeign d c server_id
    → traffic_source_allowed d c server_id ≡ false
unfolding traffic_source_allowed
IsForeign-disallowed d c server_id h =
    let nodes = node_on_server_none server_id d.nodes c.node_ids h.0 in
    rw (nodes) (relay_on_server_none server_id d.relay_routes c.relay_route_ids h.1)

-- The accounting of a heartbeat, whatever samples it holds, does to a client with no node or relay
-- route on the server of the heartbeat what the billing pass alone does to it.
pub account_traffic_foreign :
    (now : Time) (hb : AgentHeartbeat) (d : PanelData) (id : String) (c : Client)
    → lookup id d.clients ≡ some c
    → IsForeign d c hb.server_id
    → lookup id (account_traffic now hb d).clients ≡ lookup id (enforce_billing now d).0.clients
unfolding account_traffic enforce_billing
account_traffic_foreign now hb d id c found foreign =
    let same =
      account_samples_foreign hb hb.traffic_by_client d id c found
        (IsForeign-disallowed d c hb.server_id foreign) in
    rw (lookup-map_values, lookup-map_values, same, found) refl
