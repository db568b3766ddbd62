-- ===== src/Traffic.antt =====
-- Traffic accounting and billing (backend/internal/api/traffic.go). The proofs are in the modules
-- below: the saturating sum, one sample, the invariant, a run of samples, and billing.
pub mod Bounds
pub mod Sample
pub mod Metering
pub mod Billing
use yuchen_panel.Common.{
  ℕ, ◌+◌, ◌-◌, ◌*◌, ◌^◌, String, Bool, true, false, not, ◌&&◌, ◌||◌, Option, none, some, List, [],
  ◌∷◌, Map, lookup, insert, map_values, ◌==◌, if◌then◌else◌, ℤ, pos, ◌+ℤ◌, ◌-ℤ◌, pos_part, neg_part,
  ltb_ℤ, leb_ℤ, eqb_ℤ, max_int64, wrap64, shr_ℤ, shl_ℤ,
}
use yuchen_panel.Model.{
  Time, Client, ClientTraffic, TrafficCursor, Node, RelayRoute, AgentHeartbeat, PanelData, is_zero,
  before, after,
}

-- math.MaxInt64 >> 30
abbrev pub max_gb : ℕ
max_gb = 2 ^ 33 - 1

unfoldable pub migrate_traffic : Client → Client
migrate_traffic c =
    if eqb_ℤ c.traffic_used_bytes (pos 0)
      && ltb_ℤ (pos 0) c.traffic_used_gb
      && leb_ℤ c.traffic_used_gb (pos max_gb)
    then record c { traffic_used_bytes = shl_ℤ c.traffic_used_gb 30 }
    else c

unfoldable pub add_traffic : ℤ → ℤ → ℤ
unfolding wrap64 ◌+ℤ◌ ◌-ℤ◌
add_traffic a b = if ltb_ℤ (wrap64 (pos max_int64 -ℤ a)) b then pos max_int64 else wrap64 (a +ℤ b)

unfoldable pub node_on_server : String → Map Node → List String → Bool
node_on_server server_id nodes [] = false
node_on_server server_id nodes (id ∷ ids) =
    let rest = node_on_server server_id nodes ids in
    elim (lookup id nodes) [
      | none ↦ rest
      | some n ↦ if n.server_id == server_id then true else rest
    ]

unfoldable pub relay_on_server : String → Map RelayRoute → List String → Bool
relay_on_server server_id relays [] = false
relay_on_server server_id relays (id ∷ ids) =
    let rest = relay_on_server server_id relays ids in
    elim (lookup id relays) [
      | none ↦ rest
      | some rr ↦ if rr.relay_server_id == server_id then true else rest
    ]

unfoldable pub traffic_source_allowed : PanelData → Client → String → Bool
unfolding node_on_server relay_on_server
traffic_source_allowed d c server_id =
    node_on_server server_id d.nodes c.node_ids
    || relay_on_server server_id d.relay_routes c.relay_route_ids

-- the early returns of `applyTrafficSample`
unfoldable pub sample_ignored : Client → Option TrafficCursor → ClientTraffic → String → Time → Bool
sample_ignored c old sample epoch at =
    epoch == ""
    || is_zero at
    || ltb_ℤ sample.uplink (pos 0)
    || ltb_ℤ sample.downlink (pos 0)
    || elim old [ none ↦ false | some cursor ↦ not (after at cursor.sample_at) ]
    || (not (is_zero c.traffic_reset_at) && not (after at c.traffic_reset_at))

-- the traffic since the last watermark of one direction: a counter that fell was reset
unfoldable pub since : ℤ → ℤ → ℤ
unfolding wrap64 ◌-ℤ◌
since old new = if leb_ℤ old new then wrap64 (new -ℤ old) else new

-- the pair `u, d` that is charged
unfoldable pub charged : Client → Option TrafficCursor → ClientTraffic → String → ℤ × ℤ
unfolding since
charged c none sample epoch =
    if not (is_zero c.traffic_reset_at) then (pos 0, pos 0) else (sample.uplink, sample.downlink)
charged c (some old) sample epoch =
    if old.epoch == epoch
    then (since old.uplink sample.uplink, since old.downlink sample.downlink)
    else (sample.uplink, sample.downlink)

-- the bytes used after a sample that is not ignored
unfoldable pub bytes_after : Client → Option TrafficCursor → ClientTraffic → String → ℤ
bytes_after c old sample epoch =
    let (u, d) = charged c old sample epoch in
    add_traffic (migrate_traffic c).traffic_used_bytes (add_traffic u d)

-- `applyTrafficSample` past its early returns
unfoldable pub charge_sample : Client → String → ClientTraffic → String → Time → Client
charge_sample c source sample epoch at =
    let used = bytes_after c (lookup source c.traffic_cursors) sample epoch in
    record (migrate_traffic c) {
      traffic_used_bytes = used;
      traffic_used_gb = shr_ℤ used 30;
      traffic_cursors =
          insert source
            (record {
              epoch = epoch;
              uplink = sample.uplink;
              downlink = sample.downlink;
              sample_at = at;
            })
            c.traffic_cursors;
    }

unfoldable pub apply_traffic_sample : Client → String → ClientTraffic → String → Time → Client
apply_traffic_sample c source sample epoch at =
    if sample_ignored c (lookup source c.traffic_cursors) sample epoch at
    then c
    else charge_sample c source sample epoch at

unfoldable pub expired : Time → Client → Bool
expired now c = not (is_zero c.expire_at) && not (before now c.expire_at)

unfoldable pub limited : Client → Bool
limited c =
    ltb_ℤ (pos 0) c.traffic_limit_gb
    && (leb_ℤ c.traffic_limit_gb (pos max_gb)
        && leb_ℤ (shl_ℤ c.traffic_limit_gb 30) c.traffic_used_bytes)

-- one round of the loop of `enforceBillingLocked`
unfoldable pub enforce_client : Time → Client → Client
unfolding migrate_traffic expired limited
enforce_client now c =
    let m = migrate_traffic c in
    if m.enabled && (expired now m || limited m)
    then record m { enabled = false; updated_at = now }
    else m

unfoldable pub enforce_changes : Time → Client → Bool
unfolding migrate_traffic expired limited
enforce_changes now c = let m = migrate_traffic c in m.enabled && (expired now m || limited m)

unfoldable pub any_changes : Time → Map Client → Bool
any_changes now [] = false
any_changes now ((id, c) ∷ m) = enforce_changes now c || any_changes now m

unfoldable pub enforce_billing : Time → PanelData → PanelData × Bool
unfolding enforce_client enforce_changes any_changes map_values
enforce_billing now d =
    (record d { clients = map_values (enforce_client now) d.clients }, any_changes now d.clients)

-- one round of the loop over `hb.TrafficByClient`
unfoldable pub account_sample : AgentHeartbeat → String → ClientTraffic → PanelData → PanelData
account_sample hb id sample d = elim (lookup id d.clients) [
  | none ↦ d
  | some c ↦ if not (traffic_source_allowed d c hb.server_id) then d else record d {
    clients =
        insert id (apply_traffic_sample c hb.server_id sample hb.traffic_epoch hb.traffic_sample_at)
          d.clients;
  }
]

unfoldable pub account_samples : AgentHeartbeat → Map ClientTraffic → PanelData → PanelData
unfolding account_sample
account_samples hb [] d = d
account_samples hb ((id, sample) ∷ rest) d = account_samples hb rest (account_sample hb id sample d)

unfoldable pub account_traffic : Time → AgentHeartbeat → PanelData → PanelData
account_traffic now hb d = (enforce_billing now (account_samples hb hb.traffic_by_client d)).0

-- the nanoseconds of a day
abbrev pub day : ℕ
day = 24 * 3600 * 1000000000

-- `t.AddDate(0, 0, -days)` in a zone whose days all have 24 hours; an instant before the zero time is
-- taken to be the zero time
unfoldable pub days_earlier : Time → ℤ → Time
days_earlier t days = t + neg_part days * day - pos_part days * day

-- `body.BillingCycleDays`, after the two defaults
unfoldable pub cycle_days : ℤ → ℤ → ℤ
cycle_days body old =
    let first = if eqb_ℤ body (pos 0) then old else body in
    if eqb_ℤ first (pos 0) then pos 30 else first

unfoldable pub preserve_and_renew_billing : Client → Client → Time → Client
unfolding migrate_traffic cycle_days days_earlier
preserve_and_renew_billing body old now =
    let m = migrate_traffic old in
    let days = cycle_days body.billing_cycle_days m.billing_cycle_days in
    let kept : Client = record body {
      traffic_used_bytes = m.traffic_used_bytes;
      traffic_used_gb = m.traffic_used_gb;
      traffic_cursors = m.traffic_cursors;
      traffic_reset_at = m.traffic_reset_at;
      billing_cycle_start = m.billing_cycle_start;
      billing_cycle_days = days;
    } in
    if not (is_zero m.expire_at) && after body.expire_at m.expire_at
    then record kept {
      traffic_used_bytes = pos 0;
      traffic_used_gb = pos 0;
      billing_cycle_start = days_earlier body.expire_at days;
      traffic_reset_at = now;
      enabled = true;
    }
    else kept
