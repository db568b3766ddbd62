-- ===== src/Traffic/Metering.antt =====
-- A run of samples of one Xray process: what is charged is the traffic between the first watermark
-- and the last, however many samples lie between them.
use yuchen_panel.Common.{
  ℕ, ◌+◌, ◌-◌, ◌/◌, ◌^◌, ◌≤◌, ◌<◌, ◌≡◌, false, String, List, [], ◌∷◌, some, arith, pos, max_int64,
  lookup, lookup-insert, if◌then◌else◌,
}
use text.Mathlib.TextEquality.{eq_iff}
use text.Mathlib.TextPositions.{eq_refl}
use yuchen_panel.Model.{Time, Client, ClientTraffic, TrafficCursor}
use yuchen_panel.Traffic.{
  migrate_traffic, add_traffic, sample_ignored, since, charged, bytes_after, charge_sample,
  apply_traffic_sample,
}
use yuchen_panel.Traffic.Bounds.{add_traffic-capped}

pub record Reading : Type 0 where
  pub up : ℕ
  pub down : ℕ
  pub at : Time

abbrev pub to_sample : Reading → ClientTraffic
to_sample r = record { uplink = pos r.up; downlink = pos r.down }

-- the readings of one process, sent one after the other
unfoldable pub run_readings : String → String → Client → List Reading → Client
run_readings source epoch c [] = c
run_readings source epoch c (r ∷ rs) =
    run_readings source epoch (apply_traffic_sample c source (to_sample r) epoch r.at) rs

-- counters that never fall, at later and later instants
abbrev pub Rising : Reading → List Reading → Type 0
Rising r [] = Unit
Rising r (s ∷ rs) =
    (r.up ≤ s.up)
    × (r.down ≤ s.down)
    × (r.at < s.at)
    × (s.up ≤ max_int64)
    × (s.down ≤ max_int64)
    × Rising s rs

abbrev pub last_reading : Reading → List Reading → Reading
last_reading r [] = r
last_reading r (s ∷ rs) = last_reading s rs

-- The client has used `n` bytes, and `r` is the watermark of the source.
pub record StandsAt (source epoch : String) (r : Reading) (n : ℕ) (c : Client) : Type 0 where
  pub cursor :
      lookup source c.traffic_cursors
      ≡ some (record { epoch = epoch; uplink = pos r.up; downlink = pos r.down; sample_at = r.at })
  pub bytes : c.traffic_used_bytes ≡ pos n
  pub gigabytes : c.traffic_used_gb ≡ pos (n / 2 ^ 30)
  pub reset : c.traffic_reset_at ≤ r.at

-- the last counters are at least the first
last_up :
    (r : Reading) (rs : List Reading)
    → Rising r rs
    → (r.up ≤ (last_reading r rs).up) × (r.down ≤ (last_reading r rs).down)
last_up r [] h = omega arith
last_up r (s ∷ rs) h = omega (arith, last_up s rs h.5)

reset-migrate : (c : Client) → (migrate_traffic c).traffic_reset_at ≡ c.traffic_reset_at
unfolding migrate_traffic
reset-migrate c = ground arith

migrate_done :
    (c : Client) (n : ℕ)
    → c.traffic_used_bytes ≡ pos n
    → c.traffic_used_gb ≡ pos (n / 2 ^ 30)
    → (migrate_traffic c).traffic_used_bytes ≡ pos n
unfolding migrate_traffic
migrate_done c n hb hg = rw (hb, hg) (ground arith)

since_pos : (a b : ℕ) → a ≤ b → b ≤ max_int64 → since (pos a) (pos b) ≡ pos (b - a)
unfolding since
since_pos a b h k = ground arith

add_within : (a b : ℕ) → a + b ≤ max_int64 → add_traffic (pos a) (pos b) ≡ pos (a + b)
add_within a b h = rw (add_traffic-capped a b (omega arith) (omega arith)) (ground arith)

module _ (source epoch : String) (c : Client) (r s : Reading) (n : ℕ) where
  abbrev watermark : TrafficCursor
  watermark = record { epoch = epoch; uplink = pos r.up; downlink = pos r.down; sample_at = r.at }

  step_charge :
      r.up ≤ s.up
      → r.down ≤ s.down
      → s.up ≤ max_int64
      → s.down ≤ max_int64
      → charged c (some watermark) (to_sample s) epoch ≡ (pos (s.up - r.up), pos (s.down - r.down))
  unfolding charged
  step_charge hu hd fu fd =
      rw (eq_refl, if◌then◌else◌, since_pos r.up s.up hu fu, since_pos r.down s.down hd fd)

  step_accepted :
      ¬ (epoch ≡ "")
      → c.traffic_reset_at ≤ r.at
      → r.at < s.at
      → sample_ignored c (some watermark) (to_sample s) epoch s.at ≡ false
  unfolding sample_ignored
  step_accepted named reset later = ground (arith, eq_iff epoch "")

  step_bytes :
      r.up ≤ s.up
      → r.down ≤ s.down
      → s.up ≤ max_int64
      → s.down ≤ max_int64
      → StandsAt source epoch r n c
      → n + (s.up - r.up) + (s.down - r.down) ≤ max_int64
      → bytes_after c (some watermark) (to_sample s) epoch
        ≡ pos (n + (s.up - r.up) + (s.down - r.down))
  unfolding bytes_after
  step_bytes hu hd fu fd h room =
      rw
        (
          step_charge hu hd fu fd,
          migrate_done c n h.bytes h.gigabytes,
          add_within (s.up - r.up) (s.down - r.down) (omega arith),
          add_within n (s.up - r.up + (s.down - r.down)) (omega arith),
        )
        (ground arith)

  step_StandsAt :
      ¬ (epoch ≡ "")
      → Rising r (s ∷ [])
      → StandsAt source epoch r n c
      → n + (s.up - r.up) + (s.down - r.down) ≤ max_int64
      → StandsAt source epoch s
          (n + (s.up - r.up) + (s.down - r.down))
          (apply_traffic_sample c source (to_sample s) epoch s.at)
  unfolding apply_traffic_sample charge_sample
  step_StandsAt named rising h room =
      let used = step_bytes rising.0 rising.1 rising.3 rising.4 h room in
      rw (h.cursor, step_accepted named h.reset rising.2, if◌then◌else◌)
        (record {
          cursor = rw (lookup-insert, eq_refl);
          bytes = used;
          gigabytes = rw used;
          reset = rw reset-migrate (omega arith);
        })

-- Over any run of rising readings of one process, in which the bytes used stay within int64, the
-- bytes used grow by exactly what the two counters have grown by since the watermark.
pub run_readings_charge :
    (source epoch : String) (rs : List Reading) (r : Reading) (n : ℕ) (c : Client)
    → ¬ (epoch ≡ "")
    → Rising r rs
    → StandsAt source epoch r n c
    → n + ((last_reading r rs).up - r.up) + ((last_reading r rs).down - r.down) ≤ max_int64
    → StandsAt source epoch
        (last_reading r rs)
        (n + ((last_reading r rs).up - r.up) + ((last_reading r rs).down - r.down))
        (run_readings source epoch c rs)
unfolding run_readings
run_readings_charge source epoch [] r n c named rising h room =
    let e : n + (r.up - r.up) + (r.down - r.down) ≡ n = omega arith in rw e h
run_readings_charge source epoch (s ∷ rs) r n c named rising h room =
    let last = last_reading s rs in
    let up = last_up s rs rising.5 in
    let n' = n + (s.up - r.up) + (s.down - r.down) in
    let same : n' + (last.up - s.up) + (last.down - s.down)
        ≡ n + (last.up - r.up) + (last.down - r.down) =
      omega arith in
    rw (← same) (
      run_readings_charge source epoch rs s n' _ named rising.5
        (step_StandsAt source epoch c r s n named
          (rising.0, rising.1, rising.2, rising.3, rising.4, tt) h (omega arith))
        (omega arith))
