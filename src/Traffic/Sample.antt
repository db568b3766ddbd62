-- ===== src/Traffic/Sample.antt =====
-- One sample: repeating it adds nothing, a stale one is ignored, and the invariant is kept.
use yuchen_panel.Common.{
  ◌≡◌, refl, true, false, Option, none, some, inl, inr, arith, pos, ◌≤ℤ◌, String, lookup,
  lookup-insert, AllValues, AllValues-insert, AllValues-lookup, Bool-cases, if◌then◌else◌,
  max_int64,
}
use text.Mathlib.TextPositions.{eq_refl}
use yuchen_panel.Model.{Time, Client, ClientTraffic, TrafficCursor}
use yuchen_panel.Traffic.{
  migrate_traffic, sample_ignored, charged, bytes_after, charge_sample, apply_traffic_sample,
}
use yuchen_panel.Traffic.Bounds.{InRange, add_traffic-InRange, add_traffic-grows, since-InRange}

abbrev pub CursorInRange : TrafficCursor → Type 0
CursorInRange c = InRange c.uplink × InRange c.downlink

-- The stored accounting of a client consists of byte counts that int64 holds.
pub record IsMetered (c : Client) : Type 0 where
  pub bytes : InRange c.traffic_used_bytes
  pub cursors : AllValues CursorInRange c.traffic_cursors

-- What the type int64 says of a sample.
abbrev pub SampleFits : ClientTraffic → Type 0
SampleFits sample = (sample.uplink ≤ℤ pos max_int64) × (sample.downlink ≤ℤ pos max_int64)

migrated_bytes : (c : Client) → IsMetered c → InRange (migrate_traffic c).traffic_used_bytes
unfolding migrate_traffic
migrated_bytes c h = ground arith

migrate_grows :
    (c : Client) → IsMetered c → c.traffic_used_bytes ≤ℤ (migrate_traffic c).traffic_used_bytes
unfolding migrate_traffic
migrate_grows c h = ground arith

cursors-migrate : (c : Client) → (migrate_traffic c).traffic_cursors ≡ c.traffic_cursors
unfolding migrate_traffic
cursors-migrate c = ground arith

-- Moving the legacy gigabytes into the byte count keeps the accounting in range.
pub migrate_traffic-IsMetered : (c : Client) → IsMetered c → IsMetered (migrate_traffic c)
migrate_traffic-IsMetered c h = record {
  bytes = migrated_bytes c h;
  cursors = rw cursors-migrate h.cursors;
}

charged-InRange :
    (c : Client) (old : Option TrafficCursor) (sample : ClientTraffic) (epoch : String)
    → ((cursor : TrafficCursor) → old ≡ some cursor → CursorInRange cursor)
    → CursorInRange (record {
      epoch = epoch;
      uplink = sample.uplink;
      downlink = sample.downlink;
      sample_at = 0;
    })
    → InRange (charged c old sample epoch).0 × InRange (charged c old sample epoch).1
unfolding charged
charged-InRange c none sample epoch h k = ground arith
charged-InRange c (some old) sample epoch h k = ground (
  arith,
  h old refl,
  since-InRange old.uplink sample.uplink,
  since-InRange old.downlink sample.downlink,
)

-- A sample that is not ignored counts no negative traffic.
sample_counts :
    (c : Client) (old : Option TrafficCursor) (sample : ClientTraffic) (epoch : String) (at : Time)
    → sample_ignored c old sample epoch at ≡ false
    → (pos 0 ≤ℤ sample.uplink) × (pos 0 ≤ℤ sample.downlink)
unfolding sample_ignored
sample_counts c none sample epoch at h = ground arith
sample_counts c (some old) sample epoch at h = ground arith

-- A sample taken at the instant of the watermark is ignored.
ignored_at_watermark :
    (c : Client) (old : TrafficCursor) (sample : ClientTraffic) (epoch : String)
    → sample_ignored c (some old) sample epoch old.sample_at ≡ true
unfolding sample_ignored
ignored_at_watermark c old sample epoch = ground arith

cursor_found :
    (c : Client) (source : String) (old : TrafficCursor)
    → IsMetered c
    → lookup source c.traffic_cursors ≡ some old
    → CursorInRange old
cursor_found c source old h e = AllValues-lookup CursorInRange source c.traffic_cursors h.cursors e

module _ (c : Client) (source : String) (sample : ClientTraffic) (epoch : String) (at : Time) where
  abbrev old : Option TrafficCursor
  old = lookup source c.traffic_cursors

  abbrev next : Client
  next = apply_traffic_sample c source sample epoch at

  charged_fits :
      IsMetered c
      → CursorInRange (record {
        epoch = epoch;
        uplink = sample.uplink;
        downlink = sample.downlink;
        sample_at = at;
      })
      → InRange (charged c old sample epoch).0 × InRange (charged c old sample epoch).1
  charged_fits h k =
      charged-InRange c old sample epoch (λ cursor e. cursor_found c source cursor h e) k

  bytes_after_bounds :
      IsMetered c
      → CursorInRange (record {
        epoch = epoch;
        uplink = sample.uplink;
        downlink = sample.downlink;
        sample_at = at;
      })
      → InRange (bytes_after c old sample epoch)
        × ((migrate_traffic c).traffic_used_bytes ≤ℤ bytes_after c old sample epoch)
  unfolding bytes_after
  bytes_after_bounds h k =
      let (u, d) = charged c old sample epoch in
      let (hu, hd) = charged_fits h k in
      let sum = add_traffic-InRange u d hu hd in
      let used = migrated_bytes c h in
      (add_traffic-InRange _ _ used sum, add_traffic-grows _ _ used sum)

  charge_sample-IsMetered :
      IsMetered c
      → CursorInRange (record {
        epoch = epoch;
        uplink = sample.uplink;
        downlink = sample.downlink;
        sample_at = at;
      })
      → IsMetered (charge_sample c source sample epoch at)
  unfolding charge_sample
  charge_sample-IsMetered h k = record {
    bytes = (bytes_after_bounds h k).0;
    cursors = AllValues-insert CursorInRange source _ c.traffic_cursors k h.cursors;
  }

  -- A sample leaves the accounting in range.
  pub apply_traffic_sample-IsMetered : IsMetered c → SampleFits sample → IsMetered next
  unfolding apply_traffic_sample
  apply_traffic_sample-IsMetered h fits = elim (Bool-cases (sample_ignored c old sample epoch at)) [
    | inl e ↦ rw (e, if◌then◌else◌) h
    | inr e ↦
        let counts = sample_counts c old sample epoch at e in
        rw (e, if◌then◌else◌) (charge_sample-IsMetered h ((counts.0, fits.0), (counts.1, fits.1)))
  ]

  -- The bytes used never go down by a sample, whatever the counters of the source do.
  apply_traffic_sample-grows :
      IsMetered c → SampleFits sample → c.traffic_used_bytes ≤ℤ next.traffic_used_bytes
  unfolding apply_traffic_sample charge_sample
  apply_traffic_sample-grows h fits = elim (Bool-cases (sample_ignored c old sample epoch at)) [
    | inl e ↦ rw (e, if◌then◌else◌) (omega arith)
    | inr e ↦
        let counts = sample_counts c old sample epoch at e in
        let grown = (bytes_after_bounds h ((counts.0, fits.0), (counts.1, fits.1))).1 in
        rw (e, if◌then◌else◌) (omega (arith, migrate_grows c h))
  ]

  charged_again : sample_ignored next (lookup source next.traffic_cursors) sample epoch at ≡ true
  unfolding apply_traffic_sample
  charged_again = elim (Bool-cases (sample_ignored c old sample epoch at)) [
    | inl e ↦ rw (e, if◌then◌else◌) e
    | inr e ↦
        rw (e, if◌then◌else◌)
          (unfold charge_sample in
            rw (lookup-insert, eq_refl, if◌then◌else◌)
              (ignored_at_watermark (charge_sample c source sample epoch at) _ sample epoch))
  ]

  -- Repeating a sample changes nothing: it is charged once.
  pub apply_traffic_sample_idem : apply_traffic_sample next source sample epoch at ≡ next
  apply_traffic_sample_idem = unfold apply_traffic_sample in rw (charged_again)
