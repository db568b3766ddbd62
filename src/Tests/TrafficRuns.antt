-- ===== src/Tests/TrafficRuns.antt =====
-- Traffic accounting at the small panel.
use yuchen_panel.Common.{
  ◌≡◌, refl, [], ◌∷◌, pos, arith, max_int64, lookup, AllValues, ◌+◌, ◌+ℤ◌, ◌-ℤ◌, wrap64,
}
use text.Mathlib.TextEquality.{eq_iff}
use yuchen_panel.Model.{ClientTraffic}
use yuchen_panel.Traffic.{
  add_traffic, apply_traffic_sample, enforce_billing, account_traffic, migrate_traffic,
  sample_ignored, charge_sample, charged, bytes_after, since,
}
use yuchen_panel.Traffic.Bounds.{add_traffic-capped}
use yuchen_panel.Traffic.Sample.{
  IsMetered, apply_traffic_sample-IsMetered, apply_traffic_sample_idem,
}
use yuchen_panel.Traffic.Metering.{Reading, StandsAt, run_readings, run_readings_charge}
use yuchen_panel.Traffic.Billing.{
  IsEnforced, enforce_billing-IsEnforced, IsForeign, account_traffic_foreign,
}
use yuchen_panel.Tests.Data.{noon, client, panel, heartbeat}

abbrev sample : ClientTraffic
sample = record { uplink = pos 150; downlink = pos 260 }

client-IsMetered : IsMetered client
client-IsMetered = record { bytes = ground arith; cursors = ground arith }

-- 50 bytes up and 60 down
run_sample :
    (apply_traffic_sample client "s1" sample "e1" (noon + 10)).traffic_used_bytes ≡ pos 1110
unfolding apply_traffic_sample charge_sample bytes_after charged since add_traffic sample_ignored
    migrate_traffic lookup ◌+ℤ◌ ◌-ℤ◌ wrap64
run_sample = refl

add_traffic-capped_example : add_traffic (pos max_int64) (pos 1) ≡ pos max_int64
add_traffic-capped_example = add_traffic-capped max_int64 1 (omega arith) (omega arith)

apply_traffic_sample-IsMetered_example :
    IsMetered (apply_traffic_sample client "s1" sample "e1" (noon + 10))
apply_traffic_sample-IsMetered_example =
    apply_traffic_sample-IsMetered client "s1" sample "e1" (noon + 10) client-IsMetered
      (ground arith)

apply_traffic_sample_idem_example :
    let once = apply_traffic_sample client "s1" sample "e1" (noon + 10) in
    apply_traffic_sample once "s1" sample "e1" (noon + 10) ≡ once
apply_traffic_sample_idem_example = apply_traffic_sample_idem client "s1" sample "e1" (noon + 10)

abbrev first : Reading
first = record { up = 100; down = 200; at = noon }

abbrev later : Reading
later = record { up = 150; down = 260; at = noon + 10 }

abbrev last : Reading
last = record { up = 155; down = 300; at = noon + 20 }

client-StandsAt : StandsAt "s1" "e1" first 1000 client
unfolding lookup
client-StandsAt = record { cursor = refl; bytes = refl; gigabytes = refl; reset = omega arith }

run_readings_charge_example :
    StandsAt "s1" "e1" last 1155 (run_readings "s1" "e1" client (later ∷ last ∷ []))
run_readings_charge_example =
    run_readings_charge "s1" "e1" (later ∷ last ∷ []) first 1000 client
      (λ e. ground (arith, eq_iff "e1" "")) (ground arith) client-StandsAt (ground arith)

enforce_billing-IsEnforced_example :
    AllValues (IsEnforced (noon + 2000)) (enforce_billing (noon + 2000) panel).0.clients
enforce_billing-IsEnforced_example = enforce_billing-IsEnforced (noon + 2000) panel

client-IsForeign : IsForeign panel client "s2"
unfolding lookup
client-IsForeign = (
  (λ n e s. ground (arith, eq_iff "s1" "s2"), (λ n e s. ground (arith, eq_iff "s1" "s2"), tt)),
  (λ r e s. ground (arith, eq_iff "s1" "s2"), tt),
)

account_traffic_foreign_example :
    lookup "c1" (account_traffic noon (record heartbeat { server_id = "s2" }) panel).clients
    ≡ lookup "c1" (enforce_billing noon panel).0.clients
unfolding lookup
account_traffic_foreign_example =
    account_traffic_foreign noon (record heartbeat { server_id = "s2" }) panel "c1" client refl
      client-IsForeign
