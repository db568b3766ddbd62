-- ===== src/Traffic/Bounds.antt =====
-- The saturating sum `addTraffic`, and the charge of one sample, as numbers.
use yuchen_panel.Common.{ℕ, ◌+◌, ◌≤◌, ◌≡◌, arith, ℤ, pos, ◌≤ℤ◌, max_int64, ltb, if◌then◌else◌}
use yuchen_panel.Traffic.{add_traffic, since}

-- an `int64` that is not negative
abbrev pub InRange : ℤ → Type 0
InRange z = (pos 0 ≤ℤ z) × (z ≤ℤ pos max_int64)

abbrev pub capped : ℕ → ℕ
capped n = if ltb max_int64 n then max_int64 else n

-- On byte counts `addTraffic` is the sum, capped at the largest int64: it never wraps.
pub add_traffic-capped :
    (a b : ℕ) → a ≤ max_int64 → b ≤ max_int64 → add_traffic (pos a) (pos b) ≡ pos (capped (a + b))
unfolding add_traffic
add_traffic-capped a b ha hb = ground arith

pub add_traffic-InRange : (a b : ℤ) → InRange a → InRange b → InRange (add_traffic a b)
unfolding add_traffic
add_traffic-InRange a b ha hb = ground arith

-- the sum is at least its first part
pub add_traffic-grows : (a b : ℤ) → InRange a → InRange b → a ≤ℤ add_traffic a b
unfolding add_traffic
add_traffic-grows a b ha hb = ground arith

pub since-InRange : (old new : ℤ) → InRange old → InRange new → InRange (since old new)
unfolding since
since-InRange old new ho hn = ground arith
