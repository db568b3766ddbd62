-- ===== src/AgentMain/Reported.antt =====
-- The counters that the agent reports are within the range of the panel's accounting.
use yuchen_panel.Common.{
  ◌≡◌, refl, ℕ, String, Bool, true, false, List, [], ◌∷◌, Map, lookup, AllValues, Option, none,
  some, ℤ, pos, ◌-ℤ◌, ◌+ℤ◌, subst, eqb, ◌==◌, ltb_ℤ, AllValues-insert, AllValues-lookup, max_int64,
  contains, trim_func, if◌then◌else◌, ok, err, ok-injective, arith, inl, inr, Bool-cases,
  Outcome-cases, >>=-eq-ok,
}
use yuchen_panel.Places.{none_is_not_some}
use yuchen_panel.Versions.Number.{atoi}
use yuchen_panel.Versions.Order.{some-injective}
use yuchen_panel.Model.{ClientTraffic}
use yuchen_panel.Traffic.Bounds.{InRange}
use yuchen_panel.AgentMain.Counters.{
  Direction, up, down, set_direction, Counters, no_counters, traffic_or_zero, store_counter,
  add_valid, add_named, named_counter, not_negative, bits_or_zero, counter_value, add_counter,
  add_counters, complete, parse_traffic,
}

-- Two counters that are not negative, and whose sum int64 holds.
abbrev pub IsSummable : ClientTraffic → Type 0
IsSummable c =
    (ltb_ℤ c.uplink (pos 0) ≡ false)
    × (ltb_ℤ c.downlink (pos 0) ≡ false)
    × (ltb_ℤ (pos max_int64 -ℤ c.downlink) c.uplink ≡ false)

IsSummable-zero : IsSummable (traffic_or_zero none)
unfolding ◌-ℤ◌
IsSummable-zero = (refl, refl, refl)

entry-IsSummable :
    (o : Option ClientTraffic)
    → ((c : ClientTraffic) → o ≡ some c → IsSummable c)
    → IsSummable (traffic_or_zero o)
entry-IsSummable none h = IsSummable-zero
entry-IsSummable (some c) h = h c refl

set-IsSummable :
    (d : Direction) (v : ℤ) (c : ClientTraffic)
    → ltb_ℤ v (pos 0) ≡ false
    → IsSummable c
    → ltb_ℤ (pos max_int64 -ℤ (set_direction d v c).downlink) (set_direction d v c).uplink ≡ false
    → IsSummable (set_direction d v c)
set-IsSummable up v c positive (first, second, sum) fits = (positive, second, fits)
set-IsSummable down v c positive (first, second, sum) fits = (first, positive, fits)

not_negative-positive : (o : Option ℤ) (v : ℤ) → not_negative o ≡ some v → ltb_ℤ v (pos 0) ≡ false
not_negative-positive none v h = cc
not_negative-positive (some w) v h = elim (Bool-cases (ltb_ℤ w (pos 0))) [
  | inl e ↦ absurd (none_is_not_some (rw (e, if◌then◌else◌) at h))
  | inr e ↦
      let same : w ≡ v = some-injective (rw (e, if◌then◌else◌) at h) in
      subst (λ x. ltb_ℤ x (pos 0) ≡ false) same e
]

counter_value-positive :
    (text : String) (v : ℤ) → counter_value text ≡ some v → ltb_ℤ v (pos 0) ≡ false
unfolding counter_value
counter_value-positive text v h = elim (Bool-cases (text == "")) [
  | inl e ↦
      let same : pos 0 ≡ v = some-injective (rw (e, if◌then◌else◌) at h) in
      subst (λ x. ltb_ℤ x (pos 0) ≡ false) same refl
  | inr e ↦
      not_negative-positive (atoi (trim_func (λ k. eqb k b'"') text)) v (rw (e, if◌then◌else◌) at h)
]

passed :
    {A : Type 0} (c : Bool) (e : String) (value : A) {result : A}
    → (if c then err e else ok value) ≡ ok result
    → (c ≡ false) × (value ≡ result)
passed true e value h = cc
passed false e value h = (refl, ok-injective h)

-- the counters so far
abbrev Good : Counters → Type 0
Good s = AllValues IsSummable s.out

store_counter-Good :
    (id : String) (d : Direction) (v : ℤ) (name : String) (s s' : Counters)
    → ltb_ℤ v (pos 0) ≡ false
    → Good s
    → store_counter id d v name s ≡ ok s'
    → Good s'
store_counter-Good id d v name s s' positive good h =
    let old = traffic_or_zero (lookup id s.out) in
    let (fits, same) =
      passed
        (ltb_ℤ (pos max_int64 -ℤ (set_direction d v old).downlink) (set_direction d v old).uplink) _
        _ h in
    subst Good same (
      AllValues-insert IsSummable id (set_direction d v old) s.out
        (set-IsSummable d v old positive
          (entry-IsSummable (lookup id s.out) (λ c. AllValues-lookup IsSummable id s.out good))
          fits)
        good)

add_valid-Good :
    (id : String) (d : Direction) (name text : String) (o : Option ℤ) (s s' : Counters)
    → counter_value text ≡ o
    → Good s
    → add_valid id d name o s ≡ ok s'
    → Good s'
add_valid-Good id d name text none s s' read good h = cc
add_valid-Good id d name text (some v) s s' read good h =
    store_counter-Good id d v name s s' (counter_value-positive text v read) good h

add_named-Good :
    (name text : String) (o : Option (String × Direction)) (s s' : Counters)
    → Good s
    → add_named name text o s ≡ ok s'
    → Good s'
add_named-Good name text none s s' good h = subst Good (ok-injective h) good
add_named-Good name text (some (id, d)) s s' good h = elim (Bool-cases (contains s.seen name)) [
  | inl e ↦ absurd (let bad = rw (e, if◌then◌else◌) at h in cc)
  | inr e ↦
      add_valid-Good id d name text (counter_value text) s s' refl good (rw (e, if◌then◌else◌) at h)
]

add_counters-Good :
    (stats : List (String × String)) (s s' : Counters)
    → Good s
    → add_counters stats s ≡ ok s'
    → Good s'
unfolding add_counters add_counter
add_counters-Good [] s s' good h = subst Good (ok-injective h) good
add_counters-Good ((name, text) ∷ stats) s s' good h =
    let (next, added, rest) = >>=-eq-ok (add_counter name text s) (λ t. add_counters stats t) h in
    add_counters-Good stats next s'
      (add_named-Good name text (named_counter name) s next good added) rest

complete-IsSummable :
    (directions : Map ℕ) (out : Map ClientTraffic)
    → AllValues IsSummable out
    → AllValues IsSummable (complete directions out)
unfolding complete
complete-IsSummable directions [] good = tt
complete-IsSummable directions ((id, c) ∷ out) (first, good) =
    elim (Bool-cases (eqb (bits_or_zero (lookup id directions)) 3)) [
      | inl e ↦ rw (e, if◌then◌else◌) (first, complete-IsSummable directions out good)
      | inr e ↦ rw (e, if◌then◌else◌) (complete-IsSummable directions out good)
    ]

summable-InRange :
    (c : ClientTraffic)
    → IsSummable c
    → InRange c.uplink × InRange c.downlink × InRange (c.uplink +ℤ c.downlink)
unfolding ◌-ℤ◌ ◌+ℤ◌
summable-InRange c (first, second, sum) = (ground arith, ground arith, ground arith)

-- What the agent reports for a client is within int64, and so is its sum: no counter is negative.
pub parse_traffic-InRange :
    (stats : List (String × String)) (out : Map ClientTraffic) (id : String) (c : ClientTraffic)
    → parse_traffic stats ≡ ok out
    → lookup id out ≡ some c
    → InRange c.uplink × InRange c.downlink × InRange (c.uplink +ℤ c.downlink)
unfolding parse_traffic
parse_traffic-InRange stats out id c read found =
    elim (Outcome-cases (add_counters stats no_counters)) [
      | inr (e, h) ↦ absurd (let bad = rw h at read in cc)
      | inl (s, h) ↦
          let same : complete s.directions s.out ≡ out = ok-injective (rw h at read) in
          summable-InRange c (
            AllValues-lookup IsSummable id out
              (subst (AllValues IsSummable) same (
                complete-IsSummable s.directions s.out
                  (add_counters-Good stats no_counters s tt h)))
              found)
    ]
