-- ===== src/Xray/StatsPort.antt =====
-- The port of the local statistics service.
use yuchen_panel.Common.{
  ℕ, zero, suc, ◌≤◌, ◌<◌, ◌≡◌, ◌≢◌, ◌++◌, map, All, eqb_ℤ_iff, true, false, List, [], ◌∷◌, ℤ, pos,
  leb_ℤ, eqb_ℤ, eqb, length, any, keep_if, length-keep_if-le, if◌then◌else◌, arith, inl, inr,
  Bool-cases,
}
use yuchen_panel.Model.{Node, RelayRoute}
use yuchen_panel.Xray.Config.{in_use, free_port, used_ports, stats_port}

-- how many of the ports are not below the given one
abbrev pub count_from : List ℤ → ℕ → ℕ
count_from used port = length (keep_if (λ u. leb_ℤ (pos port) u) used)

count_from-suc-le : (used : List ℤ) (port : ℕ) → count_from used (suc port) ≤ count_from used port
unfolding keep_if
count_from-suc-le [] port = omega arith
count_from-suc-le (u ∷ used) port = ground (arith, count_from-suc-le used port)

count_from-suc-lt :
    (used : List ℤ) (port : ℕ)
    → in_use used port ≡ true
    → count_from used (suc port) < count_from used port
unfolding any keep_if
count_from-suc-lt [] port h = absurd (cc)
count_from-suc-lt (u ∷ used) port h = elim (Bool-cases (eqb_ℤ u (pos port))) [
  | inl here ↦ ground (arith, count_from-suc-le used port)
  | inr there ↦ ground (arith, count_from-suc-lt used port)
]

free_port-unused :
    (fuel : ℕ) (used : List ℤ) (port : ℕ)
    → count_from used port < fuel
    → in_use used (free_port fuel used port) ≡ false
unfolding free_port
free_port-unused zero used port h = absurd (omega arith)
free_port-unused (suc fuel) used port h = elim (Bool-cases (in_use used port)) [
  | inl taken ↦
      let less = count_from-suc-lt used port taken in
      rw (free_port, taken, if◌then◌else◌) (free_port-unused fuel used (suc port) (omega arith))
  | inr free ↦ rw (free_port, free, if◌then◌else◌) free
]

free_port-least :
    (fuel : ℕ) (used : List ℤ) (port q : ℕ)
    → port ≤ q
    → q < free_port fuel used port
    → in_use used q ≡ true
unfolding free_port
free_port-least zero used port q low high = absurd (omega arith)
free_port-least (suc fuel) used port q low high = elim (Bool-cases (in_use used port)) [
  | inr free ↦ absurd (let h = rw (free_port, free, if◌then◌else◌) at high in omega arith)
  | inl taken ↦ elim (Bool-cases (eqb port q)) [
    | inl same ↦ let e : q ≡ port = ground arith in rw e taken
    | inr other ↦
        free_port-least fuel used (suc port) q (ground arith)
          (rw (free_port, taken, if◌then◌else◌) at high)
  ]
]

in_use-++ :
    {A : Type 0} (f : A → ℤ) (l : List A) (rest : List ℤ) (p : ℕ)
    → in_use (map f l ++ rest) p ≡ false
    → All (λ a. f a ≢ pos p) l × (in_use rest p ≡ false)
unfolding any
in_use-++ f [] rest p h = (tt, h)
in_use-++ f (a ∷ l) rest p h =
    let (others, away) = in_use-++ f l rest p (ground arith) in
    ((λ e. ground (arith, eqb_ℤ_iff (f a) (pos p)), others), away)

in_use-map :
    {A : Type 0} (f : A → ℤ) (l : List A) (p : ℕ)
    → in_use (map f l) p ≡ false
    → All (λ a. f a ≢ pos p) l
unfolding any
in_use-map f [] p h = tt
in_use-map f (a ∷ l) p h =
    (λ e. ground (arith, eqb_ℤ_iff (f a) (pos p)), in_use-map f l p (ground arith))

-- The search ends: the statistics service gets a port that no node and no relay route of the
-- server has.
pub stats_port_free :
    (nodes : List Node) (relays : List RelayRoute)
    → let p = stats_port (used_ports nodes relays) in
      All (λ n. n.port ≢ pos p) nodes × All (λ r. r.relay_port ≢ pos p) relays
unfolding stats_port used_ports
stats_port_free nodes relays =
    let used = map (λ n. n.port) nodes ++ map (λ r. r.relay_port) relays in
    let few = length-keep_if-le (λ u. leb_ℤ (pos 10000) u) used in
    let free = free_port-unused (suc (length used)) used 10000 (omega arith) in
    let (of_nodes, rest) = in_use-++ (λ n. n.port) nodes _ _ free in
    (of_nodes, in_use-map (λ r. r.relay_port) relays _ rest)

-- Every port from 10000 on below the one of the statistics service is in use by a node or a relay
-- route.
stats_port_least :
    (nodes : List Node) (relays : List RelayRoute) (q : ℕ)
    → 10000 ≤ q
    → q < stats_port (used_ports nodes relays)
    → in_use (used_ports nodes relays) q ≡ true
unfolding stats_port
stats_port_least nodes relays q low high =
    let used = used_ports nodes relays in free_port-least (suc (length used)) used 10000 q low high
