-- ===== src/Common/Assoc.antt =====
-- A Go map with text keys, as the list of its entries in the order in which `range` visits them.
-- Go leaves that order open; the theorems are about every list, hence about every order.
use Prim.Native.String.{String}
use mathlib.Core.Path.{◌≡◌, refl, subst}
use mathlib.Core.Logic.{inl, inr}
use mathlib.Core.Bool.{Bool, true, false}
use mathlib.Core.List.{List, [], ◌∷◌}
use mathlib.Core.Option.{Option, none, some}
use native.Mathlib.Omega.{arith}
use text.Mathlib.TextEquality.{eq_iff}
use yuchen_panel.Common.Tests.{if◌then◌else◌, Bool-cases}
use yuchen_panel.Common.Text.{◌==◌}

abbrev pub Map {ℓ} : Type ℓ → Type ℓ
Map V = List (String × V)

module _ {ℓ} {V : Type ℓ} where
  -- m[k]
  unfoldable pub lookup : String → Map V → Option V
  lookup key [] = none
  lookup key ((first, value) ∷ rest) = if first == key then some value else lookup key rest

  -- _, ok := m[k]
  abbrev pub has_key : String → Map V → Bool
  has_key k m = elim (lookup k m) [ none ↦ false | some _ ↦ true ]

  -- m[k] = v
  unfoldable pub insert : String → V → Map V → Map V
  insert key value [] = (key, value) ∷ []
  insert key value ((first, old) ∷ rest) =
      if first == key then (first, value) ∷ rest else (first, old) ∷ insert key value rest

  -- delete(m, k)
  unfoldable pub erase : String → Map V → Map V
  erase k [] = []
  erase k ((j, w) ∷ m) = let rest = erase k m in if j == k then rest else (j, w) ∷ rest

  -- `for k, v := range m { m[k] = f v }`
  unfoldable pub map_values : (V → V) → Map V → Map V
  map_values f [] = []
  map_values f ((j, w) ∷ m) = (j, f w) ∷ map_values f m

  -- the values, in the order of the loop
  unfoldable pub values : Map V → List V
  values [] = []
  values ((j, w) ∷ m) = w ∷ values m

  abbrev pub AllValues {κ} : (V → Type κ) → Map V → Type κ
  AllValues P [] = Unit
  AllValues P ((j, v) ∷ m) = P v × AllValues P m

  pub lookup-insert :
      (key asked : String) (value : V) (m : Map V)
      → lookup asked (insert key value m) ≡ (if key == asked then some value else lookup asked m)
  unfolding lookup insert
  lookup-insert key asked value [] = refl
  lookup-insert key asked value ((first, old) ∷ rest) = ground (
    arith,
    lookup-insert key asked value rest,
    eq_iff first key,
    eq_iff first asked,
    eq_iff key asked,
  )

  pub lookup-insert_self : (k : String) (v : V) (m : Map V) → lookup k (insert k v m) ≡ some v
  lookup-insert_self k v m = ground (arith, lookup-insert k k v m, eq_iff k k)

  pub lookup-insert_other :
      (k j : String) (v : V) (m : Map V) → (j == k) ≡ false → lookup j (insert k v m) ≡ lookup j m
  lookup-insert_other k j v m e = ground (arith, lookup-insert k j v m, eq_iff k j, eq_iff j k)

  pub lookup-insert_here :
      (k j : String) (v : V) {w : V} (m : Map V)
      → (j == k) ≡ true
      → lookup j (insert k v m) ≡ some w
      → v ≡ w
  lookup-insert_here k j v m e h = ground (arith, lookup-insert k j v m, eq_iff k j, eq_iff j k)

  pub lookup-insert_there :
      (k j : String) (v : V) {w : V} (m : Map V)
      → (j == k) ≡ false
      → lookup j (insert k v m) ≡ some w
      → lookup j m ≡ some w
  lookup-insert_there k j v m e h = ground (arith, lookup-insert k j v m, eq_iff k j, eq_iff j k)

  pub lookup-erase :
      (k j : String) (m : Map V) → lookup j (erase k m) ≡ (if k == j then none else lookup j m)
  unfolding lookup erase
  lookup-erase k j [] = ground arith
  lookup-erase k j ((i, w) ∷ m) =
      ground (arith, eq_iff k j, eq_iff i k, eq_iff i j, lookup-erase k j m)

  abbrev pub map_option : (V → V) → Option V → Option V
  map_option f none = none
  map_option f (some v) = some (f v)

  pub lookup-map_values :
      (f : V → V) (k : String) (m : Map V) → lookup k (map_values f m) ≡ map_option f (lookup k m)
  unfolding lookup map_values
  lookup-map_values f k [] = refl
  lookup-map_values f k ((j, w) ∷ m) = ground (arith, lookup-map_values f k m)

  pub AllValues-insert {κ} :
      (P : V → Type κ) (k : String) (v : V) (m : Map V)
      → P v
      → AllValues P m
      → AllValues P (insert k v m)
  unfolding insert
  AllValues-insert P k v [] p a = (p, tt)
  AllValues-insert P k v ((j, w) ∷ m) p a = elim (Bool-cases (j == k)) [
    | inl e ↦ rw (e, if◌then◌else◌) (p, a.1)
    | inr e ↦ rw (e, if◌then◌else◌) (a.0, AllValues-insert P k v m p a.1)
  ]

  pub AllValues-erase {κ} :
      (P : V → Type κ) (k : String) (m : Map V) → AllValues P m → AllValues P (erase k m)
  unfolding erase
  AllValues-erase P k [] a = tt
  AllValues-erase P k ((j, w) ∷ m) a = elim (Bool-cases (j == k)) [
    | inl e ↦ rw (e, if◌then◌else◌) (AllValues-erase P k m a.1)
    | inr e ↦ rw (e, if◌then◌else◌) (a.0, AllValues-erase P k m a.1)
  ]

  pub AllValues-map_values {κ} :
      (P Q : V → Type κ) (f : V → V) (m : Map V)
      → ((v : V) → P v → Q (f v))
      → AllValues P m
      → AllValues Q (map_values f m)
  unfolding map_values
  AllValues-map_values P Q f [] h a = tt
  AllValues-map_values P Q f ((j, w) ∷ m) h a = (h w a.0, AllValues-map_values P Q f m h a.1)

  pub AllValues-lookup {κ} :
      (P : V → Type κ) (k : String) {v : V} (m : Map V) → AllValues P m → lookup k m ≡ some v → P v
  unfolding lookup
  AllValues-lookup P k [] a e = absurd (cc)
  AllValues-lookup P k {v} ((j, w) ∷ m) a e = elim (Bool-cases (j == k)) [
    | inl t ↦ let same : w ≡ v = ground arith in subst P same a.0
    | inr t ↦ AllValues-lookup P k m a.1 (ground arith)
  ]
