-- ===== src/Versions/Antisymmetry.antt =====
-- Which of two versions is the older does not depend on which is given first.
use Prim.Native.Char.{Char, code}
use Prim.Native.String.{String}
use text.Mathlib.TextEquality.{eq_iff}
use yuchen_panel.Common.{
  compare_text, ◌≡◌, ◌≢◌, ◌∙◌, refl, sym, ap, ℕ, Bool, true, false, Option, none, some, List, [],
  ◌∷◌, ℤ, pos, eqb, eqb_ℤ, eqb_ℤ_iff, arith, split, split_on, itoa, ◌==◌, if◌then◌else◌, inl, inr,
  Bool-cases, All,
}
use yuchen_panel.Versions.Number.{atoi}
use yuchen_panel.Versions.{
  SemanticVersion, compare_numbers, compare_read, compare_identifier, compare_identifiers,
  compare_prerelease, first_of, compare_semantic_version,
}
use yuchen_panel.Versions.Order.{opposite, compare_text-opposite, codes_same}

-- a text in front of another
before : String → String → String
before String.[] t = t
before (String.◌∷◌ c s) t = String.◌∷◌ c (before s t)

-- the text that was split
glue_rest : Char → List String → String
glue_rest k [] = String.[]
glue_rest k (w ∷ ws) = String.◌∷◌ k (before w (glue_rest k ws))

glue : Char → List String → String
unfolding glue_rest before
glue k [] = String.[]
glue k (w ∷ ws) = before w (glue_rest k ws)

split_on-cons :
    (p : ℕ → Bool) (s : String) → (w : String) × (ws : List String) × (split_on p s ≡ w ∷ ws)
unfolding split_on
split_on-cons p String.[] = (String.[], [], refl)
split_on-cons p (String.◌∷◌ c s) =
    let (w, ws, e) = split_on-cons p s in
    elim (Bool-cases (p (code c))) [
      | inl t ↦ rw (t, if◌then◌else◌) (String.[], split_on p s, refl)
      | inr t ↦ rw (t, e, if◌then◌else◌) (String.◌∷◌ c w, ws, refl)
    ]

-- Splitting a text loses nothing of it.
glue-split_on : (k : Char) (s : String) → glue k (split_on (λ c. eqb c (code k)) s) ≡ s
unfolding glue glue_rest before split_on
glue-split_on k String.[] = refl
glue-split_on k (String.◌∷◌ c s) =
    let (w, ws, e) = split_on-cons (λ c. eqb c (code k)) s in
    let ih : before w (glue_rest k ws) ≡ s = rw e at (glue-split_on k s) in
    elim (Bool-cases (eqb (code c) (code k))) [
      | inl t ↦
          let same : k ≡ c = codes_same k c (ground arith) (ground arith) in
          rw (t, e, if◌then◌else◌, ih, same) refl
      | inr t ↦ rw (t, e, if◌then◌else◌, ih) refl
    ]

split-injective : (a b : String) → split a b'.' ≡ split b b'.' → a ≡ b
unfolding split
split-injective a b h =
    let dot : Char = "." in sym (glue-split_on dot a) ∙ ap (glue dot) h ∙ glue-split_on dot b

-- An identifier that reads as a number is the numeral of it, with no sign and no leading zero.
abbrev pub CanonicalIdentifier : String → Type 0
CanonicalIdentifier x = (n : ℤ) → atoi x ≡ some n → x ≡ itoa n

abbrev pub Canonical : SemanticVersion → Type 0
Canonical v = All CanonicalIdentifier (split v.pre b'.')

compare_read-opposite :
    (o p : Option ℤ) (texts : ℤ)
    → ((n : ℤ) → o ≡ some n → p ≡ some n → ⊥)
    → compare_read p o (opposite texts) ≡ opposite (compare_read o p texts)
compare_read-opposite (some n) (some m) texts differ = elim (Bool-cases (eqb_ℤ n m)) [
  | inl e ↦ absurd (differ m (ap some ((eqb_ℤ_iff n m).0 e)) refl)
  | inr e ↦ ground arith
]
compare_read-opposite (some n) none texts differ = refl
compare_read-opposite none (some m) texts differ = refl
compare_read-opposite none none texts differ = refl

compare_identifier-opposite :
    (x y : String)
    → CanonicalIdentifier x
    → CanonicalIdentifier y
    → (x == y) ≡ false
    → compare_identifier y x ≡ opposite (compare_identifier x y)
unfolding compare_identifier
compare_identifier-opposite x y cx cy differ = rw (compare_text-opposite x y) (
    compare_read-opposite (atoi x) (atoi y) (compare_text x y)
      (λ n ex ey. let same : x ≡ y = cx n ex ∙ sym (cy n ey) in ground (arith, eq_iff x y)))

compare_identifiers-opposite :
    (xs ys : List String)
    → All CanonicalIdentifier xs
    → All CanonicalIdentifier ys
    → xs ≢ ys
    → compare_identifiers ys xs ≡ opposite (compare_identifiers xs ys)
unfolding compare_identifiers
compare_identifiers-opposite [] [] cx cy differ = absurd (differ refl)
compare_identifiers-opposite [] (y ∷ ys) cx cy differ = refl
compare_identifiers-opposite (x ∷ xs) [] cx cy differ = refl
compare_identifiers-opposite (x ∷ xs) (y ∷ ys) cx cy differ = elim (Bool-cases (x == y)) [
  | inl e ↦
      let same : x ≡ y = (eq_iff x y).0 e in
      let back : (y == x) ≡ true = (eq_iff y x).1 (sym same) in
      rw (e, back, if◌then◌else◌)
        (compare_identifiers-opposite xs ys cx.1 cy.1 (λ t. differ (λ i. same i ∷ t i)))
  | inr e ↦
      let back : (y == x) ≡ false = ground (arith, eq_iff y x, eq_iff x y) in
      rw (e, back, if◌then◌else◌) (compare_identifier-opposite x y cx.0 cy.0 e)
]

compare_prerelease-opposite :
    (a b : String)
    → All CanonicalIdentifier (split a b'.')
    → All CanonicalIdentifier (split b b'.')
    → compare_prerelease b a ≡ opposite (compare_prerelease a b)
unfolding compare_prerelease
compare_prerelease-opposite a b ca cb = elim (Bool-cases (a == b)) [
  | inl e ↦ ground (arith, eq_iff a b, eq_iff b a)
  | inr e ↦
      let differ : split a b'.' ≢ split b b'.' =
        λ h. ground (arith, split-injective a b h, eq_iff a b) in
      ground (
        arith,
        eq_iff a b,
        eq_iff b a,
        eq_iff a "",
        eq_iff b "",
        compare_identifiers-opposite (split a b'.') (split b b'.') ca cb differ,
      )
]

first_of-opposite :
    (c c' rest rest' : ℤ)
    → c' ≡ opposite c
    → rest' ≡ opposite rest
    → first_of c' rest' ≡ opposite (first_of c rest)
first_of-opposite c c' rest rest' h k = ground arith

compare_numbers-opposite : (a b : ℕ) → compare_numbers b a ≡ opposite (compare_numbers a b)
compare_numbers-opposite a b = ground arith

-- Which of two versions is the older does not depend on which is given first, where the numeric
-- identifiers of their prereleases are written canonically.
pub compare_semantic_version-opposite :
    (a b : SemanticVersion)
    → Canonical a
    → Canonical b
    → compare_semantic_version b a ≡ opposite (compare_semantic_version a b)
unfolding compare_semantic_version
compare_semantic_version-opposite a b ca cb =
    let pre = compare_prerelease a.pre b.pre in
    let patch = compare_numbers a.patch b.patch in
    let minor = compare_numbers a.minor b.minor in
    first_of-opposite (compare_numbers a.major b.major) _ (first_of minor (first_of patch pre)) _
      (compare_numbers-opposite a.major b.major)
      (first_of-opposite minor _ (first_of patch pre) _ (compare_numbers-opposite a.minor b.minor) (
        first_of-opposite patch _ pre _ (compare_numbers-opposite a.patch b.patch)
          (compare_prerelease-opposite a.pre b.pre ca cb)))

-- Without that, each of two different identifiers with one number is the newer one.
pub compare_identifier_ambiguous :
    (x y : String) (n : ℤ)
    → atoi x ≡ some n
    → atoi y ≡ some n
    → (compare_identifier x y ≡ pos 1) × (compare_identifier y x ≡ pos 1)
unfolding compare_identifier
compare_identifier_ambiguous x y n ex ey = rw (ex, ey) (ground arith, ground arith)
