-- ===== src/Versions/Order.antt =====
-- The order of versions: two versions compare equal only if they are equal, and the order of two
-- versions with canonical prereleases does not depend on which comes first.
use Prim.Native.Char.{Char, code}
use Prim.Native.String.{String}
use text.Mathlib.TextEquality.{eq_iff, codes_equal}
use yuchen_panel.Common.{
  compare_text, ◌≡◌, ◌≢◌, ◌↔◌, ◌∙◌, refl, sym, ap, ℕ, true, false, Option, none, some, List, [],
  ◌∷◌, ℤ, pos, negsuc, ltb, eqb_ℤ_iff, arith, split, ◌==◌, if◌then◌else◌, inl, inr, Bool-cases,
}
use yuchen_panel.Places.{none_is_not_some}
use yuchen_panel.Versions.Number.{atoi}
use yuchen_panel.Versions.{
  SemanticVersion, parse_semantic_version, compare_numbers, compare_read, compare_identifier,
  compare_identifiers, compare_prerelease, first_of, both_equal, compare_semantic_version,
  version_matches_target,
}

pub some-injective : {A : Type 0} {a b : A} → some a ≡ some b → a ≡ b
some-injective h = cc

pub codes_same :
    (c d : Char) → ltb (code c) (code d) ≡ false → ltb (code d) (code c) ≡ false → c ≡ d
codes_same c d h k = codes_equal c d (ground arith)

compare_text-zero : (s t : String) → compare_text s t ≡ pos 0 → s ≡ t
unfolding compare_text
compare_text-zero String.[] String.[] h = refl
compare_text-zero String.[] (String.◌∷◌ d t) h = cc
compare_text-zero (String.◌∷◌ c s) String.[] h = cc
compare_text-zero (String.◌∷◌ c s) (String.◌∷◌ d t) h = elim (Bool-cases (ltb (code c) (code d))) [
  | inl e ↦ absurd (ground arith)
  | inr e ↦ elim (Bool-cases (ltb (code d) (code c))) [
    | inl f ↦ absurd (ground arith)
    | inr f ↦
        let tails : s ≡ t = compare_text-zero s t (rw (e, f, if◌then◌else◌) at h) in
        let heads : c ≡ d = codes_same c d e f in rw (heads, tails) refl
  ]
]

compare_text_self : (s : String) → compare_text s s ≡ pos 0
unfolding compare_text
compare_text_self String.[] = refl
compare_text_self (String.◌∷◌ c s) = ground (arith, compare_text_self s)

-- the sign that stands for the other order
abbrev pub opposite : ℤ → ℤ
opposite (pos n) = if ltb 0 n then negsuc 0 else pos 0
opposite (negsuc n) = pos 1

pub compare_text-opposite : (s t : String) → compare_text t s ≡ opposite (compare_text s t)
unfolding compare_text
compare_text-opposite String.[] String.[] = refl
compare_text-opposite String.[] (String.◌∷◌ d t) = refl
compare_text-opposite (String.◌∷◌ c s) String.[] = refl
compare_text-opposite (String.◌∷◌ c s) (String.◌∷◌ d t) = ground (arith, compare_text-opposite s t)

compare_read-zero : (o p : Option ℤ) (texts : ℤ) → compare_read o p texts ≡ pos 0 → texts ≡ pos 0
compare_read-zero (some n) (some m) texts h = ground arith
compare_read-zero (some n) none texts h = cc
compare_read-zero none (some m) texts h = cc
compare_read-zero none none texts h = h

compare_identifier-nonzero : (x y : String) → (x == y) ≡ false → compare_identifier x y ≢ pos 0
unfolding compare_identifier
compare_identifier-nonzero x y differ h =
    let same : x ≡ y = compare_text-zero x y (compare_read-zero (atoi x) (atoi y) _ h) in
    ground (arith, eq_iff x y)

compare_identifiers-nonzero : (xs ys : List String) → compare_identifiers xs ys ≢ pos 0
unfolding compare_identifiers
compare_identifiers-nonzero [] [] h = cc
compare_identifiers-nonzero [] (y ∷ ys) h = cc
compare_identifiers-nonzero (x ∷ xs) [] h = cc
compare_identifiers-nonzero (x ∷ xs) (y ∷ ys) h = elim (Bool-cases (x == y)) [
  | inl e ↦ compare_identifiers-nonzero xs ys (rw (e, if◌then◌else◌) at h)
  | inr e ↦ compare_identifier-nonzero x y e (rw (e, if◌then◌else◌) at h)
]

compare_prerelease-zero : (a b : String) → compare_prerelease a b ≡ pos 0 → a ≡ b
unfolding compare_prerelease
compare_prerelease-zero a b h = elim (Bool-cases (a == b)) [
  | inl e ↦ (eq_iff a b).0 e
  | inr e ↦ absurd (compare_identifiers-nonzero (split a b'.') (split b b'.') (ground arith))
]

first_of-zero : (c rest : ℤ) → first_of c rest ≡ pos 0 → (c ≡ pos 0) × (rest ≡ pos 0)
first_of-zero c rest h = ground (arith, eqb_ℤ_iff c (pos 0))

compare_numbers-zero : (a b : ℕ) → compare_numbers a b ≡ pos 0 → a ≡ b
compare_numbers-zero a b h = ground arith

-- Two versions compare equal only if they are the same version.
pub compare_semantic_version-zero :
    (a b : SemanticVersion) → compare_semantic_version a b ≡ pos 0 → a ≡ b
unfolding compare_semantic_version
compare_semantic_version-zero a b h =
    let (major, h₁) = first_of-zero _ _ h in
    let (minor, h₂) = first_of-zero _ _ h₁ in
    let (patch, h₃) = first_of-zero _ _ h₂ in
    let e₁ = compare_numbers-zero a.major b.major major in
    let e₂ = compare_numbers-zero a.minor b.minor minor in
    let e₃ = compare_numbers-zero a.patch b.patch patch in
    let e₄ = compare_prerelease-zero a.pre b.pre h₃ in
    λ i. record { major = e₁ i; minor = e₂ i; patch = e₃ i; pre = e₄ i }

pub compare_semantic_version_self : (a : SemanticVersion) → compare_semantic_version a a ≡ pos 0
unfolding compare_semantic_version compare_prerelease
compare_semantic_version_self a = ground (arith, eq_iff a.pre a.pre)

both_equal_iff :
    (o p : Option SemanticVersion)
    → (both_equal o p ≡ true) ↔ ((v : SemanticVersion) × (o ≡ some v) × (p ≡ some v))
both_equal_iff none p = (λ h. cc, λ h. absurd (none_is_not_some h.1))
both_equal_iff (some a) none = (λ h. cc, λ h. absurd (none_is_not_some h.2))
both_equal_iff (some a) (some b) = (
  λ h.
      let same : a ≡ b =
        compare_semantic_version-zero a b
          ((eqb_ℤ_iff (compare_semantic_version a b) (pos 0)).0 h) in
      (b, ap some same, refl),
  λ (v, e, f).
      let same : a ≡ b = some-injective (e ∙ sym f) in
      rw (same, compare_semantic_version_self b) refl,
)

-- The running version matches the target exactly if both texts are versions, and the same one: a
-- prerelease never matches its release, and a missing patch number is 0.
pub version_matches_target_iff :
    (current target : String)
    → (version_matches_target current target ≡ true) ↔ (
        (v : SemanticVersion) × (parse_semantic_version current ≡ some v)
        × (parse_semantic_version target ≡ some v))
unfolding version_matches_target
version_matches_target_iff current target =
    both_equal_iff (parse_semantic_version current) (parse_semantic_version target)
