-- ===== src/Upgrades/Compare.antt =====
-- The comparison of release texts (backend/internal/api/updates.go, `comparePanelVersions`).
use Prim.Native.Char.{code}
use yuchen_panel.Common.{
  ◌≡◌, refl, String, Bool, false, ◌||◌, List, [], ◌∷◌, map, Option, none, some, ℤ, pos, negsuc,
  ltb_ℤ, eqb, trim_space, trim_func, split, is_digit, ◌==◌, if◌then◌else◌, arith,
}
use yuchen_panel.Versions.{SemanticVersion, parse_semantic_version, compare_semantic_version}
use yuchen_panel.Versions.Number.{atoi}
use yuchen_panel.Versions.Order.{compare_semantic_version_self}

-- what follows the first character that is no digit, up to the first digit
unfoldable pub from_digit : String → String
from_digit String.[] = String.[]
from_digit (String.◌∷◌ c s) =
    let rest = from_digit s in if is_digit (code c) then String.◌∷◌ c s else rest

-- the digits and dots at the start
unfoldable pub digits_and_dots : String → String
digits_and_dots String.[] = String.[]
digits_and_dots (String.◌∷◌ c s) =
    let rest = digits_and_dots s in
    if is_digit (code c) || eqb (code c) b'.' then String.◌∷◌ c rest else String.[]

-- a part is a number, or 0
abbrev pub part_number : String → ℤ
part_number part = elim (atoi part) [ none ↦ pos 0 | some n ↦ n ]

unfoldable pub numeric_version_parts : String → List ℤ
unfolding from_digit digits_and_dots is_digit trim_space trim_func split atoi
numeric_version_parts raw =
    let digits = from_digit (trim_space raw) in
    if digits == ""
    then []
    else map part_number (split (trim_func (λ c. eqb c b'.') (digits_and_dots digits)) b'.')

abbrev pub first_difference : ℤ → ℤ → ℤ → ℤ
first_difference a b rest = if ltb_ℤ b a then pos 1 else if ltb_ℤ a b then negsuc 0 else rest

-- the loop over the parts, where a missing one is 0
unfoldable pub compare_parts : List ℤ → List ℤ → ℤ
compare_parts [] [] = pos 0
compare_parts [] (b ∷ qs) = first_difference (pos 0) b (compare_parts [] qs)
compare_parts (a ∷ ps) [] = first_difference a (pos 0) (compare_parts ps [])
compare_parts (a ∷ ps) (b ∷ qs) = first_difference a b (compare_parts ps qs)

abbrev pub compare_or_parts : Option SemanticVersion → Option SemanticVersion → List ℤ → List ℤ → ℤ
compare_or_parts (some v) (some w) ps qs = compare_semantic_version v w
compare_or_parts _ _ ps qs = compare_parts ps qs

unfoldable pub compare_panel_versions : String → String → ℤ
unfolding numeric_version_parts compare_parts
compare_panel_versions a b =
    compare_or_parts (parse_semantic_version a) (parse_semantic_version b) (numeric_version_parts a)
      (numeric_version_parts b)

unfoldable pub is_remote_version_newer : String → String → Bool
unfolding compare_panel_versions
is_remote_version_newer remote current = ltb_ℤ (pos 0) (compare_panel_versions remote current)

compare_parts_self : (ps : List ℤ) → compare_parts ps ps ≡ pos 0
unfolding compare_parts
compare_parts_self [] = refl
compare_parts_self (a ∷ ps) = ground (arith, compare_parts_self ps)

compare_or_parts_self :
    (v : Option SemanticVersion) (ps : List ℤ) → compare_or_parts v v ps ps ≡ pos 0
compare_or_parts_self none ps = compare_parts_self ps
compare_or_parts_self (some v) ps = compare_semantic_version_self v

-- no text is newer than itself
pub is_remote_version_newer_irrefl : (v : String) → is_remote_version_newer v v ≡ false
unfolding is_remote_version_newer compare_panel_versions
is_remote_version_newer_irrefl v =
    rw (compare_or_parts_self (parse_semantic_version v) (numeric_version_parts v)) refl
