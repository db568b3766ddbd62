-- ===== src/Versions.antt =====
-- Versions of the panel: semantic versions (backend/internal/api/upgrade_tasks.go), the comparison
-- of versions (backend/internal/api/updates.go) and release ids
-- (backend/internal/version/release.go).
pub mod Number
pub mod Order
pub mod Antisymmetry
use yuchen_panel.Common.{
  compare_text, ℕ, zero, suc, ◌+◌, ◌-◌, ◌*◌, String, Bool, true, false, not, ◌&&◌, ◌||◌, Option,
  none, some, List, [], ◌∷◌, ℤ, pos, negsuc, ltb_ℤ, eqb_ℤ, leb, ltb, eqb, max_int64, trim_space,
  trim_prefix, trim_suffix, has_suffix, split, head_or, scan_digits, all_digits, strip_prefix, ◌==◌,
  if◌then◌else◌,
}
use Prim.Native.Char.{Char, code}
use yuchen_panel.Versions.Number.{atoi, cut}

pub record SemanticVersion : Type 0 where
  pub major : ℕ
  pub minor : ℕ
  pub patch : ℕ
  pub pre : String

-- one of the up to three numbers: decimal digits alone, which int64 holds
unfoldable pub version_number : String → Option ℕ
version_number n = if n == "" || not (all_digits n) then none else elim (scan_digits 0 n) [
  | none ↦ none
  | some value ↦ if leb value max_int64 then some value else none
]

abbrev pub three : Option ℕ → Option ℕ → Option ℕ → Option (ℕ × ℕ × ℕ)
three (some a) (some b) (some c) = some (a, b, c)
three _ _ _ = none

unfoldable pub version_numbers : List String → Option (ℕ × ℕ × ℕ)
unfolding version_number
version_numbers (a ∷ []) = three (version_number a) (some 0) (some 0)
version_numbers (a ∷ b ∷ []) = three (version_number a) (version_number b) (some 0)
version_numbers (a ∷ b ∷ c ∷ []) = three (version_number a) (version_number b) (version_number c)
version_numbers _ = none

-- the prerelease of the part after the first "-"
unfoldable pub prerelease : Option String → Option String
prerelease none = some ""
prerelease (some p) = if p == "stable" then some "" else if p == "" then none else some p

abbrev pub version_of : Option (ℕ × ℕ × ℕ) → Option String → Option SemanticVersion
version_of (some (a, b, c)) (some p) = some (record { major = a; minor = b; patch = c; pre = p })
version_of _ _ = none

unfoldable pub parse_semantic_version : String → Option SemanticVersion
unfolding version_numbers prerelease
parse_semantic_version raw =
    let s = trim_prefix (trim_space raw) "v" in
    let (head, tail) = cut s b'-' in
    if s == "" then none else version_of (version_numbers (split head b'.')) (prerelease tail)

-- -1, 0 or 1
abbrev pub compare_numbers : ℕ → ℕ → ℤ
compare_numbers a b = if ltb a b then negsuc 0 else if ltb b a then pos 1 else pos 0

-- what `strconv.Atoi` and `strings.Compare` say of two different identifiers
abbrev pub compare_read : Option ℤ → Option ℤ → ℤ → ℤ
compare_read (some n) (some m) texts = if ltb_ℤ n m then negsuc 0 else pos 1
compare_read (some n) none texts = negsuc 0
compare_read none (some m) texts = pos 1
compare_read none none texts = texts

-- two different identifiers of a prerelease
unfoldable pub compare_identifier : String → String → ℤ
compare_identifier x y = compare_read (atoi x) (atoi y) (compare_text x y)

unfoldable pub compare_identifiers : List String → List String → ℤ
unfolding compare_identifier
compare_identifiers [] [] = pos 1
compare_identifiers [] (y ∷ ys) = negsuc 0
compare_identifiers (x ∷ xs) [] = pos 1
compare_identifiers (x ∷ xs) (y ∷ ys) =
    let rest = compare_identifiers xs ys in if x == y then rest else compare_identifier x y

unfoldable pub compare_prerelease : String → String → ℤ
compare_prerelease a b =
    if a == b
    then pos 0
    else if a == ""
    then pos 1
    else if b == ""
    then negsuc 0
    else compare_identifiers (split a b'.') (split b b'.')

-- the first comparison that is not 0
abbrev pub first_of : ℤ → ℤ → ℤ
first_of c rest = if eqb_ℤ c (pos 0) then rest else c

unfoldable pub compare_semantic_version : SemanticVersion → SemanticVersion → ℤ
unfolding compare_prerelease
compare_semantic_version a b = first_of (compare_numbers a.major b.major) (
    first_of (compare_numbers a.minor b.minor)
      (first_of (compare_numbers a.patch b.patch) (compare_prerelease a.pre b.pre)))

abbrev pub both_equal : Option SemanticVersion → Option SemanticVersion → Bool
both_equal (some a) (some b) = eqb_ℤ (compare_semantic_version a b) (pos 0)
both_equal _ _ = false

-- `versionMatchesTarget`
unfoldable pub version_matches_target : String → String → Bool
version_matches_target current target =
    both_equal (parse_semantic_version current) (parse_semantic_version target)

-- the channel is the first identifier of the prerelease
abbrev pub release_channel : String → Option String → Option (String × String)
release_channel value none = some (value, "stable")
release_channel value (some pre) = if pre == "" then none else some (value, (cut pre b'.').0)

-- `ParseReleaseID`: the version and the channel
unfoldable pub parse_release_id : String → Option (String × String)
parse_release_id raw =
    let value = trim_space raw in
    if value == ""
    then none
    else if has_suffix value "-stable"
    then some (trim_suffix value "-stable", "stable")
    else release_channel value (cut value b'-').1
