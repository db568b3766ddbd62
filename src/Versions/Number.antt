-- ===== src/Versions/Number.antt =====
-- The functions of `strconv` and `strings` that the comparison of versions uses.
use Prim.Native.Char.{code}
use Prim.Native.String.{String}
use yuchen_panel.Common.{
  ℕ, zero, suc, Bool, true, false, Option, none, some, ℤ, pos, negsuc, leb, eqb, max_int64,
  scan_digits, strip_prefix, ◌==◌, if◌then◌else◌,
}

-- a number after its sign, of which int64 holds one more below zero
abbrev pub signed : Bool → ℕ → Option ℤ
signed false n = if leb n max_int64 then some (pos n) else none
signed true zero = some (pos 0)
signed true (suc n) = if leb n max_int64 then some (negsuc n) else none

-- digits that are to be there
abbrev pub digits_of : Bool → String → Option ℤ
digits_of negative s =
    if s == "" then none else elim (scan_digits 0 s) [ none ↦ none | some n ↦ signed negative n ]

-- strconv.Atoi; `none` is its error
unfoldable pub atoi : String → Option ℤ
atoi s = elim (strip_prefix "-" s) [
  | some rest ↦ digits_of true rest
  | none ↦ elim (strip_prefix "+" s) [ some rest ↦ digits_of false rest | none ↦ digits_of false s ]
]

-- strings.SplitN(s, sep, 2)
unfoldable pub cut : String → ℕ → String × Option String
cut String.[] sep = (String.[], none)
cut (String.◌∷◌ c s) sep =
    let (head, tail) = cut s sep in
    if eqb (code c) sep then (String.[], some s) else (String.◌∷◌ c head, tail)
