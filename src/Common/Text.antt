-- ===== src/Common/Text.antt =====
-- The functions of packages `strings` and `strconv` that the panel uses, on Go strings as texts of
-- characters. `strings.ToLower` maps the ASCII letters and the two other characters whose lower
-- case is ASCII; the other letters, which no constant of the program contains, are left alone.
use Prim.Native.Char.{Char, code}
use Prim.Native.Nat.{ℕ, zero, suc, ◌+◌, ◌-◌, ◌*◌, ◌/◌, ◌%◌}
use Prim.Native.String.{String, ◌++◌}
use mathlib.Core.Path.{◌≡◌, refl}
use mathlib.Core.Bool.{Bool, true, false, ◌&&◌, ◌||◌}
use mathlib.Core.List.{List, ◌∷◌, []}
use mathlib.Core.Option.{Option, none, some}
use text.Mathlib.Text.{◌==◌ as str_eq}
use yuchen_panel.Common.Int.{ℤ, pos, negsuc}
use yuchen_panel.Common.Tests.{ltb, leb, eqb, if◌then◌else◌}

infix 50 ◌==◌
abbrev pub ◌==◌ : String → String → Bool
s == t = str_eq s t

-- unicode.IsSpace
unfoldable pub is_space : ℕ → Bool
is_space c =
    (leb 9 c && leb c 13)
    || eqb c 32
    || eqb c 0x85
    || eqb c 0xa0
    || eqb c 0x1680
    || (leb 0x2000 c && leb c 0x200a)
    || eqb c 0x2028
    || eqb c 0x2029
    || eqb c 0x202f
    || eqb c 0x205f
    || eqb c 0x3000

unfoldable pub trim_left : (ℕ → Bool) → String → String
trim_left p String.[] = String.[]
trim_left p (String.◌∷◌ c s) =
    let rest = trim_left p s in if p (code c) then rest else String.◌∷◌ c s

unfoldable pub trim_right : (ℕ → Bool) → String → String
trim_right p String.[] = String.[]
trim_right p (String.◌∷◌ c s) =
    let rest = trim_right p s in
    if rest == String.[] && p (code c) then String.[] else String.◌∷◌ c rest

-- strings.TrimFunc
unfoldable pub trim_func : (ℕ → Bool) → String → String
unfolding trim_left trim_right
trim_func p s = trim_right p (trim_left p s)

-- strings.TrimSpace
unfoldable pub trim_space : String → String
unfolding trim_func is_space
trim_space s = trim_func is_space s

translate : String → String → Char → Char
translate (String.◌∷◌ u us) (String.◌∷◌ l ls) c =
    if eqb (code u) (code c) then l else translate us ls c
translate String.[] ls c = c
translate us String.[] c = c

-- strings.ToLower
unfoldable pub to_lower : String → String
unfolding translate
to_lower String.[] = String.[]
to_lower (String.◌∷◌ c s) =
    String.◌∷◌ (translate "ABCDEFGHIJKLMNOPQRSTUVWXYZKİ" "abcdefghijklmnopqrstuvwxyzki" c)
      (to_lower s)

-- what follows the prefix, if it is one
unfoldable pub strip_prefix : String → String → Option String
strip_prefix String.[] s = some s
strip_prefix (String.◌∷◌ p ps) String.[] = none
strip_prefix (String.◌∷◌ p ps) (String.◌∷◌ c s) =
    if eqb (code p) (code c) then strip_prefix ps s else none

-- strings.HasPrefix, strings.TrimPrefix
abbrev pub has_prefix : String → String → Bool
has_prefix s p = elim (strip_prefix p s) [ none ↦ false | some _ ↦ true ]

abbrev pub trim_prefix : String → String → String
trim_prefix s p = elim (strip_prefix p s) [ none ↦ s | some r ↦ r ]

abbrev cons_opt : Char → Option String → Option String
cons_opt c none = none
cons_opt c (some r) = some (String.◌∷◌ c r)

-- what stands before the suffix, if it is one
unfoldable pub strip_suffix : String → String → Option String
strip_suffix p String.[] = if p == String.[] then some String.[] else none
strip_suffix p (String.◌∷◌ c s) =
    let rest = cons_opt c (strip_suffix p s) in if p == String.◌∷◌ c s then some String.[] else rest

-- strings.HasSuffix, strings.TrimSuffix
abbrev pub has_suffix : String → String → Bool
has_suffix s p = elim (strip_suffix p s) [ none ↦ false | some _ ↦ true ]

abbrev pub trim_suffix : String → String → String
trim_suffix s p = elim (strip_suffix p s) [ none ↦ s | some r ↦ r ]

-- strings.Contains
unfoldable pub has_infix : String → String → Bool
unfolding strip_prefix
has_infix String.[] p = p == String.[]
has_infix (String.◌∷◌ c s) p = has_prefix (String.◌∷◌ c s) p || has_infix s p

-- one more character in front of the first part
abbrev pub cons_head : Char → List String → List String
cons_head c [] = String.◌∷◌ c String.[] ∷ []
cons_head c (w ∷ ws) = String.◌∷◌ c w ∷ ws

-- the parts of a text that the code points named by the test separate; never empty
unfoldable pub split_on : (ℕ → Bool) → String → List String
split_on p String.[] = String.[] ∷ []
split_on p (String.◌∷◌ c s) =
    let parts = split_on p s in if p (code c) then String.[] ∷ parts else cons_head c parts

-- strings.Split(s, sep) for a separator of one character
unfoldable pub split : String → ℕ → List String
unfolding split_on
split s sep = split_on (λ c. eqb c sep) s

abbrev pub head_or : String → List String → String
head_or d [] = d
head_or d (x ∷ xs) = x

-- strings.Join
unfoldable pub join : List String → String → String
join [] sep = ""
join (x ∷ []) sep = x
join (x ∷ y ∷ xs) sep = x ++ (sep ++ join (y ∷ xs) sep)

unfoldable pub nth_char : String → ℕ → Char
nth_char String.[] n = "?"
nth_char (String.◌∷◌ c s) zero = c
nth_char (String.◌∷◌ c s) (suc n) = nth_char s n

-- the text of one character for each number
unfoldable pub from_chars : (ℕ → Char) → List ℕ → String
from_chars f [] = ""
from_chars f (b ∷ bs) = String.◌∷◌ (f b) (from_chars f bs)

unfoldable pub digit : ℕ → Char
unfolding nth_char
digit d = nth_char "0123456789" d

-- the decimal digits of `n` before `out`; the fuel `n` is enough, since a tenth is smaller
unfoldable pub digits_before : ℕ → ℕ → String → String
digits_before zero n out = String.◌∷◌ (digit (n % 10)) out
digits_before (suc f) n out =
    let rest = digits_before f (n / 10) (String.◌∷◌ (digit (n % 10)) out) in
    if ltb n 10 then String.◌∷◌ (digit (n % 10)) out else rest

-- strconv.Itoa
unfoldable pub itoa : ℤ → String
unfolding digits_before digit
itoa (pos n) = digits_before n n ""
itoa (negsuc n) = "-" ++ digits_before (suc n) (suc n) ""

unfoldable pub is_digit : ℕ → Bool
is_digit c = leb b'0' c && leb c b'9'

-- the value of a text of decimal digits read after `acc`
unfoldable pub scan_digits : ℕ → String → Option ℕ
unfolding is_digit
scan_digits acc String.[] = some acc
scan_digits acc (String.◌∷◌ c s) =
    if is_digit (code c) then scan_digits (acc * 10 + (code c - b'0')) s else none

-- whether a text is made of decimal digits alone
unfoldable pub all_digits : String → Bool
unfolding is_digit
all_digits String.[] = true
all_digits (String.◌∷◌ c s) = is_digit (code c) && all_digits s

-- strings.Compare
unfoldable pub compare_text : String → String → ℤ
compare_text String.[] String.[] = pos 0
compare_text String.[] (String.◌∷◌ d t) = negsuc 0
compare_text (String.◌∷◌ c s) String.[] = pos 1
compare_text (String.◌∷◌ c s) (String.◌∷◌ d t) =
    let rest = compare_text s t in
    if ltb (code c) (code d) then negsuc 0 else if ltb (code d) (code c) then pos 1 else rest

text_functions :
    (trim_space "  a b  " ≡ "a b")
    × (to_lower "VLess" ≡ "vless")
    × (trim_suffix "x/reset-token" "/reset-token" ≡ "x")
    × (itoa (pos 1204) ≡ "1204")
    × (split "a:b::c" b':' ≡ "a" ∷ "b" ∷ "" ∷ "c" ∷ [])
    × (scan_digits 0 "443" ≡ some 443)
unfolding trim_space to_lower strip_suffix itoa split scan_digits
text_functions = (refl, refl, refl, refl, refl, refl)
