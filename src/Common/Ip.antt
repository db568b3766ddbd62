-- ===== src/Common/Ip.antt =====
-- net.ParseIP of Go's standard library, as far as the panel asks whether a text is an address.
use Prim.Native.Char.{code}
use Prim.Native.Nat.{ℕ, suc, ◌+◌}
use Prim.Native.String.{String}
use mathlib.Core.Path.{◌≡◌, refl}
use mathlib.Core.Bool.{Bool, true, false, not, ◌&&◌, ◌||◌}
use mathlib.Core.List.{List, ◌∷◌, []}
use mathlib.Core.Option.{Option, none, some}
use yuchen_panel.Common.Tests.{leb, eqb, if◌then◌else◌}
use yuchen_panel.Common.Lists.{length}
use yuchen_panel.Common.Text.{◌==◌, split, strip_prefix, scan_digits}

-- a decimal field of an IPv4 address: no leading zero, at most 255
abbrev is_octet : String → Bool
is_octet String.[] = false
is_octet (String.◌∷◌ c s) =
    not (eqb (code c) b'0' && not (s == ""))
    && elim (scan_digits 0 (String.◌∷◌ c s)) [ none ↦ false | some n ↦ leb n 255 ]

abbrev all_octets : List String → Bool
all_octets [] = true
all_octets (f ∷ fs) = is_octet f && all_octets fs

unfoldable pub is_ipv4 : String → Bool
unfolding split scan_digits
is_ipv4 s = eqb (length (split s b'.')) 4 && all_octets (split s b'.')

abbrev is_hex_digit : ℕ → Bool
is_hex_digit c =
    (leb b'0' c && leb c b'9') || (leb b'a' c && leb c b'f') || (leb b'A' c && leb c b'F')

abbrev all_hex : String → Bool
all_hex String.[] = true
all_hex (String.◌∷◌ c s) = is_hex_digit (code c) && all_hex s

abbrev text_length : String → ℕ
text_length String.[] = 0
text_length (String.◌∷◌ c s) = suc (text_length s)

-- a group of an IPv6 address: one to four hexadecimal digits
abbrev is_group : String → Bool
is_group s = not (s == "") && leb (text_length s) 4 && all_hex s

-- how many groups the fields stand for; the last field may be an IPv4 address, which counts twice
unfoldable groups : Bool → List String → Option ℕ
unfolding is_ipv4
groups v4 [] = some 0
groups v4 (f ∷ []) = if is_group f then some 1 else if v4 && is_ipv4 f then some 2 else none
groups v4 (f ∷ g ∷ fs) =
    let rest = groups v4 (g ∷ fs) in
    if is_group f then elim rest [ none ↦ none | some n ↦ some (suc n) ] else none

abbrev fields_of : String → List String
fields_of s = if s == "" then [] else split s b':'

-- the texts before and after the first "::"
unfoldable cut_ellipsis : String → Option (String × String)
unfolding strip_prefix
cut_ellipsis String.[] = none
cut_ellipsis (String.◌∷◌ c s) =
    let rest = cut_ellipsis s in
    elim (strip_prefix "::" (String.◌∷◌ c s)) [
      | some after ↦ some (String.[], after)
      | none ↦ elim rest [ none ↦ none | some (before, after) ↦ some (String.◌∷◌ c before, after) ]
    ]

abbrev fit : Option ℕ → Option ℕ → Bool
fit (some a) (some b) = leb (a + b) 7
fit _ _ = false

unfoldable pub is_ipv6 : String → Bool
unfolding groups cut_ellipsis split
is_ipv6 s = elim (cut_ellipsis s) [
  | none ↦ elim (groups true (split s b':')) [ none ↦ false | some n ↦ eqb n 8 ]
  | some (before, after) ↦ fit (groups false (fields_of before)) (groups true (fields_of after))
]

unfoldable pub is_ip : String → Bool
unfolding is_ipv4 is_ipv6
is_ip s = is_ipv4 s || is_ipv6 s

addresses :
    (is_ip "9.9.9.9" ≡ true)
    × (is_ip "09.9.9.9" ≡ false)
    × (is_ip "::1" ≡ true)
    × (is_ip "2606:4700::1111" ≡ true)
    × (is_ip "::ffff:1.2.3.4" ≡ true)
    × (is_ip "1:2:3:4:5:6:7" ≡ false)
    × (is_ip "dns.google" ≡ false)
unfolding is_ip
addresses = (refl, refl, refl, refl, refl, refl, refl)
