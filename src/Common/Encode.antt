-- ===== src/Common/Encode.antt =====
-- The encodings of Go's standard library that the share links use: UTF-8, `url.QueryEscape`, the
-- other escapes of package net/url, `base64.StdEncoding`, and the strings of encoding/json. A
-- `[]byte` is the list of its bytes.
use Prim.Native.Char.{Char, code}
use Prim.Native.Nat.{ℕ, ◌+◌, ◌-◌, ◌*◌, ◌/◌, ◌%◌}
use Prim.Native.String.{String, ◌++◌}
use mathlib.Core.Path.{◌≡◌, refl}
use mathlib.Core.Bool.{Bool, false, ◌&&◌, ◌||◌}
use mathlib.Core.List.{List, ◌∷◌, []}
use yuchen_panel.Common.Tests.{ltb, leb, eqb, if◌then◌else◌}
use yuchen_panel.Common.Text.{nth_char, from_chars}

-- the bytes of a code point, and of a text
abbrev pub utf8 : ℕ → List ℕ → List ℕ
utf8 c rest =
    if ltb c 0x80
    then c ∷ rest
    else if ltb c 0x800
    then (0xc0 + c / 64) ∷ (0x80 + c % 64) ∷ rest
    else if ltb c 0x10000
    then (0xe0 + c / 4096) ∷ (0x80 + c / 64 % 64) ∷ (0x80 + c % 64) ∷ rest
    else (0xf0 + c / 262144)
      ∷ (0x80 + c / 4096 % 64)
      ∷ (0x80 + c / 64 % 64)
      ∷ (0x80 + c % 64)
      ∷ rest

unfoldable pub bytes_of : String → List ℕ
bytes_of String.[] = []
bytes_of (String.◌∷◌ c s) = utf8 (code c) (bytes_of s)

-- the character of a printable ASCII byte
unfoldable pub ascii : ℕ → Char
unfolding nth_char
ascii b =
    nth_char
      " !\"#$%&'()*+,-./0123456789:;<=>?@ABCDEFGHIJKLMNOPQRSTUVWXYZ[\\]^_`abcdefghijklmnopqrstuvwxyz{|}~"
      (b - 32)

abbrev pub text_of : List ℕ → String
text_of bytes = from_chars ascii bytes

-- "0123456789ABCDEF"[n], and the lower-case digits
abbrev pub hex_upper : ℕ → ℕ
hex_upper n = if ltb n 10 then b'0' + n else b'A' + n - 10

abbrev pub hex_lower : ℕ → ℕ
hex_lower n = if ltb n 10 then b'0' + n else b'a' + n - 10

-- every byte that is not kept becomes "%XX"
unfoldable pub percent_encode : (ℕ → Bool) → List ℕ → List ℕ
percent_encode keep [] = []
percent_encode keep (b ∷ bytes) =
    let rest = percent_encode keep bytes in
    if keep b then b ∷ rest else b'%' ∷ hex_upper (b / 16) ∷ hex_upper (b % 16) ∷ rest

abbrev pub is_alnum : ℕ → Bool
is_alnum b = (leb b'a' b && leb b b'z') || (leb b'A' b && leb b b'Z') || (leb b'0' b && leb b b'9')

unfoldable pub is_unreserved : ℕ → Bool
is_unreserved b = is_alnum b || eqb b b'-' || eqb b b'_' || eqb b b'.' || eqb b b'~'

abbrev pub one_of : List ℕ → ℕ → Bool
one_of [] b = false
one_of (x ∷ xs) b = eqb b x || one_of xs b

abbrev fragment_kept : List ℕ
fragment_kept =
    b'$' ∷ b'&' ∷ b'+' ∷ b',' ∷ b'/' ∷ b':' ∷ b';' ∷ b'=' ∷ b'?' ∷ b'@' ∷ b'!' ∷ b'(' ∷ b')' ∷ b'*'
    ∷ []

abbrev host_kept : List ℕ
host_kept =
    b'!' ∷ b'$' ∷ b'&' ∷ 39 ∷ b'(' ∷ b')' ∷ b'*' ∷ b'+' ∷ b',' ∷ b';' ∷ b'=' ∷ b':' ∷ b'[' ∷ b']'
    ∷ b'<' ∷ b'>' ∷ b'"' ∷ []

unfoldable pub escape_fragment : String → String
unfolding percent_encode is_unreserved from_chars ascii bytes_of
escape_fragment s =
    text_of (percent_encode (λ b. is_unreserved b || one_of fragment_kept b) (bytes_of s))

unfoldable pub escape_host : String → String
unfolding percent_encode is_unreserved from_chars ascii bytes_of
escape_host s = text_of (percent_encode (λ b. is_unreserved b || one_of host_kept b) (bytes_of s))

unfoldable plus_for_space : List ℕ → List ℕ
plus_for_space [] = []
plus_for_space (b ∷ bytes) = (if eqb b b' ' then b'+' else b) ∷ plus_for_space bytes

-- url.QueryEscape
unfoldable pub query_escape : String → String
unfolding percent_encode is_unreserved from_chars ascii bytes_of plus_for_space
query_escape s =
    text_of (plus_for_space (percent_encode (λ b. is_unreserved b || eqb b b' ') (bytes_of s)))

-- one character of the Base64 alphabet
abbrev pub base64_digit : ℕ → ℕ
base64_digit n =
    if ltb n 26
    then b'A' + n
    else if ltb n 52
    then b'a' + n - 26
    else if ltb n 62
    then b'0' + n - 52
    else if eqb n 62
    then b'+'
    else b'/'

-- base64.StdEncoding.EncodeToString
unfoldable pub base64_encode : List ℕ → List ℕ
base64_encode [] = []
base64_encode (a ∷ []) = base64_digit (a / 4) ∷ base64_digit (a % 4 * 16) ∷ b'=' ∷ b'=' ∷ []
base64_encode (a ∷ b ∷ []) =
    base64_digit (a / 4)
    ∷ base64_digit (a % 4 * 16 + b / 16)
    ∷ base64_digit (b % 16 * 4)
    ∷ b'='
    ∷ []
base64_encode (a ∷ b ∷ c ∷ rest) =
    base64_digit (a / 4)
    ∷ base64_digit (a % 4 * 16 + b / 16)
    ∷ base64_digit (b % 16 * 4 + c / 64)
    ∷ base64_digit (c % 64)
    ∷ base64_encode rest

-- \uXXXX
abbrev unicode_escape : ℕ → String → String
unicode_escape c rest =
    "\\u"
    ++ (text_of (
          hex_lower (c / 4096)
          ∷ hex_lower (c / 256 % 16)
          ∷ hex_lower (c / 16 % 16)
          ∷ hex_lower (c % 16)
          ∷ [])
        ++ rest)

-- the inside of a string of encoding/json, which escapes HTML
unfoldable pub json_escape : String → String
unfolding from_chars ascii
json_escape String.[] = String.[]
json_escape (String.◌∷◌ c s) =
    let rest = json_escape s in
    let n = code c in
    if eqb n b'"'
    then "\\\"" ++ rest
    else if eqb n 92
    then "\\\\" ++ rest
    else if eqb n 10
    then "\\n" ++ rest
    else if eqb n 13
    then "\\r" ++ rest
    else if eqb n 9
    then "\\t" ++ rest
    else if eqb n 8
    then "\\b" ++ rest
    else if eqb n 12
    then "\\f" ++ rest
    else if ltb n 32 || eqb n b'<' || eqb n b'>' || eqb n b'&' || eqb n 0x2028 || eqb n 0x2029
    then unicode_escape n rest
    else String.◌∷◌ c rest

unfoldable pub json_quote : String → String
unfolding json_escape
json_quote s = "\"" ++ (json_escape s ++ "\"")

encodings :
    (query_escape "a b/é" ≡ "a+b%2F%C3%A9")
    × (text_of (base64_encode (bytes_of "Man!")) ≡ "TWFuIQ==")
    × (json_quote "a\"<" ≡ "\"a\\\"\\u003c\"")
    × (escape_fragment "a b(c)" ≡ "a%20b(c)")
unfolding query_escape base64_encode json_quote escape_fragment from_chars bytes_of ascii
encodings = (refl, refl, refl, refl)
