-- ===== src/Subscriptions/Escaping.antt =====
-- The user of a share link can be read back from it, whatever its bytes.
use yuchen_panel.Common.{
  ◌-◌, ◌||◌, ℕ, ◌+◌, ◌*◌, ◌/◌, ◌%◌, ◌<◌, ◌≡◌, refl, true, false, List, [], ◌∷◌, Option, none, some,
  All, eqb, ltb, if◌then◌else◌, arith, inl, inr, Bool-cases, percent_encode, is_unreserved,
  hex_upper,
}
use yuchen_panel.Subscriptions.Links.{encode_user}

-- a reader of percent-encoding: the value of a hexadecimal digit, and the bytes
abbrev pub hex_value : ℕ → ℕ
hex_value c = if ltb c b'A' then c - b'0' else c - b'A' + 10

abbrev prefixed : ℕ → Option (List ℕ) → Option (List ℕ)
prefixed b none = none
prefixed b (some bytes) = some (b ∷ bytes)

unfoldable pub percent_decode : List ℕ → Option (List ℕ)
percent_decode [] = some []
percent_decode (c ∷ []) = if eqb c b'%' then none else some (c ∷ [])
percent_decode (c ∷ h ∷ []) = if eqb c b'%' then none else prefixed c (percent_decode (h ∷ []))
percent_decode (c ∷ h ∷ l ∷ rest) =
    let plain = prefixed c (percent_decode (h ∷ l ∷ rest)) in
    let escaped = prefixed (hex_value h * 16 + hex_value l) (percent_decode rest) in
    if eqb c b'%' then escaped else plain

decode-plain :
    (b : ℕ) (bytes : List ℕ)
    → eqb b b'%' ≡ false
    → percent_decode (b ∷ bytes) ≡ prefixed b (percent_decode bytes)
unfolding percent_decode
decode-plain b [] h = rw (h, if◌then◌else◌) refl
decode-plain b (x ∷ []) h = rw (h, if◌then◌else◌) refl
decode-plain b (x ∷ y ∷ bytes) h = rw (h, if◌then◌else◌) refl

hex_pair :
    (b : ℕ) → b < 256 → hex_value (hex_upper (b / 16)) * 16 + hex_value (hex_upper (b % 16)) ≡ b
hex_pair b h = ground arith

unreserved_plain : (b : ℕ) → is_unreserved b ≡ true → eqb b b'%' ≡ false
unfolding is_unreserved
unreserved_plain b h = ground arith

-- Decoding the user of a link gives back its bytes.
pub percent_decode-encode_user :
    (user : List ℕ) → All (λ b. b < 256) user → percent_decode (encode_user user) ≡ some user
unfolding encode_user percent_encode percent_decode
percent_decode-encode_user [] h = refl
percent_decode-encode_user (b ∷ user) (small, rest) = elim (Bool-cases (is_unreserved b)) [
  | inl keep ↦
      rw
        (
          keep,
          if◌then◌else◌,
          decode-plain b (encode_user user) (unreserved_plain b keep),
          percent_decode-encode_user user rest,
        )
        refl
  | inr escape ↦
      rw (escape, if◌then◌else◌, percent_decode-encode_user user rest, hex_pair b small) refl
]

-- a byte that ends no part of a URL
abbrev pub IsPlain : ℕ → Type 0
IsPlain b = (is_unreserved b || eqb b b'%') ≡ true

hex-IsPlain : (n : ℕ) → n < 16 → IsPlain (hex_upper n)
unfolding is_unreserved
hex-IsPlain n h = ground arith

encode_user-IsPlain : (user : List ℕ) → All (λ b. b < 256) user → All IsPlain (encode_user user)
unfolding encode_user percent_encode
encode_user-IsPlain [] h = tt
encode_user-IsPlain (b ∷ user) (small, rest) = elim (Bool-cases (is_unreserved b)) [
  | inl keep ↦ rw (keep, if◌then◌else◌) (ground (arith, keep), encode_user-IsPlain user rest)
  | inr escape ↦
      rw (escape, if◌then◌else◌)
        (
          ground arith,
          (
            hex-IsPlain (b / 16) (omega arith),
            (hex-IsPlain (b % 16) (omega arith), encode_user-IsPlain user rest),
          ),
        )
]

-- The user in a share link can be read back, and holds no byte that could end it or start another
-- part of the URL.
pub encode_user_roundtrip :
    (user : List ℕ)
    → All (λ b. b < 256) user
    → (percent_decode (encode_user user) ≡ some user) × All IsPlain (encode_user user)
encode_user_roundtrip user h = (percent_decode-encode_user user h, encode_user-IsPlain user h)
