-- ===== src/Sessions/Verified.antt =====
-- A token that was signed verifies (backend/internal/security/jwt.go).
use Prim.Native.Char.{code}
use text.Mathlib.TextLemmas.{cons-append, nil-append}
use yuchen_panel.Common.{
  ◌≡◌, refl, ap, ◌∙◌, ℕ, String, Bool, true, false, not, List, [], ◌∷◌, some, ltb_ℤ, append, split,
  split_on, if◌then◌else◌, ok, eqb, arith,
}
use yuchen_panel.Model.{Time}
use yuchen_panel.Upgrades.Task.{all_chars}
use yuchen_panel.Sessions.Token.{
  Claims, Codec, same_bytes, unix, jwt_header, signing_input, sign_jwt, verify_parts, verify_jwt,
}

abbrev pub no_dot : String → Bool
no_dot s = all_chars (λ c. not (eqb c b'.')) s

-- What the session relies on in encoding/json and encoding/base64: the texts of these claims and of
-- this MAC read back, and have no dot.
pub record Faithful (codec : Codec) (c : Claims) (bytes : List ℕ) : Type 0 where
  pub claims_read : codec.read_claims (codec.claims_text c) ≡ some c
  pub claims_plain : no_dot (codec.claims_text c) ≡ true
  pub mac_read : codec.read_mac (codec.mac_text bytes) ≡ some bytes
  pub mac_plain : no_dot (codec.mac_text bytes) ≡ true

-- the MAC of the token for the claims
abbrev pub mac_of : Codec → String → Claims → List ℕ
mac_of codec secret c = codec.mac (signing_input jwt_header (codec.claims_text c)) secret

same_bytes_self : (bytes : List ℕ) → same_bytes bytes bytes ≡ true
unfolding same_bytes
same_bytes_self [] = refl
same_bytes_self (b ∷ bytes) = ground (arith, same_bytes_self bytes)

split_plain : (s : String) → no_dot s ≡ true → split s b'.' ≡ s ∷ []
unfolding split split_on all_chars
split_plain String.[] h = refl
split_plain (String.◌∷◌ c s) h =
    let plain : eqb (code c) b'.' ≡ false = ground (arith, h) in
    let rest : no_dot s ≡ true = ground (arith, h) in
    rw (plain, if◌then◌else◌, split_plain s rest) refl

dot_append : (t : String) → append "." t ≡ String.◌∷◌ "." t
dot_append t = cons-append "." String.[] t ∙ ap (String.◌∷◌ ".") (nil-append t)

split_dot :
    (s t : String) → no_dot s ≡ true → split (append s (append "." t)) b'.' ≡ s ∷ split t b'.'
unfolding split split_on all_chars
split_dot String.[] t h = rw (nil-append (append "." t), dot_append t) refl
split_dot (String.◌∷◌ c s) t h =
    let plain : eqb (code c) b'.' ≡ false = ground (arith, h) in
    let rest : no_dot s ≡ true = ground (arith, h) in
    rw (cons-append c s (append "." t), plain, if◌then◌else◌, split_dot s t rest) refl

-- the token of a session verifies until it expires
pub verify_jwt-sign_jwt :
    (codec : Codec) (secret : String) (c : Claims) (now : Time)
    → Faithful codec c (mac_of codec secret c)
    → ltb_ℤ c.exp (unix now) ≡ false
    → verify_jwt codec secret now (sign_jwt codec secret c) ≡ ok c
unfolding verify_jwt sign_jwt all_chars
verify_jwt-sign_jwt codec secret c now faithful fresh =
    let payload = codec.claims_text c in
    let bytes = codec.mac (signing_input jwt_header payload) secret in
    let signature = codec.mac_text bytes in
    let parts : split (append jwt_header (append "." (append payload (append "." signature)))) b'.'
        ≡ jwt_header ∷ payload ∷ signature ∷ [] =
      split_dot jwt_header (append payload (append "." signature)) refl
      ∙ ap (λ l. jwt_header ∷ l)
          (split_dot payload signature (faithful.claims_plain)
            ∙ ap (λ l. payload ∷ l) (split_plain signature (faithful.mac_plain))) in
    ap (verify_parts codec secret now) parts
    ∙ rw
        (
          faithful.mac_read,
          same_bytes_self bytes,
          if◌then◌else◌,
          faithful.claims_read,
          fresh,
          if◌then◌else◌,
        )
        refl
