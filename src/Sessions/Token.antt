-- ===== src/Sessions/Token.antt =====
-- The tokens of a session (backend/internal/security/jwt.go).
use yuchen_panel.Common.{
  ℕ, ◌/◌, String, Bool, true, false, List, [], ◌∷◌, Option, none, some, ℤ, pos, ◌-ℤ◌, ltb_ℤ, append,
  split, if◌then◌else◌, Outcome, ok, err, eqb,
}
use yuchen_panel.Model.{Time}

pub record Claims : Type 0 where
  pub sub : String
  pub username : String
  pub role : String
  pub exp : ℤ

-- What the tokens are made of: the base64 text of the JSON of claims and its reader, HMAC-SHA-256 of
-- a text under a secret, the base64 text of a MAC and its reader.
pub record Codec : Type 0 where
  pub claims_text : Claims → String
  pub read_claims : String → Option Claims
  pub mac : String → String → List ℕ
  pub mac_text : List ℕ → String
  pub read_mac : String → Option (List ℕ)

-- hmac.Equal
unfoldable pub same_bytes : List ℕ → List ℕ → Bool
same_bytes [] [] = true
same_bytes [] (y ∷ ys) = false
same_bytes (x ∷ xs) [] = false
same_bytes (x ∷ xs) (y ∷ ys) = let rest = same_bytes xs ys in if eqb x y then rest else false

-- time.Time.Unix
abbrev pub unix : Time → ℤ
unix t = pos (t / 1000000000) -ℤ pos 62135596800

-- the base64 text of {"alg":"HS256","typ":"JWT"}
abbrev pub jwt_header : String
jwt_header = "eyJhbGciOiJIUzI1NiIsInR5cCI6IkpXVCJ9"

abbrev pub signing_input : String → String → String
signing_input header payload = append header (append "." payload)

-- `SignJWT`
unfoldable pub sign_jwt : Codec → String → Claims → String
sign_jwt codec secret c =
    let input = signing_input jwt_header (codec.claims_text c) in
    append jwt_header (
      append "."
        (append (codec.claims_text c) (append "." (codec.mac_text (codec.mac input secret)))))

abbrev pub unexpired : Time → Option Claims → Outcome Claims
unexpired now none = err "invalid claims"
unexpired now (some c) = if ltb_ℤ c.exp (unix now) then err "expired token" else ok c

abbrev pub signed : Codec → Time → String → List ℕ → Option (List ℕ) → Outcome Claims
signed codec now payload want none = err "invalid signature"
signed codec now payload want (some got) =
    if same_bytes got want
    then unexpired now (codec.read_claims payload)
    else err "invalid signature"

abbrev pub verify_parts : Codec → String → Time → List String → Outcome Claims
verify_parts codec secret now (header ∷ payload ∷ signature ∷ []) =
    signed codec now payload (codec.mac (signing_input header payload) secret)
      (codec.read_mac signature)
verify_parts codec secret now _ = err "invalid token"

-- `VerifyJWT`
unfoldable pub verify_jwt : Codec → String → Time → String → Outcome Claims
unfolding same_bytes split ◌-ℤ◌
verify_jwt codec secret now token = verify_parts codec secret now (split token b'.')
