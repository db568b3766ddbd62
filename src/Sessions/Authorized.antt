-- ===== src/Sessions/Authorized.antt =====
-- What stands behind a session that `withAuth` (backend/internal/api/router.go) lets through.
use text.Mathlib.TextEquality.{eq_iff}
use yuchen_panel.Common.{
  ◌≡◌, ◌≤ℤ◌, List, [], ◌∷◌, split, ok-injective, refl, sym, ap, ℕ, ◌-ℤ◌, String, true, not, ◌||◌,
  Option, none, some, inl, inr, ltb_ℤ, lookup, append, has_prefix, trim_prefix, ◌==◌, if◌then◌else◌,
  Outcome, ok, err, arith, Bool-cases,
}
use yuchen_panel.Places.{inl-injective}
use yuchen_panel.Model.{AdminUser, Time}
use yuchen_panel.Store.{Store}
use yuchen_panel.Sessions.Token.{
  Claims, Codec, unix, same_bytes, unexpired, signed, verify_parts, verify_jwt,
}
use yuchen_panel.Sessions.Handlers.{session_of, verified, with_auth}

-- What stands behind a session: a header "Bearer h.p.g", where g is the text of the MAC of "h.p"
-- under the secret and p that of claims that have not expired, and an enabled super admin whom the
-- claims name.
pub record Authorized (codec : Codec) (secret : String) (now : Time) (header : String) (s : Store)
    (c : Claims) : Type 0 where
  pub bearer : has_prefix header "Bearer " ≡ true
  pub head : String
  pub payload : String
  pub signature : String
  pub three_parts : split (trim_prefix header "Bearer ") b'.' ≡ head ∷ payload ∷ signature ∷ []
  pub signed_text :
      codec.read_mac signature ≡ some (codec.mac (append head (append "." payload)) secret)
  pub token : Claims
  pub claimed : codec.read_claims payload ≡ some token
  pub in_time : unix now ≤ℤ token.exp
  pub account : AdminUser
  pub known : lookup token.sub s.memory.admins ≡ some account
  pub enabled : account.enabled ≡ true
  pub super : account.role ≡ "super_admin"
  pub named : c ≡ record token { username = account.username; role = account.role }

same_bytes-eq : (a b : List ℕ) → same_bytes a b ≡ true → a ≡ b
unfolding same_bytes
same_bytes-eq [] [] h = refl
same_bytes-eq [] (y ∷ ys) h = cc
same_bytes-eq (x ∷ xs) [] h = cc
same_bytes-eq (x ∷ xs) (y ∷ ys) h =
    let tails : xs ≡ ys = same_bytes-eq xs ys (ground arith) in
    let heads : x ≡ y = ground arith in rw (heads, tails) refl

unexpired-InTime :
    (now : Time) (o : Option Claims) (token : Claims)
    → unexpired now o ≡ ok token
    → (o ≡ some token) × (unix now ≤ℤ token.exp)
unfolding ◌-ℤ◌
unexpired-InTime now none token h = cc
unexpired-InTime now (some c) token h = elim (Bool-cases (ltb_ℤ c.exp (unix now))) [
  | inl e ↦ absurd (let bad = rw (e, if◌then◌else◌) at h in cc)
  | inr e ↦
      let same : c ≡ token = ok-injective (rw (e, if◌then◌else◌) at h) in
      rw (sym same) (refl, ground arith)
]

-- the MAC and the claims of a token that verifies
signed-Valid :
    (codec : Codec) (now : Time) (payload : String) (want : List ℕ) (o : Option (List ℕ))
    (token : Claims)
    → signed codec now payload want o ≡ ok token
    → (o ≡ some want) × (codec.read_claims payload ≡ some token) × (unix now ≤ℤ token.exp)
unfolding same_bytes
signed-Valid codec now payload want none token h = cc
signed-Valid codec now payload want (some got) token h = elim (Bool-cases (same_bytes got want)) [
  | inr e ↦ absurd (let bad = rw (e, if◌then◌else◌) at h in cc)
  | inl e ↦
      let (claimed, in_time) =
        unexpired-InTime now (codec.read_claims payload) token (rw (e, if◌then◌else◌) at h) in
      (ap (λ l. some l) (same_bytes-eq got want e), claimed, in_time)
]

verify_parts-three :
    (codec : Codec) (secret : String) (now : Time) (parts : List String) (token : Claims)
    → verify_parts codec secret now parts ≡ ok token
    → (head : String) × (payload : String) × (signature : String) × (parts
        ≡ head ∷ payload ∷ signature ∷ [])
      × (codec.read_mac signature ≡ some (codec.mac (append head (append "." payload)) secret))
      × (codec.read_claims payload ≡ some token)
      × (unix now ≤ℤ token.exp)
verify_parts-three codec secret now [] token h = cc
verify_parts-three codec secret now (a ∷ []) token h = cc
verify_parts-three codec secret now (a ∷ b ∷ []) token h = cc
verify_parts-three codec secret now (a ∷ b ∷ c ∷ []) token h =
    let (mac, claimed, in_time) = signed-Valid codec now b _ (codec.read_mac c) token h in
    (a, b, c, refl, mac, claimed, in_time)
verify_parts-three codec secret now (a ∷ b ∷ c ∷ d ∷ rest) token h = cc

session_of-Authorized :
    (c token : Claims) (o : Option AdminUser)
    → session_of token o ≡ inl c
    → (account : AdminUser) × (o ≡ some account)
      × (account.enabled ≡ true)
      × ((account.role == "super_admin") ≡ true)
      × (c ≡ record token { username = account.username; role = account.role })
session_of-Authorized c token none h = cc
session_of-Authorized c token (some a) h =
    elim (Bool-cases (not a.enabled || not (a.role == "super_admin"))) [
      | inl e ↦ absurd (let bad = rw (e, if◌then◌else◌) at h in cc)
      | inr e ↦ (
        a,
        refl,
        ground (arith, e),
        ground (arith, e),
        sym (inl-injective {B = ℕ × String} (rw (e, if◌then◌else◌) at h)),
      )
    ]

verified-Authorized :
    (codec : Codec) (secret : String) (now : Time) (header : String) (s : Store) (c : Claims)
    (o : Outcome Claims)
    → has_prefix header "Bearer " ≡ true
    → verify_jwt codec secret now (trim_prefix header "Bearer ") ≡ o
    → verified s o ≡ inl c
    → Authorized codec secret now header s c
unfolding verify_jwt
verified-Authorized codec secret now header s c (err e) bearer read h = cc
verified-Authorized codec secret now header s c (ok token) bearer read h =
    let (account, found, active, super, same) =
      session_of-Authorized c token (lookup token.sub s.memory.admins) h in
    let (head, payload, signature, three, mac, claimed, in_time) =
      verify_parts-three codec secret now (split (trim_prefix header "Bearer ") b'.') token read in
    record {
      bearer = bearer;
      head = head;
      payload = payload;
      signature = signature;
      three_parts = three;
      signed_text = mac;
      token = token;
      claimed = claimed;
      in_time = in_time;
      account = account;
      known = found;
      enabled = active;
      super = (eq_iff account.role "super_admin").0 super;
      named = same;
    }

-- A request is let through only if its header Authorization is "Bearer " and three parts between
-- dots, of which the last reads as the MAC of the first two under the secret, and the second as
-- claims that have not expired and that name an account which exists, is enabled and is a super
-- admin at this moment, whatever the claims say of its role; the handler gets the name and the role
-- of that account.
pub with_auth-Authorized :
    (codec : Codec) (secret : String) (now : Time) (header : String) (s : Store) (c : Claims)
    → with_auth codec secret now header s ≡ inl c
    → Authorized codec secret now header s c
unfolding with_auth
with_auth-Authorized codec secret now header s c h =
    elim (Bool-cases (has_prefix header "Bearer ")) [
      | inr e ↦ absurd (let bad = rw (e, if◌then◌else◌) at h in cc)
      | inl e ↦
          verified-Authorized codec secret now header s c
            (verify_jwt codec secret now (trim_prefix header "Bearer ")) e refl
            (rw (e, if◌then◌else◌) at h)
    ]
