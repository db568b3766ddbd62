-- ===== src/Sessions/Admitted.antt =====
-- Who gets a session.
use text.Mathlib.TextLemmas.{cons-append, nil-append}
use yuchen_panel.Common.{
  ◌≡◌, refl, ap, ◌∙◌, ◌+◌, ◌≤◌, ◌-ℤ◌, String, Bool, true, false, none, some, inl, ltb_ℤ, lookup,
  append, strip_prefix, trim_prefix, ◌==◌, if◌then◌else◌, ok, arith,
}
use yuchen_panel.Model.{AdminUser, Time}
use yuchen_panel.Http.{post, reply}
use yuchen_panel.Store.{Store, Env, find_admin_by_username}
use yuchen_panel.Sessions.Token.{Claims, Codec, unix, sign_jwt, verify_jwt}
use yuchen_panel.Sessions.Handlers.{
  LoginRequest, LoginAnswer, one_day, session_claims, login, verified, with_auth,
}
use yuchen_panel.Sessions.Verified.{Faithful, mac_of, verify_jwt-sign_jwt}

strip_prefix-append : (p s : String) → strip_prefix p (append p s) ≡ some s
unfolding strip_prefix
strip_prefix-append String.[] s = rw (nil-append s) refl
strip_prefix-append (String.◌∷◌ c p) s =
    rw (cons-append c p s, strip_prefix-append p s) (ground arith)

-- the day of a session, in seconds
unix_within :
    (start now : Time) → now ≤ start + one_day → ltb_ℤ (unix (start + one_day)) (unix now) ≡ false
unfolding ◌-ℤ◌
unix_within start now h = ground arith

trim_prefix-append : (p s : String) → trim_prefix (append p s) p ≡ s
trim_prefix-append p s =
    ap (λ o. elim o [ none ↦ append p s | some r ↦ r ]) (strip_prefix-append p s)

let_through :
    (codec : Codec) (secret : String) (now : Time) (token : String) (s : Store) (c : Claims)
    (account : AdminUser)
    → verify_jwt codec secret now token ≡ ok c
    → lookup c.sub s.memory.admins ≡ some account
    → account.enabled ≡ true
    → (account.role == "super_admin") ≡ true
    → with_auth codec secret now (append "Bearer " token) s
      ≡ inl (record c { username = account.username; role = account.role })
unfolding with_auth
let_through codec secret now token s c account good known active super =
    rw (strip_prefix-append "Bearer " token, if◌then◌else◌)
      (ap (λ t. verified s (verify_jwt codec secret now t)) (trim_prefix-append "Bearer " token)
        ∙ (ap (verified s) good ∙ rw (known, active, super, if◌then◌else◌) refl))

-- A login of an enabled account with the right password gives a token with which every request is
-- let through for a day, as long as the account exists, is enabled, and is a super admin, and it is
-- let through under the account's present name; where the texts of the claims and of the MAC read
-- back and have no dot.
pub login-with_auth :
    (codec : Codec) (verify_password : String → String → Bool) (secret : String) (env : Env)
    (body : LoginRequest) (a account : AdminUser) (s later : Store) (now : Time)
    → Faithful codec (session_claims env a) (mac_of codec secret (session_claims env a))
    → find_admin_by_username body.username s ≡ some a
    → a.enabled ≡ true
    → verify_password body.password a.password_hash ≡ true
    → now ≤ env.now + one_day
    → lookup a.id later.memory.admins ≡ some account
    → account.enabled ≡ true
    → (account.role == "super_admin") ≡ true
    → (answer : LoginAnswer) × ((login codec verify_password secret env post (some body) s).1
        ≡ reply 200 answer)
      × (with_auth codec secret now (append "Bearer " answer.token) later
          ≡ inl
              (record (session_claims env a) { username = account.username; role = account.role }))
unfolding login with_auth
login-with_auth codec verify_password secret env body a account s later now faithful found enabled
      right soon known active super =
    (
      record {
        token = sign_jwt codec secret (session_claims env a);
        username = a.username;
        role = a.role;
      },
      rw (found, enabled, right, if◌then◌else◌) refl,
      let_through codec secret now (sign_jwt codec secret (session_claims env a)) later
          (session_claims env a) account
          (verify_jwt-sign_jwt codec secret (session_claims env a) now faithful
            (unix_within env.now now soon))
          known active super,
    )
