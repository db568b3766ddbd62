-- ===== src/Sessions/Handlers.antt =====
-- Login, the check of a session, and the change of a password (backend/internal/api/auth.go, and
-- `NewRouter` and `withAuth` of backend/internal/api/router.go).
use yuchen_panel.Common.{
  ℕ, ◌+◌, ◌*◌, String, Bool, true, not, ◌||◌, [], ◌∷◌, Option, none, some, ◌⊎◌, inl, inr, lookup,
  trim_space, trim_prefix, has_prefix, strip_prefix, bytes_of, length, ltb, contains, ◌==◌,
  if◌then◌else◌, Outcome, ok, err,
}
use yuchen_panel.Model.{AdminUser, Time}
use yuchen_panel.Http.{Method, post, Reply, error, reply, method_not_allowed, bad_request}
use yuchen_panel.Store.{
  Store, Env, find_admin_by_username, update_admin_login, change_admin_password, log_and_save,
}
use yuchen_panel.Sessions.Token.{Claims, Codec, unix, sign_jwt, verify_jwt}

-- the check of the secret in `NewRouter`
unfoldable pub accepts_secret : String → Bool
unfolding trim_space bytes_of contains
accepts_secret secret = not (
    ltb (length (bytes_of (trim_space secret))) 32
    || contains
        ("dev-secret-change-me" ∷ "change-me-please"
          ∷ "please-change-this-secret-before-public-deploy" ∷ [])
        secret)

pub record LoginRequest : Type 0 where
  pub username : String
  pub password : String

pub record LoginAnswer : Type 0 where
  pub token : String
  pub username : String
  pub role : String

abbrev pub one_day : ℕ
one_day = 24 * 60 * 60 * 1000000000

abbrev pub session_claims : Env → AdminUser → Claims
session_claims env a = record {
  sub = a.id;
  username = a.username;
  role = a.role;
  exp = unix (env.now + one_day);
}

module _ (codec : Codec) (verify_password : String → String → Bool) (secret : String) where
  abbrev pub login_as : Env → LoginRequest → Option AdminUser → Store → Store × Reply LoginAnswer
  login_as env body none s = (s, error 401 "invalid credentials")
  login_as env body (some a) s =
      if not a.enabled || not (verify_password body.password a.password_hash)
      then (s, error 401 "invalid credentials")
      else (
        update_admin_login env a.id s,
        reply 200 (record {
          token = sign_jwt codec secret (session_claims env a);
          username = a.username;
          role = a.role;
        }),
      )

  -- `login`
  unfoldable pub login : Env → Method → Option LoginRequest → Store → Store × Reply LoginAnswer
  unfolding find_admin_by_username update_admin_login sign_jwt
  login env post none s = (s, bad_request "invalid json")
  login env post (some body) s = login_as env body (find_admin_by_username body.username s) s
  login env _ body s = (s, method_not_allowed)

-- the claims that a handler gets, or the refusal
abbrev pub Session : Type 0
Session = Claims ⊎ (ℕ × String)

abbrev pub session_of : Claims → Option AdminUser → Session
session_of c none = inr (403, "account is unavailable or unauthorized")
session_of c (some a) =
    if not a.enabled || not (a.role == "super_admin")
    then inr (403, "account is unavailable or unauthorized")
    else inl (record c { username = a.username; role = a.role })

abbrev pub verified : Store → Outcome Claims → Session
verified s (err e) = inr (401, "invalid token")
verified s (ok c) = session_of c (lookup c.sub s.memory.admins)

-- `withAuth`, for the header Authorization
unfoldable pub with_auth : Codec → String → Time → String → Store → Session
unfolding verify_jwt lookup strip_prefix
with_auth codec secret now header s =
    if not (has_prefix header "Bearer ")
    then inr (401, "missing bearer token")
    else verified s (verify_jwt codec secret now (trim_prefix header "Bearer "))

module _ (verify_password : String → String → Bool) (hash_password : String → Option String) where
  abbrev pub password_changed : Env → Claims → Store × Outcome (Unit {0}) → Store × Reply Bool
  password_changed env c (s, err e) = (s, bad_request e)
  password_changed env c (s, ok done) = (
    log_and_save (record env { actor = c.username }) "admin.change_password" c.username s.memory s,
    reply 200 true,
  )

  -- `changePassword`, where the body is the old and the new password
  unfoldable pub change_password :
      Env → Claims → Method → Option (String × String) → Store → Store × Reply Bool
  unfolding change_admin_password log_and_save bytes_of
  change_password env c post none s = (s, bad_request "invalid json")
  change_password env c post (some (old_password, new_password)) s =
      if ltb (length (bytes_of new_password)) 8
      then (s, bad_request "new password must be at least 8 characters")
      else password_changed env c (
          change_admin_password verify_password hash_password env c.sub old_password new_password s)
  change_password env c _ body s = (s, method_not_allowed)
