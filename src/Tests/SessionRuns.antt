-- ===== src/Tests/SessionRuns.antt =====
-- A login and the requests of the day after it.
use yuchen_panel.Common.{
  ◌≡◌, refl, ℕ, ◌+◌, String, Bool, true, List, [], ◌∷◌, Option, none, some, inl, append, lookup,
  ◌==◌, if◌then◌else◌, arith,
}
use yuchen_panel.Model.{AdminUser}
use yuchen_panel.Http.{post, reply}
use yuchen_panel.Store.{Store, find_admin_by_username}
use yuchen_panel.Upgrades.Task.{all_chars}
use yuchen_panel.Sessions.Token.{Claims, Codec, unix}
use yuchen_panel.Sessions.Handlers.{
  LoginRequest, LoginAnswer, one_day, session_claims, login, with_auth,
}
use yuchen_panel.Sessions.Verified.{Faithful, mac_of}
use yuchen_panel.Sessions.Admitted.{login-with_auth}
use yuchen_panel.Sessions.Authorized.{Authorized, with_auth-Authorized}
use yuchen_panel.Tests.Data.{noon, env, panel, store}

abbrev admin : AdminUser
admin = record {
  id = "a1";
  username = "root";
  password_hash = "hash";
  role = "super_admin";
  enabled = true;
  last_login_ip = "";
  last_login_at = 0;
  created_at = noon;
}

abbrev with_admin : Store
with_admin = record store { memory = record panel { admins = ("a1", admin) ∷ [] } }

abbrev any_password : String → String → Bool
any_password password hash = true

abbrev id_text : Claims → String
id_text c = c.sub

abbrev root_of : String → Option Claims
root_of t =
    some
      (record { sub = t; username = "root"; role = "super_admin"; exp = unix (env.now + one_day) })

abbrev two_bytes : String → String → List ℕ
two_bytes text secret = 1 ∷ 2 ∷ []

abbrev bytes_text : List ℕ → String
bytes_text bytes = "AQI"

abbrev text_bytes : String → Option (List ℕ)
text_bytes t = if t == "AQI" then some (1 ∷ 2 ∷ []) else none

abbrev codec : Codec
codec = record {
  claims_text = id_text;
  read_claims = root_of;
  mac = two_bytes;
  mac_text = bytes_text;
  read_mac = text_bytes;
}

abbrev request : LoginRequest
request = record { username = "root"; password = "secret" }

codec-Faithful :
    Faithful codec (session_claims env admin) (mac_of codec "key" (session_claims env admin))
unfolding all_chars
codec-Faithful = record {
  claims_read = refl;
  claims_plain = refl;
  mac_read = refl;
  mac_plain = refl;
}

admin_found : find_admin_by_username "root" with_admin ≡ some admin
unfolding find_admin_by_username
admin_found = refl

admin_known : lookup "a1" with_admin.memory.admins ≡ some admin
unfolding lookup
admin_known = refl

-- what a login and a request a little later return
abbrev LetThrough : Type 0
LetThrough =
    (answer : LoginAnswer) × ((login codec any_password "key" env post (some request) with_admin).1
      ≡ reply 200 answer)
    × (with_auth codec "key" (noon + 1000) (append "Bearer " answer.token) with_admin
        ≡ inl (record (session_claims env admin) { username = "root"; role = "super_admin" }))

abbrev session : LetThrough
session =
    login-with_auth codec any_password "key" env request admin admin with_admin with_admin
      (noon + 1000) codec-Faithful admin_found refl refl (omega arith) admin_known refl refl

login-with_auth_example : LetThrough
login-with_auth_example =
    login-with_auth codec any_password "key" env request admin admin with_admin with_admin
      (noon + 1000) codec-Faithful admin_found refl refl (omega arith) admin_known refl refl

abbrev header : String
header = append "Bearer " session.0.token

abbrev root : Claims
root = record (session_claims env admin) { username = "root"; role = "super_admin" }

with_auth-Authorized_example : Authorized codec "key" (noon + 1000) header with_admin root
with_auth-Authorized_example =
    with_auth-Authorized codec "key" (noon + 1000) header with_admin root session.2
