-- ===== src/Store/State.antt =====
-- The store's state, `SaveLocked`, `normalize`, `AddLog`, and the administrators.
use yuchen_panel.Common.{
  String, Bool, false, not, Option, none, some, List, [], ◌∷◌, lookup, insert, map_values, values,
  ◌==◌, if◌then◌else◌, Outcome, ok, err,
}
use yuchen_panel.Model.{Time, AdminUser, PanelData}
use yuchen_panel.Store.Policy.{normalize_network_policy}

-- version.Version
abbrev pub panel_version : String
panel_version = "1.0.6"

pub record Store : Type 0 where
  pub memory : PanelData
  pub disk : Option PanelData

-- What a request reads from outside: the clock, the random identifiers, whether the file could be
-- written, and the values of the environment variables. The texts of fresh values follow the
-- names of the functions that draw them (`NewID`, `NewToken`, `NewPassword`, `NewUUID`).
pub record Env : Type 0 where
  pub now : Time
  pub new_id : String
  pub relay_id : String
  pub log_id : String
  pub server_id : String
  pub uuid : String
  pub token : String
  pub password : String
  pub server_token : String
  pub file_written : Bool
  pub mode_written : Bool
  pub getenv : String → String
  pub actor : String
  pub client_ip : String

-- `getenv(key, fallback)`
unfoldable pub getenv_or : Env → String → String → String
getenv_or env key fallback = let v = env.getenv key in if v == "" then fallback else v

-- a stored account with no password hash cannot log in
unfoldable pub disable_unhashed : AdminUser → AdminUser
disable_unhashed a = if a.password_hash == "" then record a { enabled = false } else a

unfoldable pub normalize : PanelData → PanelData
unfolding disable_unhashed normalize_network_policy map_values
normalize d = record d {
  network_policy = normalize_network_policy d.network_policy;
  network_policy_backup = normalize_network_policy d.network_policy_backup;
  admins = map_values disable_unhashed d.admins;
  version = panel_version;
}

-- `SaveLocked`: the data in memory is normalised also when the file cannot be written; the flag is
-- whether the write and the rename went through.
unfoldable pub save_locked : Bool → Store → Store × Bool
unfolding normalize
save_locked written s =
    let d = normalize s.memory in
    (record { memory = d; disk = if written then some d else s.disk }, written)

unfoldable pub add_log : Env → String → String → PanelData → PanelData
add_log env action detail d = record d {
  operation_logs =
      insert env.log_id
        (record {
          id = env.log_id;
          actor = env.actor;
          action = action;
          ip = env.client_ip;
          detail = detail;
          created_at = env.now;
        })
        d.operation_logs;
}

-- `AddLog` and then `_ = SaveLocked()`
unfoldable pub log_and_save : Env → String → String → PanelData → Store → Store
unfolding add_log save_locked
log_and_save env action detail d s =
    (save_locked env.file_written (record s { memory = add_log env action detail d })).0

find_admin : String → List AdminUser → Option AdminUser
find_admin username [] = none
find_admin username (a ∷ rest) = if a.username == username then some a else find_admin username rest

unfoldable pub find_admin_by_username : String → Store → Option AdminUser
unfolding find_admin values
find_admin_by_username username s = find_admin username (values s.memory.admins)

unfoldable pub update_admin_login : Env → String → Store → Store
unfolding save_locked
update_admin_login env id s = elim (lookup id s.memory.admins) [
  | none ↦ s
  | some a ↦
      let a' : AdminUser = record a { last_login_ip = env.client_ip; last_login_at = env.now } in
      (save_locked env.file_written
        (record s { memory = record (s.memory) { admins = insert id a' s.memory.admins } })).0
]

-- `security.VerifyPassword` and `security.HashPassword` are arguments; `none` is the random
-- source's error.
module _ (verify_password : String → String → Bool) (hash_password : String → Option String) where
  unfoldable pub change_admin_password :
      Env → String → String → String → Store → Store × Outcome (Unit {0})
  unfolding save_locked
  change_admin_password env admin_id old_password new_password s =
      elim (lookup admin_id s.memory.admins) [
        | none ↦ (s, err "admin not found")
        | some a ↦
            if not a.enabled
            then (s, err "admin not found")
            else if not (verify_password old_password a.password_hash)
            then (s, err "old password incorrect")
            else elim (hash_password new_password) [
              | none ↦ (s, err "random source failed")
              | some hash ↦
                  let a' : AdminUser = record a { password_hash = hash } in
                  let d : PanelData = record (s.memory) {
                    admins = insert admin_id a' s.memory.admins;
                  } in
                  let (s', saved) = save_locked env.file_written (record s { memory = d }) in
                  (s', if saved then ok tt else err "write failed")
            ]
      ]
