-- ===== src/Panel/HostedClients.antt =====
-- The handlers of the clients leave every inbound with its server.
use yuchen_panel.Common.{
  ◌≡◌, String, some, lookup, if◌then◌else◌, inl, inr, Bool-cases, Option-cases, Outcome-cases,
}
use yuchen_panel.Model.{Client}
use yuchen_panel.Store.{Store, Env, normalize, save_locked, add_log, log_and_save}
use yuchen_panel.Clients.{
  validate_client, prepare_client, merge_client, create_client, update_client, delete_client,
  reset_token,
}
use yuchen_panel.Servers.Hosting.{IsHosted}

pub create_client-IsHosted :
    (env : Env) (body : Client) (s : Store)
    → IsHosted s.memory
    → IsHosted (create_client env body s).0.memory
unfolding create_client log_and_save add_log save_locked normalize
create_client-IsHosted env body s h =
    elim (Outcome-cases (validate_client s.memory (prepare_client env body))) [
      | inl (c, q) ↦ rw (create_client, q) h
      | inr (e, q) ↦ rw (create_client, q) h
    ]

pub update_client-IsHosted :
    (env : Env) (id : String) (item body : Client) (s : Store)
    → lookup id s.memory.clients ≡ some item
    → IsHosted s.memory
    → IsHosted (update_client env id item body s).0.memory
unfolding update_client add_log save_locked normalize
update_client-IsHosted env id item body s found h =
    elim (Outcome-cases (validate_client s.memory (merge_client env id item body))) [
      | inr (e, q) ↦ rw (update_client, q) h
      | inl (c, q) ↦ elim (Bool-cases env.file_written) [
        | inl w ↦ rw (update_client, q, w, if◌then◌else◌) h
        | inr w ↦ rw (update_client, q, w, if◌then◌else◌) h
      ]
    ]

pub delete_client-IsHosted :
    (env : Env) (id : String) (s : Store)
    → IsHosted s.memory
    → IsHosted (delete_client env id s).0.memory
unfolding delete_client log_and_save add_log save_locked normalize
delete_client-IsHosted env id s h = h

pub reset_token-IsHosted :
    (env : Env) (id : String) (s : Store)
    → IsHosted s.memory
    → IsHosted (reset_token env id s).0.memory
unfolding reset_token log_and_save add_log save_locked normalize
reset_token-IsHosted env id s h = elim (Option-cases (lookup id s.memory.clients)) [
  | inl gone ↦ rw (reset_token, gone) h
  | inr (item, found) ↦ rw (reset_token, found) h
]
