-- ===== src/Panel/ClientLinks.antt =====
-- Each handler of the clients keeps the bindings of the clients linked.
use yuchen_panel.Common.{
  ◌≡◌, refl, true, not, ◌&&◌, String, Map, some, lookup, insert, has_key, AllValues,
  AllValues-insert, AllValues-erase, AllValues-lookup, All-map_weaken, if◌then◌else◌, inl, inr,
  Bool-cases, Option-cases, Outcome-cases,
}
use yuchen_panel.Model.{Time, is_zero, after, Client, Node, RelayRoute, PanelData}
use yuchen_panel.Store.{Store, Env, normalize, save_locked, add_log, log_and_save}
use yuchen_panel.Traffic.{preserve_and_renew_billing, migrate_traffic}
use yuchen_panel.Clients.{
  validate_client, prepare_client, merge_client, create_client, update_client, delete_client,
  reset_token,
}
use yuchen_panel.Clients.Bindings.{IsFixedExit, IsValidClient, validate_client-IsValidClient}
use yuchen_panel.Panel.Links.{ClientLinked, IsLinked}

IsFixedExit-has_key : (rs : Map RelayRoute) (id : String) → IsFixedExit rs id → has_key id rs ≡ true
IsFixedExit-has_key rs id (r, f, k) = rw (has_key, f) refl

-- what validation checks is that the client is linked
pub valid-ClientLinked :
    (d : PanelData) (c : Client) → IsValidClient d c → ClientLinked d.nodes d.relay_routes c
valid-ClientLinked d c v = (
  v.nodes_exist,
  All-map_weaken (IsFixedExit d.relay_routes) (λ id. has_key id d.relay_routes ≡ true)
      c.relay_route_ids (IsFixedExit-has_key d.relay_routes) v.relays_exist,
)

pub create_client-IsLinked :
    (env : Env) (body : Client) (s : Store)
    → IsLinked s.memory
    → IsLinked (create_client env body s).0.memory
unfolding create_client log_and_save add_log save_locked normalize
create_client-IsLinked env body s h =
    elim (Outcome-cases (validate_client s.memory (prepare_client env body))) [
      | inl (c, q) ↦
          rw (create_client, q)
            (AllValues-insert (ClientLinked s.memory.nodes s.memory.relay_routes) c.id c
              s.memory.clients
              (valid-ClientLinked s.memory c (validate_client-IsValidClient s.memory _ c q)) h)
      | inr (e, q) ↦ rw (create_client, q) h
    ]

pub delete_client-IsLinked :
    (env : Env) (id : String) (s : Store)
    → IsLinked s.memory
    → IsLinked (delete_client env id s).0.memory
unfolding delete_client log_and_save add_log save_locked normalize
delete_client-IsLinked env id s h =
    AllValues-erase (ClientLinked s.memory.nodes s.memory.relay_routes) id s.memory.clients h

pub reset_token-IsLinked :
    (env : Env) (id : String) (s : Store)
    → IsLinked s.memory
    → IsLinked (reset_token env id s).0.memory
unfolding reset_token log_and_save add_log save_locked normalize
reset_token-IsLinked env id s h = elim (Option-cases (lookup id s.memory.clients)) [
  | inl gone ↦ rw (reset_token, gone) h
  | inr (item, found) ↦
      rw (reset_token, found)
        (AllValues-insert (ClientLinked s.memory.nodes s.memory.relay_routes) id _ s.memory.clients
          (AllValues-lookup (ClientLinked s.memory.nodes s.memory.relay_routes) id s.memory.clients
            h found)
          h)
]

renewal-ClientLinked :
    (ns : Map Node) (rs : Map RelayRoute) (body old : Client) (now : Time)
    → ClientLinked ns rs body
    → ClientLinked ns rs (preserve_and_renew_billing body old now)
unfolding preserve_and_renew_billing
renewal-ClientLinked ns rs body old now h =
    elim (Bool-cases (
      not (is_zero (migrate_traffic old).expire_at)
      && after body.expire_at (migrate_traffic old).expire_at)) [
        | inl e ↦ rw (preserve_and_renew_billing, e, if◌then◌else◌) h
        | inr e ↦ rw (preserve_and_renew_billing, e, if◌then◌else◌) h
      ]

pub update_client-IsLinked :
    (env : Env) (id : String) (item body : Client) (s : Store)
    → lookup id s.memory.clients ≡ some item
    → IsLinked s.memory
    → IsLinked (update_client env id item body s).0.memory
unfolding update_client add_log save_locked normalize
update_client-IsLinked env id item body s found h =
    let P = ClientLinked s.memory.nodes s.memory.relay_routes in
    elim (Outcome-cases (validate_client s.memory (merge_client env id item body))) [
      | inr (e, q) ↦ rw (update_client, q) h
      | inl (c, q) ↦
          let updated : AllValues P
              (insert id (preserve_and_renew_billing c item env.now) s.memory.clients) =
            AllValues-insert P id _ s.memory.clients
              (renewal-ClientLinked s.memory.nodes s.memory.relay_routes c item env.now
                (valid-ClientLinked s.memory c (validate_client-IsValidClient s.memory _ c q)))
              h in
          elim (Bool-cases env.file_written) [
            | inl w ↦ rw (update_client, q, w, if◌then◌else◌) updated
            | inr w ↦
                rw (update_client, q, w, if◌then◌else◌)
                  (AllValues-insert P id item _ (AllValues-lookup P id s.memory.clients h found)
                    updated)
          ]
    ]
