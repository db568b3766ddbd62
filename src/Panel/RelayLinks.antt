-- ===== src/Panel/RelayLinks.antt =====
-- The handlers of the relay routes keep the bindings of the clients linked, and so does the one
-- that creates a client together with its route.
use yuchen_panel.Common.{
  not, ◌||◌, String, Option, none, some, insert, trim_space, AllValues, AllValues-insert,
  AllValues-map_values, ◌==◌, if◌then◌else◌, inl, inr, Bool-cases, Outcome-cases,
}
use yuchen_panel.Model.{Time, LandingExit, RelayRoute}
use yuchen_panel.Store.{Store, Env, normalize, save_locked, add_log, log_and_save}
use yuchen_panel.Nodes.{Keys, or_text}
use yuchen_panel.Relays.{
  normalize_relay, trim_relay, create_relay, update_relay, delete_relay, unbind_relay,
  CreateClientRelayRequest, check_relay_request, check_relay_place, store_exit_client,
  create_client_with_relay, exit_relay, exit_client,
}
use yuchen_panel.Panel.Links.{
  ClientLinked, IsLinked, has_key-insert, has_key-insert_self, ClientLinked-mono, AllValues-weaken,
  ensure_single_mode_locked-IsLinked,
}
use yuchen_panel.Panel.NodeLinks.{kept-has_key}

-- a new route under any key loses no binding
AllValues-insert_relay :
    (id : String) (r : RelayRoute) (s : Store)
    → IsLinked s.memory
    → AllValues (ClientLinked s.memory.nodes (insert id r s.memory.relay_routes)) s.memory.clients
AllValues-insert_relay id r s h =
    AllValues-weaken _ _ s.memory.clients
      (λ c l.
        ClientLinked-mono s.memory.nodes _ s.memory.relay_routes _ c (λ j k. k)
          (λ j k. has_key-insert id j r s.memory.relay_routes k) l)
      h

normalize_relay-IsLinked :
    (env : Env) (keys : Keys) (body : RelayRoute) (id : String) (s : Store)
    → IsLinked s.memory
    → IsLinked (normalize_relay env keys body id s).0.memory
unfolding normalize_relay
normalize_relay-IsLinked env keys body id s h =
    let mode = or_text (trim_relay body).route_mode "tcp_forward" in
    elim (Bool-cases ((trim_relay body).name == "")) [
      | inl e ↦ rw (normalize_relay, e, if◌then◌else◌) h
      | inr e ↦ elim (Bool-cases (not (mode == "tcp_forward" || mode == "socks5_route"))) [
        | inl m ↦ rw (normalize_relay, e, m, if◌then◌else◌) h
        | inr m ↦ elim (Bool-cases ((trim_relay body).relay_server_id == "")) [
          | inl t ↦
              rw (normalize_relay, e, m, t, if◌then◌else◌)
                (ensure_single_mode_locked-IsLinked env s h)
          | inr t ↦ rw (normalize_relay, e, m, t, if◌then◌else◌) h
        ]
      ]
    ]

pub create_relay-IsLinked :
    (env : Env) (keys : Keys) (body : RelayRoute) (s : Store)
    → IsLinked s.memory
    → IsLinked (create_relay env keys body s).0.memory
unfolding create_relay log_and_save add_log save_locked normalize
create_relay-IsLinked env keys body s h =
    let settled = normalize_relay-IsLinked env keys body "" s h in
    elim (Outcome-cases (normalize_relay env keys body "" s).1) [
      | inl (r, q) ↦
          rw (create_relay, q)
            (AllValues-insert_relay env.new_id _ (normalize_relay env keys body "" s).0 settled)
      | inr (e, q) ↦ rw (create_relay, q) settled
    ]

pub update_relay-IsLinked :
    (env : Env) (keys : Keys) (id : String) (item body : RelayRoute) (s : Store)
    → IsLinked s.memory
    → IsLinked (update_relay env keys id item body s).0.memory
unfolding update_relay log_and_save add_log save_locked normalize
update_relay-IsLinked env keys id item body s h =
    let settled = normalize_relay-IsLinked env keys body id s h in
    elim (Outcome-cases (normalize_relay env keys body id s).1) [
      | inl (r, q) ↦
          rw (update_relay, q)
            (AllValues-insert_relay id _ (normalize_relay env keys body id s).0 settled)
      | inr (e, q) ↦ rw (update_relay, q) settled
    ]

pub delete_relay-IsLinked :
    (env : Env) (id : String) (s : Store)
    → IsLinked s.memory
    → IsLinked (delete_relay env id s).0.memory
unfolding delete_relay unbind_relay log_and_save add_log save_locked normalize
delete_relay-IsLinked env id s h =
    AllValues-map_values (ClientLinked s.memory.nodes s.memory.relay_routes) _ (unbind_relay id)
      s.memory.clients (λ c l. (l.0, kept-has_key id s.memory.relay_routes c.relay_route_ids l.1)) h

-- the new client is bound to the route that is stored with it
store_exit_client-IsLinked :
    (parse_time : String → Option Time) (env : Env) (keys : Keys) (body : CreateClientRelayRequest)
    (landing : LandingExit) (server_id : String) (s : Store)
    → IsLinked s.memory
    → IsLinked (store_exit_client parse_time env keys body landing server_id s).0.memory
unfolding store_exit_client exit_client exit_relay log_and_save add_log save_locked normalize
store_exit_client-IsLinked parse_time env keys body landing server_id s h =
    elim (Outcome-cases (check_relay_place s.memory server_id body)) [
      | inr (e, q) ↦ rw (store_exit_client, q) h
      | inl (host, q) ↦ elim (Outcome-cases keys.new_keys) [
        | inr (e, k) ↦ rw (store_exit_client, q, k) h
        | inl (pair, k) ↦
            let r = exit_relay env keys body landing server_id host pair in
            rw (store_exit_client, q, k)
              (AllValues-insert
                (ClientLinked s.memory.nodes (insert env.relay_id r s.memory.relay_routes))
                env.new_id _ s.memory.clients
                (tt, (has_key-insert_self env.relay_id r s.memory.relay_routes, tt))
                (AllValues-insert_relay env.relay_id r s h))
      ]
    ]

pub create_client_with_relay-IsLinked :
    (parse_time : String → Option Time) (env : Env) (keys : Keys)
    (body : Option CreateClientRelayRequest) (s : Store)
    → IsLinked s.memory
    → IsLinked (create_client_with_relay parse_time env keys body s).0.memory
unfolding create_client_with_relay
create_client_with_relay-IsLinked parse_time env keys none s h = h
create_client_with_relay-IsLinked parse_time env keys (some body) s h =
    elim (Outcome-cases (check_relay_request s.memory body)) [
      | inr (e, q) ↦ rw (create_client_with_relay, q) h
      | inl (landing, q) ↦ elim (Bool-cases (trim_space body.relay_server_id == "")) [
        | inl t ↦
            rw (create_client_with_relay, q, t, if◌then◌else◌)
              (store_exit_client-IsLinked parse_time env keys body landing _ _
                (ensure_single_mode_locked-IsLinked env s h))
        | inr t ↦
            rw (create_client_with_relay, q, t, if◌then◌else◌)
              (store_exit_client-IsLinked parse_time env keys body landing _ s h)
      ]
    ]
