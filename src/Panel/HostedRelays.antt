-- ===== src/Panel/HostedRelays.antt =====
-- The handlers of the relay routes leave every inbound with its server.
use yuchen_panel.Common.{
  String, not, ◌||◌, Option, none, some, trim_space, ◌==◌, if◌then◌else◌, inl, inr, Bool-cases,
  Outcome-cases,
}
use yuchen_panel.Model.{Time, RelayRoute, LandingExit}
use yuchen_panel.Store.{Store, Env, normalize, save_locked, add_log, log_and_save}
use yuchen_panel.Nodes.{Keys, or_text}
use yuchen_panel.Relays.{
  trim_relay, normalize_relay, create_relay, update_relay, delete_relay, CreateClientRelayRequest,
  check_relay_request, check_relay_place, store_exit_client, create_client_with_relay,
}
use yuchen_panel.Servers.Hosting.{IsHosted, ensure_single_mode_locked-IsHosted}

normalize_relay-IsHosted :
    (env : Env) (keys : Keys) (body : RelayRoute) (id : String) (s : Store)
    → IsHosted s.memory
    → IsHosted (normalize_relay env keys body id s).0.memory
unfolding normalize_relay
normalize_relay-IsHosted env keys body id s h =
    let mode = or_text (trim_relay body).route_mode "tcp_forward" in
    elim (Bool-cases ((trim_relay body).name == "")) [
      | inl e ↦ rw (normalize_relay, e, if◌then◌else◌) h
      | inr e ↦ elim (Bool-cases (not (mode == "tcp_forward" || mode == "socks5_route"))) [
        | inl m ↦ rw (normalize_relay, e, m, if◌then◌else◌) h
        | inr m ↦ elim (Bool-cases ((trim_relay body).relay_server_id == "")) [
          | inl t ↦
              rw (normalize_relay, e, m, t, if◌then◌else◌)
                (ensure_single_mode_locked-IsHosted env s h)
          | inr t ↦ rw (normalize_relay, e, m, t, if◌then◌else◌) h
        ]
      ]
    ]

pub create_relay-IsHosted :
    (keys : Keys) (env : Env) (body : RelayRoute) (s : Store)
    → IsHosted s.memory
    → IsHosted (create_relay env keys body s).0.memory
unfolding create_relay log_and_save add_log save_locked normalize
create_relay-IsHosted keys env body s h =
    let settled = normalize_relay-IsHosted env keys body "" s h in
    elim (Outcome-cases (normalize_relay env keys body "" s).1) [
      | inl (r, q) ↦ rw (create_relay, q) settled
      | inr (e, q) ↦ rw (create_relay, q) settled
    ]

pub update_relay-IsHosted :
    (keys : Keys) (env : Env) (id : String) (item body : RelayRoute) (s : Store)
    → IsHosted s.memory
    → IsHosted (update_relay env keys id item body s).0.memory
unfolding update_relay log_and_save add_log save_locked normalize
update_relay-IsHosted keys env id item body s h =
    let settled = normalize_relay-IsHosted env keys body id s h in
    elim (Outcome-cases (normalize_relay env keys body id s).1) [
      | inl (r, q) ↦ rw (update_relay, q) settled
      | inr (e, q) ↦ rw (update_relay, q) settled
    ]

pub delete_relay-IsHosted :
    (env : Env) (id : String) (s : Store)
    → IsHosted s.memory
    → IsHosted (delete_relay env id s).0.memory
unfolding delete_relay log_and_save add_log save_locked normalize
delete_relay-IsHosted env id s h = h

store_exit_client-IsHosted :
    (parse_time : String → Option Time) (env : Env) (keys : Keys) (body : CreateClientRelayRequest)
    (landing : LandingExit) (server_id : String) (s : Store)
    → IsHosted s.memory
    → IsHosted (store_exit_client parse_time env keys body landing server_id s).0.memory
unfolding store_exit_client log_and_save add_log save_locked normalize
store_exit_client-IsHosted parse_time env keys body landing server_id s h =
    elim (Outcome-cases (check_relay_place s.memory server_id body)) [
      | inr (e, q) ↦ rw (store_exit_client, q) h
      | inl (host, q) ↦ elim (Outcome-cases keys.new_keys) [
        | inr (e, k) ↦ rw (store_exit_client, q, k) h
        | inl (pair, k) ↦ rw (store_exit_client, q, k) h
      ]
    ]

pub create_client_with_relay-IsHosted :
    (parse_time : String → Option Time) (keys : Keys) (env : Env)
    (body : Option CreateClientRelayRequest) (s : Store)
    → IsHosted s.memory
    → IsHosted (create_client_with_relay parse_time env keys body s).0.memory
unfolding create_client_with_relay
create_client_with_relay-IsHosted parse_time keys env none s h = h
create_client_with_relay-IsHosted parse_time keys env (some body) s h =
    elim (Outcome-cases (check_relay_request s.memory body)) [
      | inr (e, q) ↦ rw (create_client_with_relay, q) h
      | inl (landing, q) ↦ elim (Bool-cases (trim_space body.relay_server_id == "")) [
        | inl t ↦
            rw (create_client_with_relay, q, t, if◌then◌else◌)
              (store_exit_client-IsHosted parse_time env keys body landing _ _
                (ensure_single_mode_locked-IsHosted env s h))
        | inr t ↦
            rw (create_client_with_relay, q, t, if◌then◌else◌)
              (store_exit_client-IsHosted parse_time env keys body landing _ s h)
      ]
    ]
