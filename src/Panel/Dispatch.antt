-- ===== src/Panel/Dispatch.antt =====
-- A property that the handlers keep is kept by every sequence of requests.
use yuchen_panel.Common.{
  String, List, [], ◌∷◌, Option, none, some, lookup, if◌then◌else◌, inl, inr, Bool-cases,
  Option-cases, Outcome-cases,
}
use yuchen_panel.Model.{Time, LandingExit, AgentHeartbeat, PanelData}
use yuchen_panel.Http.{Method, get, post, put, delete, other}
use yuchen_panel.Store.{Store, Env, save_locked, log_and_save}
use yuchen_panel.Nodes.{Keys}
use yuchen_panel.Exits.{
  landing_exits, exit_request, create_exit, update_exit, delete_exit, exit_in_use,
  normalize_landing_exit,
}
use yuchen_panel.Agent.{agent_heartbeat, validate_agent_token}
use yuchen_panel.Panel.Router.{
  Request, clients_request, client_request_by_id, nodes_request, node_request_by_id, relays_request,
  relay_request_by_id, servers_request, server_request_by_id, exits_request, exit_request_by_id,
  heartbeat_request, serve, run,
}
use yuchen_panel.Panel.Interface.{Keeps}
use yuchen_panel.Panel.DispatchClients.{clients-kept, client_by_id-kept}
use yuchen_panel.Panel.DispatchPlaces.{
  nodes-kept, node_by_id-kept, relays-kept, relay_by_id-kept, servers-kept, server_by_id-kept,
}

module _ (sha256_hex : String → String) (parse_time : String → Option Time) (keys : Keys)
    (I : PanelData → Type 0) (k : Keeps parse_time keys I) where
  log_and_save-kept :
      (env : Env) (action detail : String) (d : PanelData) (s : Store)
      → I d
      → I (log_and_save env action detail d s).memory
  unfolding log_and_save save_locked
  log_and_save-kept env action detail d s h = k.saved _ (k.logged env action detail d h)

  create_exit-kept :
      (env : Env) (body : LandingExit) (s : Store)
      → I s.memory
      → I (create_exit env body s).0.memory
  unfolding create_exit
  create_exit-kept env body s h = elim (Outcome-cases (normalize_landing_exit body)) [
    | inl (e, q) ↦ rw (create_exit, q) (log_and_save-kept env _ _ _ s (k.exits s.memory _ h))
    | inr (e, q) ↦ rw (create_exit, q) h
  ]

  exits-kept :
      (env : Env) (m : Method) (body : Option LandingExit) (s : Store)
      → I s.memory
      → I (landing_exits env m body s).0.memory
  unfolding landing_exits
  exits-kept env get body s h = h
  exits-kept env post none s h = h
  exits-kept env post (some body) s h = create_exit-kept env body s h
  exits-kept env put body s h = h
  exits-kept env delete body s h = h
  exits-kept env other body s h = h

  exit_request-kept :
      (env : Env) (m : Method) (body : Option LandingExit) (id : String) (item : LandingExit)
      (s : Store)
      → I s.memory
      → I (exit_request env m body id item s).0.memory
  unfolding exit_request update_exit delete_exit
  exit_request-kept env get body id item s h = h
  exit_request-kept env put none id item s h = h
  exit_request-kept env put (some body) id item s h =
      elim (Outcome-cases (normalize_landing_exit body)) [
        | inl (e, q) ↦ rw (update_exit, q) (log_and_save-kept env _ _ _ s (k.exits s.memory _ h))
        | inr (e, q) ↦ rw (update_exit, q) h
      ]
  exit_request-kept env delete body id item s h =
      elim (Bool-cases (exit_in_use item s.memory.relay_routes)) [
        | inl e ↦ rw (delete_exit, e, if◌then◌else◌) h
        | inr e ↦
            rw (delete_exit, e, if◌then◌else◌)
              (log_and_save-kept env _ _ _ s (k.exits s.memory _ h))
      ]
  exit_request-kept env post body id item s h = h
  exit_request-kept env other body id item s h = h

  heartbeat-kept :
      (env : Env) (m : Method) (token : String) (body : Option AgentHeartbeat) (s : Store)
      → I s.memory
      → I (agent_heartbeat env m token body s).0.memory
  unfolding agent_heartbeat
  heartbeat-kept env get token body s h = h
  heartbeat-kept env put token body s h = h
  heartbeat-kept env delete token body s h = h
  heartbeat-kept env other token body s h = h
  heartbeat-kept env post token none s h = h
  heartbeat-kept env post token (some hb) s h =
      elim (Option-cases (validate_agent_token s.memory.servers token hb.server_id)) [
        | inl pass ↦ rw (agent_heartbeat, pass) (k.beats env hb s h)
        | inr (refusal, e) ↦ rw (agent_heartbeat, e) h
      ]

  pub serve-kept :
      (env : Env) (request : Request) (s : Store)
      → I s.memory
      → I (serve sha256_hex parse_time keys env request s).memory
  unfolding serve
  serve-kept env (clients_request m body) s h =
      clients-kept sha256_hex parse_time keys I k env m body s h
  serve-kept env (client_request_by_id m rest body relay) s h =
      client_by_id-kept sha256_hex parse_time keys I k env m rest body relay s h
  serve-kept env (nodes_request m body) s h =
      nodes-kept sha256_hex parse_time keys I k env m body s h
  serve-kept env (node_request_by_id m id body) s h =
      node_by_id-kept sha256_hex parse_time keys I k env m id body s h
  serve-kept env (relays_request m body) s h =
      relays-kept sha256_hex parse_time keys I k env m body s h
  serve-kept env (relay_request_by_id m id body) s h =
      relay_by_id-kept sha256_hex parse_time keys I k env m id body s h
  serve-kept env (servers_request m body) s h =
      servers-kept sha256_hex parse_time keys I k env m body s h
  serve-kept env (server_request_by_id m id body) s h =
      server_by_id-kept sha256_hex parse_time keys I k env m id body s h
  serve-kept env (exits_request m body) s h = exits-kept env m body s h
  serve-kept env (exit_request_by_id m id body) s h =
      elim (Option-cases (lookup id s.memory.landing_exits)) [
        | inl gone ↦ rw (serve, gone) h
        | inr (item, found) ↦ rw (serve, found) (exit_request-kept env m body id item s h)
      ]
  serve-kept env (heartbeat_request m token body) s h = heartbeat-kept env m token body s h

  pub run-kept :
      (requests : List (Env × Request)) (s : Store)
      → I s.memory
      → I (run sha256_hex parse_time keys requests s).memory
  unfolding run
  run-kept [] s h = h
  run-kept ((env, request) ∷ rest) s h =
      run-kept rest (serve sha256_hex parse_time keys env request s) (serve-kept env request s h)
