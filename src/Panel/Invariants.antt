-- ===== src/Panel/Invariants.antt =====
-- What every sequence of requests keeps: clients are bound to what exists, and inbounds have
-- their servers.
use yuchen_panel.Common.{String, Option, List, Bool-cases, inl, inr, leb, length, if◌then◌else◌}
use yuchen_panel.Model.{Time}
use yuchen_panel.Store.{Store, Env, normalize, add_log, save_locked, log_and_save}
use yuchen_panel.Servers.{create_server, update_server, delete_server, has_nodes}
use yuchen_panel.Nodes.{Keys}
use yuchen_panel.Servers.Hosting.{IsHosted}
use yuchen_panel.Panel.Links.{IsLinked, ensure_single_mode_locked-IsLinked}
use yuchen_panel.Panel.ClientLinks.{
  create_client-IsLinked, update_client-IsLinked, delete_client-IsLinked, reset_token-IsLinked,
}
use yuchen_panel.Panel.NodeLinks.{create_node-IsLinked, update_node-IsLinked, delete_node-IsLinked}
use yuchen_panel.Panel.RelayLinks.{
  create_relay-IsLinked, update_relay-IsLinked, delete_relay-IsLinked,
  create_client_with_relay-IsLinked,
}
use yuchen_panel.Panel.TrafficLinks.{save_heartbeat-IsLinked}
use yuchen_panel.Panel.Hosted.{IsHosted-Keeps}
use yuchen_panel.Panel.Interface.{Keeps}
use yuchen_panel.Panel.Router.{Request, run}
use yuchen_panel.Panel.Dispatch.{run-kept}

delete_server-IsLinked :
    (env : Env) (id : String) (s : Store)
    → IsLinked s.memory
    → IsLinked (delete_server env id s).0.memory
unfolding delete_server log_and_save add_log save_locked normalize
delete_server-IsLinked env id s h = elim (Bool-cases (leb (length s.memory.servers) 1)) [
  | inl e ↦ rw (delete_server, e, if◌then◌else◌) h
  | inr e ↦ elim (Bool-cases (has_nodes id s.memory.nodes)) [
    | inl t ↦ rw (delete_server, e, t, if◌then◌else◌) h
    | inr t ↦ rw (delete_server, e, t, if◌then◌else◌) h
  ]
]

IsLinked-Keeps : (parse_time : String → Option Time) (keys : Keys) → Keeps parse_time keys IsLinked
unfolding normalize add_log create_server update_server log_and_save save_locked
IsLinked-Keeps parse_time keys = record {
  saved = λ d h. h;
  logged = λ env action detail d h. h;
  exits = λ d m h. h;
  settles = ensure_single_mode_locked-IsLinked;
  creates_client = create_client-IsLinked;
  updates_client = update_client-IsLinked;
  deletes_client = delete_client-IsLinked;
  resets_token = reset_token-IsLinked;
  creates_with_relay =
      λ env body s h. create_client_with_relay-IsLinked parse_time env keys body s h;
  creates_node = λ env body s h. create_node-IsLinked env keys body s h;
  updates_node = λ env id item body s h. update_node-IsLinked env keys id item body s h;
  deletes_node = delete_node-IsLinked;
  creates_relay = λ env body s h. create_relay-IsLinked env keys body s h;
  updates_relay = λ env id item body s h. update_relay-IsLinked env keys id item body s h;
  deletes_relay = delete_relay-IsLinked;
  creates_server = λ env body s h. h;
  updates_server = λ env id item body s h. h;
  deletes_server = delete_server-IsLinked;
  beats = save_heartbeat-IsLinked;
}

-- Whatever the methods, the paths and the bodies of the requests, and whether or not the file can
-- be written, they leave every client bound only to nodes and relays that exist.
pub run-IsLinked :
    (sha256_hex : String → String) (parse_time : String → Option Time) (keys : Keys)
    (requests : List (Env × Request)) (s : Store)
    → IsLinked s.memory
    → IsLinked (run sha256_hex parse_time keys requests s).memory
run-IsLinked sha256_hex parse_time keys =
    run-kept sha256_hex parse_time keys IsLinked (IsLinked-Keeps parse_time keys)

-- They leave every inbound with a server that exists, also where the local servers are merged.
pub run-IsHosted :
    (sha256_hex : String → String) (parse_time : String → Option Time) (keys : Keys)
    (requests : List (Env × Request)) (s : Store)
    → IsHosted s.memory
    → IsHosted (run sha256_hex parse_time keys requests s).memory
run-IsHosted sha256_hex parse_time keys =
    run-kept sha256_hex parse_time keys IsHosted (IsHosted-Keeps parse_time keys)
