-- ===== src/Panel/DispatchPlaces.antt =====
-- The same for the requests for nodes, relay routes and servers.
use yuchen_panel.Common.{
  String, Option, none, some, lookup, ◌==◌, if◌then◌else◌, inl, inr, Bool-cases, Option-cases,
}
use yuchen_panel.Model.{Time, Server, Node, RelayRoute, PanelData}
use yuchen_panel.Http.{Method, get, post, put, delete, other}
use yuchen_panel.Store.{Store, Env}
use yuchen_panel.Nodes.{Keys, nodes, node_by_id, node_request}
use yuchen_panel.Relays.{relays, relay_by_id, relay_request}
use yuchen_panel.Servers.{servers, server_by_id, server_request}
use yuchen_panel.Panel.Interface.{Keeps}

module _ (sha256_hex : String → String) (parse_time : String → Option Time) (keys : Keys)
    (I : PanelData → Type 0) (k : Keeps parse_time keys I) where
  pub nodes-kept :
      (env : Env) (m : Method) (body : Option Node) (s : Store)
      → I s.memory
      → I (nodes env keys m body s).0.memory
  unfolding nodes
  nodes-kept env get body s h = k.settles env s h
  nodes-kept env post none s h = h
  nodes-kept env post (some body) s h = k.creates_node env body s h
  nodes-kept env put body s h = h
  nodes-kept env delete body s h = h
  nodes-kept env other body s h = h

  node_request-kept :
      (env : Env) (m : Method) (body : Option Node) (id : String) (item : Node) (s : Store)
      → I s.memory
      → I (node_request env keys m body id item s).0.memory
  unfolding node_request
  node_request-kept env get body id item s h = h
  node_request-kept env put none id item s h = h
  node_request-kept env put (some body) id item s h = k.updates_node env id item body s h
  node_request-kept env delete body id item s h = k.deletes_node env id s h
  node_request-kept env post body id item s h = h
  node_request-kept env other body id item s h = h

  pub node_by_id-kept :
      (env : Env) (m : Method) (id : String) (body : Option Node) (s : Store)
      → I s.memory
      → I (node_by_id env keys m id body s).0.memory
  unfolding node_by_id
  node_by_id-kept env m id body s h = elim (Option-cases (lookup id s.memory.nodes)) [
    | inl gone ↦ rw (node_by_id, gone) h
    | inr (item, found) ↦ rw (node_by_id, found) (node_request-kept env m body id item s h)
  ]

  pub relays-kept :
      (env : Env) (m : Method) (body : Option RelayRoute) (s : Store)
      → I s.memory
      → I (relays env keys m body s).0.memory
  unfolding relays
  relays-kept env get body s h = h
  relays-kept env post none s h = h
  relays-kept env post (some body) s h = k.creates_relay env body s h
  relays-kept env put body s h = h
  relays-kept env delete body s h = h
  relays-kept env other body s h = h

  relay_request-kept :
      (env : Env) (m : Method) (body : Option RelayRoute) (id : String) (item : RelayRoute)
      (s : Store)
      → I s.memory
      → I (relay_request env keys m body id item s).0.memory
  unfolding relay_request
  relay_request-kept env get body id item s h = h
  relay_request-kept env put none id item s h = h
  relay_request-kept env put (some body) id item s h = k.updates_relay env id item body s h
  relay_request-kept env delete body id item s h = k.deletes_relay env id s h
  relay_request-kept env post body id item s h = h
  relay_request-kept env other body id item s h = h

  pub relay_by_id-kept :
      (env : Env) (m : Method) (id : String) (body : Option RelayRoute) (s : Store)
      → I s.memory
      → I (relay_by_id env keys m id body s).0.memory
  unfolding relay_by_id
  relay_by_id-kept env m id body s h = elim (Bool-cases (id == "")) [
    | inl e ↦ rw (relay_by_id, e, if◌then◌else◌) h
    | inr e ↦ elim (Option-cases (lookup id s.memory.relay_routes)) [
      | inl gone ↦ rw (relay_by_id, e, gone, if◌then◌else◌) h
      | inr (item, found) ↦
          rw (relay_by_id, e, found, if◌then◌else◌) (relay_request-kept env m body id item s h)
    ]
  ]

  pub servers-kept :
      (env : Env) (m : Method) (body : Option Server) (s : Store)
      → I s.memory
      → I (servers env m body s).0.memory
  unfolding servers
  servers-kept env get body s h = k.settles env s h
  servers-kept env post none s h = h
  servers-kept env post (some body) s h = k.creates_server env body s h
  servers-kept env put body s h = h
  servers-kept env delete body s h = h
  servers-kept env other body s h = h

  server_request-kept :
      (env : Env) (m : Method) (body : Option Server) (id : String) (item : Server) (s : Store)
      → I s.memory
      → I (server_request env m body id item s).0.memory
  unfolding server_request
  server_request-kept env get body id item s h = h
  server_request-kept env put none id item s h = h
  server_request-kept env put (some body) id item s h = k.updates_server env id item body s h
  server_request-kept env delete body id item s h = k.deletes_server env id s h
  server_request-kept env post body id item s h = h
  server_request-kept env other body id item s h = h

  pub server_by_id-kept :
      (env : Env) (m : Method) (id : String) (body : Option Server) (s : Store)
      → I s.memory
      → I (server_by_id env m id body s).0.memory
  unfolding server_by_id
  server_by_id-kept env m id body s h = elim (Bool-cases (id == "")) [
    | inl e ↦ rw (server_by_id, e, if◌then◌else◌) h
    | inr e ↦ elim (Option-cases (lookup id s.memory.servers)) [
      | inl gone ↦ rw (server_by_id, e, gone, if◌then◌else◌) h
      | inr (item, found) ↦
          rw (server_by_id, e, found, if◌then◌else◌) (server_request-kept env m body id item s h)
    ]
  ]
