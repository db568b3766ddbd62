-- ===== src/Relays/Handlers.antt =====
-- The handlers `relays` and `relayByID`.
use yuchen_panel.Common.{
  String, true, false, not, ◌&&◌, Option, none, some, List, lookup, insert, erase, values,
  map_values, keep_if, length, eqb, ◌==◌, if◌then◌else◌, ok, err,
}
use yuchen_panel.Model.{Client, RelayRoute}
use yuchen_panel.Http.{
  Method, get, post, put, delete, Reply, reply, method_not_allowed, bad_request, not_found,
}
use yuchen_panel.Store.{Store, Env, log_and_save}
use yuchen_panel.Nodes.{Keys}
use yuchen_panel.Relays.Normalize.{normalize_relay}

pub data RelayBody : Type 0 where
  list : List RelayRoute → RelayBody
  one : RelayRoute → RelayBody
  deleted : RelayBody

abbrev pub created_relay : Env → RelayRoute → RelayRoute
created_relay env r = record r {
  id = env.new_id;
  enabled = true;
  created_at = env.now;
  updated_at = env.now;
}

unfoldable pub create_relay : Env → Keys → RelayRoute → Store → Store × Reply RelayBody
unfolding log_and_save
create_relay env keys body s =
    let (s', result) = normalize_relay env keys body "" s in
    elim result [
      | err e ↦ (s', bad_request e)
      | ok r ↦
          let d = s'.memory in
          (
            log_and_save env "relay.create" r.name
                (record d { relay_routes = insert env.new_id (created_relay env r) d.relay_routes })
                s',
            reply 201 (one (created_relay env r)),
          )
    ]

-- `relays`
unfoldable pub relays : Env → Keys → Method → Option RelayRoute → Store → Store × Reply RelayBody
unfolding create_relay
relays env keys get body s = (s, reply 200 (list (values s.memory.relay_routes)))
relays env keys post none s = (s, bad_request "invalid json")
relays env keys post (some body) s = create_relay env keys body s
relays env keys _ body s = (s, method_not_allowed)

unfoldable pub update_relay :
    Env → Keys → String → RelayRoute → RelayRoute → Store → Store × Reply RelayBody
unfolding log_and_save
update_relay env keys id item body s =
    let (s', result) = normalize_relay env keys body id s in
    elim result [
      | err e ↦ (s', bad_request e)
      | ok r ↦
          let r' : RelayRoute = record r {
            id = id;
            created_at = item.created_at;
            updated_at = env.now;
          } in
          let d = s'.memory in
          (
            log_and_save env "relay.update" id
                (record d { relay_routes = insert id r' d.relay_routes }) s',
            reply 200 (one r'),
          )
    ]

-- a client without the deleted relay; the last binding of a client takes its access along
unfoldable pub unbind_relay : String → Client → Client
unfolding keep_if
unbind_relay id c =
    let next = keep_if (λ rid. not (rid == id)) c.relay_route_ids in
    let orphaned =
      not (eqb (length next) (length c.relay_route_ids))
      && eqb (length next) 0
      && eqb (length c.node_ids) 0 in
    record c { relay_route_ids = next; enabled = if orphaned then false else c.enabled }

unfoldable pub delete_relay : Env → String → Store → Store × Reply RelayBody
unfolding log_and_save unbind_relay
delete_relay env id s =
    let d = s.memory in
    (
      log_and_save env "relay.delete" id
          (record d {
            relay_routes = erase id d.relay_routes;
            clients = map_values (unbind_relay id) d.clients;
          })
          s,
      reply 200 deleted,
    )

-- what `relayByID` does with a route that exists
unfoldable pub relay_request :
    Env → Keys → Method → Option RelayRoute → String → RelayRoute → Store → Store × Reply RelayBody
relay_request env keys get body id item s = (s, reply 200 (one item))
relay_request env keys put none id item s = (s, bad_request "invalid json")
relay_request env keys put (some r) id item s = update_relay env keys id item r s
relay_request env keys delete body id item s = delete_relay env id s
relay_request env keys _ body id item s = (s, method_not_allowed)

-- `relayByID`
unfoldable pub relay_by_id :
    Env → Keys → Method → String → Option RelayRoute → Store → Store × Reply RelayBody
relay_by_id env keys method id body s =
    if id == "" then (s, not_found) else elim (lookup id s.memory.relay_routes) [
      | none ↦ (s, not_found)
      | some item ↦ relay_request env keys method body id item s
    ]
