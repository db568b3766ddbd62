-- ===== src/Nodes/Handlers.antt =====
-- The handlers `nodes` and `nodeByID`, but for the two read-only previews of `nodeByID`.
use yuchen_panel.Common.{
  String, true, false, not, ◌&&◌, Option, none, some, List, lookup, insert, erase, values,
  map_values, keep_if, length, eqb, trim_space, ◌==◌, if◌then◌else◌, ok, err,
}
use yuchen_panel.Model.{Client, Node}
use yuchen_panel.Http.{
  Method, get, post, put, delete, Reply, reply, method_not_allowed, bad_request, not_found,
}
use yuchen_panel.Store.{Store, Env, log_and_save}
use yuchen_panel.Store.SingleMode.{ensure_single_mode_locked}
use yuchen_panel.Nodes.Normalize.{Keys, normalize_node}

pub data NodeBody : Type 0 where
  list : List Node → NodeBody
  one : Node → NodeBody
  deleted : NodeBody

-- the node that POST stores
abbrev pub created_node : Env → Node → Node
created_node env n = record n {
  id = env.new_id;
  enabled = true;
  created_at = env.now;
  updated_at = env.now;
}

unfoldable pub create_node : Env → Keys → Node → Store → Store × Reply NodeBody
unfolding log_and_save
create_node env keys body s =
    let (s', result) = normalize_node env keys body "" s in
    elim result [
      | err e ↦ (s', bad_request e)
      | ok n ↦
          let d = s'.memory in
          (
            log_and_save env "node.create" n.name
                (record d { nodes = insert env.new_id (created_node env n) d.nodes }) s',
            reply 201 (one (created_node env n)),
          )
    ]

-- `nodes`
unfoldable pub nodes : Env → Keys → Method → Option Node → Store → Store × Reply NodeBody
unfolding create_node
nodes env keys get body s =
    let s' = ensure_single_mode_locked env s in (s', reply 200 (list (values s'.memory.nodes)))
nodes env keys post none s = (s, bad_request "invalid json")
nodes env keys post (some body) s = create_node env keys body s
nodes env keys _ body s = (s, method_not_allowed)

-- an edit that names no security keeps that of the stored node
abbrev pub keep_security : Node → Node → Node
keep_security item body = record body {
  security = if trim_space body.security == "" then item.security else body.security;
}

unfoldable pub update_node : Env → Keys → String → Node → Node → Store → Store × Reply NodeBody
unfolding log_and_save
update_node env keys id item body s =
    let (s', result) = normalize_node env keys (keep_security item body) id s in
    elim result [
      | err e ↦ (s', bad_request e)
      | ok n ↦
          let n' : Node = record n {
            id = id;
            created_at = item.created_at;
            updated_at = env.now;
          } in
          let d = s'.memory in
          (
            log_and_save env "node.update" id (record d { nodes = insert id n' d.nodes }) s',
            reply 200 (one n'),
          )
    ]

-- a client without the deleted node; the last binding of a client takes its access along
unfoldable pub unbind_node : String → Client → Client
unfolding keep_if
unbind_node id c =
    let next = keep_if (λ nid. not (nid == id)) c.node_ids in
    let orphaned =
      not (eqb (length next) (length c.node_ids))
      && eqb (length next) 0
      && eqb (length c.relay_route_ids) 0 in
    record c { node_ids = next; enabled = if orphaned then false else c.enabled }

unfoldable pub delete_node : Env → String → Store → Store × Reply NodeBody
unfolding log_and_save unbind_node
delete_node env id s =
    let d = s.memory in
    (
      log_and_save env "node.delete" id
          (record d { nodes = erase id d.nodes; clients = map_values (unbind_node id) d.clients })
          s,
      reply 200 deleted,
    )

-- what `nodeByID` does with a node that exists
unfoldable pub node_request :
    Env → Keys → Method → Option Node → String → Node → Store → Store × Reply NodeBody
node_request env keys get body id item s = (s, reply 200 (one item))
node_request env keys put none id item s = (s, bad_request "invalid json")
node_request env keys put (some n) id item s = update_node env keys id item n s
node_request env keys delete body id item s = delete_node env id s
node_request env keys _ body id item s = (s, method_not_allowed)

-- `nodeByID` below the two previews
unfoldable pub node_by_id :
    Env → Keys → Method → String → Option Node → Store → Store × Reply NodeBody
node_by_id env keys method id body s = elim (lookup id s.memory.nodes) [
  | none ↦ (s, not_found)
  | some item ↦ node_request env keys method body id item s
]
