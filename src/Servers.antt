-- ===== src/Servers.antt =====
-- Servers (backend/internal/api/servers.go).
pub mod Hosting
use yuchen_panel.Common.{
  String, Bool, true, false, ◌||◌, Option, none, some, List, [], ◌∷◌, Map, lookup, insert, erase,
  values, length, leb, ◌==◌, if◌then◌else◌,
}
use yuchen_panel.Model.{Server, Node}
use yuchen_panel.Http.{
  Method, get, post, put, delete, Reply, reply, method_not_allowed, bad_request, not_found,
}
use yuchen_panel.Store.{Store, Env, log_and_save}
use yuchen_panel.Store.SingleMode.{ensure_single_mode_locked}

pub data ServerBody : Type 0 where
  list : List Server → ServerBody
  one : Server → ServerBody
  deleted : ServerBody

-- the server that POST stores
abbrev pub created_server : Env → Server → Server
created_server env body = record body {
  id = env.server_id;
  status = if body.status == "" then "offline" else body.status;
  agent_token = if body.agent_token == "" then env.token else body.agent_token;
  created_at = env.now;
  updated_at = env.now;
}

unfoldable pub create_server : Env → Server → Store → Store × Reply ServerBody
create_server env body s =
    let d = s.memory in
    (
      log_and_save env "server.create" body.name
          (record d { servers = insert env.server_id (created_server env body) d.servers }) s,
      reply 201 (one (created_server env body)),
    )

-- `servers`
unfoldable pub servers : Env → Method → Option Server → Store → Store × Reply ServerBody
servers env get body s =
    let s' = ensure_single_mode_locked env s in (s', reply 200 (list (values s'.memory.servers)))
servers env post none s = (s, bad_request "invalid json")
servers env post (some body) s = create_server env body s
servers env _ body s = (s, method_not_allowed)

-- the server that PUT stores
abbrev pub updated_server : Env → String → Server → Server → Server
updated_server env id item body = record body {
  id = id;
  created_at = item.created_at;
  updated_at = env.now;
  agent_token = if body.agent_token == "" then item.agent_token else body.agent_token;
}

unfoldable pub update_server : Env → String → Server → Server → Store → Store × Reply ServerBody
update_server env id item body s =
    let d = s.memory in
    (
      log_and_save env "server.update" id
          (record d { servers = insert id (updated_server env id item body) d.servers }) s,
      reply 200 (one (updated_server env id item body)),
    )

-- whether an inbound is left on the server
unfoldable pub has_nodes : String → Map Node → Bool
has_nodes id [] = false
has_nodes id ((k, n) ∷ rest) = n.server_id == id || has_nodes id rest

unfoldable pub delete_server : Env → String → Store → Store × Reply ServerBody
unfolding has_nodes
delete_server env id s =
    let d = s.memory in
    if leb (length d.servers) 1
    then (s, bad_request "单机模式至少需要保留一台本机服务器，不能删除最后一台服务器")
    else if has_nodes id d.nodes
    then (s, bad_request "这台服务器下还有入站，请先迁移或删除入站后再删除服务器")
    else (
      log_and_save env "server.delete" id (record d { servers = erase id d.servers }) s,
      reply 200 deleted,
    )

-- what `serverByID` does with a server that exists
unfoldable pub server_request :
    Env → Method → Option Server → String → Server → Store → Store × Reply ServerBody
server_request env get body id item s = (s, reply 200 (one item))
server_request env put none id item s = (s, bad_request "invalid json")
server_request env put (some body) id item s = update_server env id item body s
server_request env delete body id item s = delete_server env id s
server_request env _ body id item s = (s, method_not_allowed)

-- `serverByID`
unfoldable pub server_by_id :
    Env → Method → String → Option Server → Store → Store × Reply ServerBody
server_by_id env method id body s =
    if id == "" then (s, not_found) else elim (lookup id s.memory.servers) [
      | none ↦ (s, not_found)
      | some item ↦ server_request env method body id item s
    ]
