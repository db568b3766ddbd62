-- ===== src/Store/SingleMode.antt =====
-- The local server of the single-machine mode
-- (backend/internal/store/store.go, `ensureSingleModeLocalServer` and what it calls).
use yuchen_panel.Common.{
  String, Bool, true, not, ◌&&◌, ◌||◌, List, [], ◌∷◌, insert, erase, map_values, values, ◌==◌,
  if◌then◌else◌, keep_if, eqb, length, pos,
}
use yuchen_panel.Model.{Server, Node, PanelData, is_zero, after}
use yuchen_panel.Store.State.{Store, Env, getenv_or, save_locked, panel_version}

unfoldable pub is_loopback_endpoint : String → Bool
is_loopback_endpoint v = v == "127.0.0.1" || v == "localhost" || v == "::1" || v == "0.0.0.0"

unfoldable pub should_replace_local_endpoint : String → String → Bool
unfolding is_loopback_endpoint
should_replace_local_endpoint current target =
    not (target == "") && not (is_loopback_endpoint target) && is_loopback_endpoint current

unfoldable pub same_server_endpoint : Server → String → String → Bool
unfolding is_loopback_endpoint
same_server_endpoint srv local_ip local_host =
    (not (local_ip == "") && (srv.ip == local_ip || srv.host == local_ip))
    || (not (local_host == "") && (srv.ip == local_host || srv.host == local_host))
    || (is_loopback_endpoint srv.ip && not (is_loopback_endpoint local_ip))
    || (is_loopback_endpoint srv.host && not (is_loopback_endpoint local_host))

-- the server that replaces `keep` as the choice, one round of the loop
unfoldable pub better_local_server : Server → Server → Server
better_local_server keep srv =
    if srv.agent_version == panel_version && not (keep.agent_version == panel_version)
    then srv
    else if srv.status == "online" && not (keep.status == "online")
    then srv
    else if after srv.last_sync_at keep.last_sync_at
    then srv
    else if is_zero keep.last_sync_at && after srv.created_at keep.created_at
    then srv
    else keep

unfoldable pub pick_local_server : Server → List Server → Server
unfolding better_local_server
pick_local_server keep [] = keep
pick_local_server keep (srv ∷ rest) = pick_local_server (better_local_server keep srv) rest

unfoldable pub seed_local_server : Env → PanelData → PanelData
unfolding getenv_or
seed_local_server env d =
    let ip = getenv_or env "YC_LOCAL_SERVER_IP" "127.0.0.1" in
    record d {
      servers =
          insert env.server_id
            (record {
              cpu_cores = pos 0;
              mem_total_bytes = pos 0;
              id = env.server_id;
              name = getenv_or env "YC_LOCAL_SERVER_NAME" "本机服务器";
              ip = ip;
              host = getenv_or env "YC_LOCAL_SERVER_HOST" ip;
              region = getenv_or env "YC_LOCAL_SERVER_REGION" "Local";
              provider = getenv_or env "YC_LOCAL_SERVER_PROVIDER" "Self-hosted";
              status = "offline";
              agent_token = env.server_token;
              agent_version = "";
              xray_version = "";
              config_hash = "";
              last_sync_at = 0;
              last_sync_message = "";
              cpu_usage = 0;
              memory_usage = 0;
              disk_usage = 0;
              upload_total = pos 0;
              download_total = pos 0;
              created_at = env.now;
              updated_at = env.now;
            })
            d.servers;
    }

-- the fields of the kept server that were missing or local, filled in; the flag is `changed`
unfoldable pub repair_local_server : Env → Server → Server × Bool
unfolding getenv_or should_replace_local_endpoint
repair_local_server env keep =
    let local_ip = getenv_or env "YC_LOCAL_SERVER_IP" "127.0.0.1" in
    let local_host = getenv_or env "YC_LOCAL_SERVER_HOST" local_ip in
    let bad_name = keep.name == "" || keep.name == keep.ip || keep.name == keep.host in
    let bad_ip = keep.ip == "" || should_replace_local_endpoint keep.ip local_ip in
    let bad_host = keep.host == "" || should_replace_local_endpoint keep.host local_host in
    let bad_region = keep.region == "" in
    let bad_provider = keep.provider == "" in
    let bad_token = keep.agent_token == "" in
    let bad_time = is_zero keep.updated_at in
    (
      record keep {
        name = if bad_name then getenv_or env "YC_LOCAL_SERVER_NAME" "本机服务器" else keep.name;
        ip = if bad_ip then local_ip else keep.ip;
        host = if bad_host then local_host else keep.host;
        region = if bad_region then getenv_or env "YC_LOCAL_SERVER_REGION" "Local" else keep.region;
        provider =
            if bad_provider
            then getenv_or env "YC_LOCAL_SERVER_PROVIDER" "Self-hosted"
            else keep.provider;
        agent_token = if bad_token then env.server_token else keep.agent_token;
        updated_at = if bad_time then env.now else keep.updated_at;
      },
      bad_name || bad_ip || bad_host || bad_region || bad_provider || bad_token || bad_time,
    )

-- a node of the server `from` moves to the server `to`
unfoldable pub move_node : Env → String → String → Node → Node
move_node env from to n =
    if n.server_id == from then record n { server_id = to; updated_at = env.now } else n

-- one round of the loop that merges the other candidates into the kept server; the flag is
-- `changed`
unfoldable pub merge_server : Env → String → Server → PanelData × Bool → PanelData × Bool
unfolding move_node map_values erase
merge_server env keep srv (d, changed) = if srv.id == keep then (d, changed) else (
  record d {
    nodes = map_values (move_node env srv.id keep) d.nodes;
    servers = erase srv.id d.servers;
  },
  true,
)

unfoldable pub merge_servers : Env → String → List Server → PanelData × Bool → PanelData × Bool
merge_servers env keep [] acc = acc
merge_servers env keep (srv ∷ rest) acc =
    merge_servers env keep rest (merge_server env keep srv acc)

-- the candidates, of which the first is the start of `pickLocalServer`
unfoldable pub merge_candidates : Env → List Server → PanelData → PanelData × Bool
merge_candidates env [] d = (seed_local_server env d, true)
merge_candidates env (first ∷ rest) d =
    let (keep, changed) = repair_local_server env (pick_local_server first rest) in
    merge_servers env keep.id (first ∷ rest)
      (record d { servers = insert keep.id keep d.servers }, changed)

unfoldable pub ensure_single_mode_local_server : Env → PanelData → PanelData × Bool
ensure_single_mode_local_server env d =
    let local_ip = getenv_or env "YC_LOCAL_SERVER_IP" "127.0.0.1" in
    let local_host = getenv_or env "YC_LOCAL_SERVER_HOST" local_ip in
    let count = length d.servers in
    if eqb count 0
    then (seed_local_server env d, true)
    else merge_candidates env
        (keep_if (λ srv. same_server_endpoint srv local_ip local_host || eqb count 1)
          (values d.servers))
        d

-- `EnsureSingleModeLocalServerLocked`, whose error every caller drops
unfoldable pub ensure_single_mode_locked : Env → Store → Store
ensure_single_mode_locked env s =
    let (d, changed) = ensure_single_mode_local_server env s.memory in
    let s' : Store = record s { memory = d } in
    if changed then (save_locked env.mode_written s').0 else s'
