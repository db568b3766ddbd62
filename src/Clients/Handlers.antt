-- ===== src/Clients/Handlers.antt =====
-- The handlers `clients` and `clientByID`.
use yuchen_panel.Common.{
  String, true, Option, none, some, List, [], Map, pos, eqb_ℤ, lookup, insert, erase, values, map,
  trim_space, has_suffix, trim_suffix, ◌==◌, if◌then◌else◌, ok, err,
}
use yuchen_panel.Model.{Client, LandingExit, RelayRoute, PanelData}
use yuchen_panel.Http.{
  Method, get, post, put, delete, Reply, error, reply, method_not_allowed, bad_request, not_found,
}
use yuchen_panel.Store.{Store, Env, save_locked, add_log, log_and_save}
use yuchen_panel.Traffic.{migrate_traffic, preserve_and_renew_billing}
use yuchen_panel.Xray.Credentials.{trojan_client_password}
use yuchen_panel.Clients.Validate.{validate_client}

pub data ClientBody : Type 0 where
  list : List Client → ClientBody
  one : Client → ClientBody
  with_relay : Client → RelayRoute → LandingExit → ClientBody
  deleted : ClientBody

abbrev pub or_else : String → String → String
or_else v fallback = if v == "" then fallback else v

-- a client as the API shows it
unfoldable pub present_client : (String → String) → Client → Client
present_client sha256_hex c =
    let m = migrate_traffic c in
    if trim_space m.password == ""
    then record m { password = trojan_client_password sha256_hex m }
    else m

-- what POST sets before it validates
unfoldable pub prepare_client : Env → Client → Client
prepare_client env body = record body {
  id = env.new_id;
  uuid = or_else body.uuid env.uuid;
  password = if trim_space body.password == "" then env.password else body.password;
  subscribe_token = or_else body.subscribe_token env.token;
  enabled = true;
  traffic_used_gb = pos 0;
  traffic_used_bytes = pos 0;
  traffic_cursors = [];
  traffic_reset_at = 0;
  billing_cycle_start = env.now;
  billing_cycle_days =
      if eqb_ℤ body.billing_cycle_days (pos 0) then pos 30 else body.billing_cycle_days;
  created_at = env.now;
  updated_at = env.now;
}

abbrev pub set_clients : PanelData → Map Client → PanelData
set_clients d cs = record d { clients = cs }

unfoldable pub create_client : Env → Client → Store → Store × Reply ClientBody
unfolding log_and_save
create_client env body s = elim (validate_client s.memory (prepare_client env body)) [
  | err e ↦ (s, bad_request e)
  | ok c ↦ (
    log_and_save env "client.create" c.username
        (set_clients s.memory (insert c.id c s.memory.clients)) s,
    reply 201 (one c),
  )
]

-- `clients`
unfoldable pub clients :
    (String → String) → Env → Method → Option Client → Store → Store × Reply ClientBody
unfolding present_client create_client
clients sha256_hex env get body s =
    (s, reply 200 (list (map (present_client sha256_hex) (values s.memory.clients))))
clients sha256_hex env post none s = (s, bad_request "invalid json")
clients sha256_hex env post (some body) s = create_client env body s
clients sha256_hex env _ body s = (s, method_not_allowed)

unfoldable pub reset_token : Env → String → Store → Store × Reply ClientBody
unfolding log_and_save
reset_token env id s = elim (lookup id s.memory.clients) [
  | none ↦ (s, not_found)
  | some item ↦
      let item' : Client = record item { subscribe_token = env.token; updated_at = env.now } in
      (
        log_and_save env "client.reset_token" id
            (set_clients s.memory (insert id item' s.memory.clients)) s,
        reply 200 (one item'),
      )
]

-- the PUT body with what an edit keeps of the stored client
unfoldable pub merge_client : Env → String → Client → Client → Client
merge_client env id item body = record body {
  id = id;
  created_at = item.created_at;
  uuid = or_else body.uuid item.uuid;
  password = if trim_space body.password == "" then item.password else body.password;
  subscribe_token = or_else body.subscribe_token item.subscribe_token;
  updated_at = env.now;
}

unfoldable pub update_client : Env → String → Client → Client → Store → Store × Reply ClientBody
unfolding add_log save_locked merge_client
update_client env id item body s = elim (validate_client s.memory (merge_client env id item body)) [
  | err e ↦ (s, bad_request e)
  | ok c ↦
      let c' = preserve_and_renew_billing c item env.now in
      let d =
        add_log env "client.update" id (set_clients s.memory (insert id c' s.memory.clients)) in
      let (s', saved) = save_locked env.file_written (record s { memory = d }) in
      if saved then (s', reply 200 (one c')) else (
        record s' { memory = set_clients s'.memory (insert id item s'.memory.clients) },
        error 500 "billing persistence failed",
      )
]

unfoldable pub delete_client : Env → String → Store → Store × Reply ClientBody
unfolding log_and_save
delete_client env id s = (
  log_and_save env "client.delete" id (set_clients s.memory (erase id s.memory.clients)) s,
  reply 200 deleted,
)

-- what `clientByID` does with a client that exists
unfoldable pub client_request :
    (String → String)
    → Env
    → Method
    → Option Client
    → String
    → Client
    → Store
    → Store × Reply ClientBody
unfolding present_client
client_request sha256_hex env get body id item s =
    (s, reply 200 (one (present_client sha256_hex item)))
client_request sha256_hex env put none id item s = (s, bad_request "invalid json")
client_request sha256_hex env put (some body) id item s = update_client env id item body s
client_request sha256_hex env delete body id item s = delete_client env id s
client_request sha256_hex env _ body id item s = (s, method_not_allowed)

-- a route that serves POST alone
abbrev pub post_only :
    Method → (Store → Store × Reply ClientBody) → Store → Store × Reply ClientBody
post_only post handler s = handler s
post_only _ handler s = (s, method_not_allowed)

-- `clientByID`; `rest` is the path after "/api/clients/", and the relay creation is its argument
unfoldable pub client_by_id :
    (String → String)
    → (Store → Store × Reply ClientBody)
    → Env
    → Method
    → String
    → Option Client
    → Store
    → Store × Reply ClientBody
client_by_id sha256_hex create_relay env method rest body s =
    if has_suffix rest "/reset-token"
    then post_only method (reset_token env (trim_suffix rest "/reset-token")) s
    else if rest == "create-socks5-relay"
    then post_only method create_relay s
    else elim (lookup rest s.memory.clients) [
      | none ↦ (s, not_found)
      | some item ↦ client_request sha256_hex env method body rest item s
    ]
