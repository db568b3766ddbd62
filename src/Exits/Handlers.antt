-- ===== src/Exits/Handlers.antt =====
-- The handlers `landingExits` and `landingExitByID`, and the test of an exit.
use yuchen_panel.Common.{
  String, Bool, true, false, ◌&&◌, ◌||◌, Option, none, some, List, [], ◌∷◌, Map, eqb_ℤ, lookup,
  insert, erase, values, trim_space, has_suffix, trim_suffix, ◌==◌, if◌then◌else◌, Outcome, ok, err,
}
use yuchen_panel.Model.{Time, LandingExit, RelayRoute}
use yuchen_panel.Http.{
  Method, get, post, put, delete, Reply, reply, method_not_allowed, bad_request, not_found,
}
use yuchen_panel.Store.{Store, Env, save_locked, log_and_save}
use yuchen_panel.Exits.Normalize.{normalize_landing_exit}

pub data ExitBody : Type 0 where
  list : List LandingExit → ExitBody
  one : LandingExit → ExitBody
  deleted : ExitBody
  tested : Bool → String → ExitBody

-- the exit that POST stores
abbrev pub created_exit : Env → LandingExit → LandingExit
created_exit env e = record e {
  id = env.new_id;
  enabled = true;
  created_at = env.now;
  updated_at = env.now;
}

unfoldable pub create_exit : Env → LandingExit → Store → Store × Reply ExitBody
create_exit env body s = elim (normalize_landing_exit body) [
  | err e ↦ (s, bad_request e)
  | ok e ↦
      let d = s.memory in
      (
        log_and_save env "exit.create" e.name
            (record d { landing_exits = insert env.new_id (created_exit env e) d.landing_exits }) s,
        reply 201 (one (created_exit env e)),
      )
]

-- `landingExits`
unfoldable pub landing_exits : Env → Method → Option LandingExit → Store → Store × Reply ExitBody
landing_exits env get body s = (s, reply 200 (list (values s.memory.landing_exits)))
landing_exits env post none s = (s, bad_request "invalid json")
landing_exits env post (some body) s = create_exit env body s
landing_exits env _ body s = (s, method_not_allowed)

-- the exit that PUT stores keeps the result of the last test
abbrev pub updated_exit : Env → String → LandingExit → LandingExit → LandingExit
updated_exit env id item e = record e {
  id = id;
  created_at = item.created_at;
  last_test_ip = item.last_test_ip;
  last_test_msg = item.last_test_msg;
  last_test_at = item.last_test_at;
  updated_at = env.now;
}

unfoldable pub update_exit :
    Env → String → LandingExit → LandingExit → Store → Store × Reply ExitBody
update_exit env id item body s = elim (normalize_landing_exit body) [
  | err e ↦ (s, bad_request e)
  | ok e ↦
      let d = s.memory in
      (
        log_and_save env "exit.update" id
            (record d { landing_exits = insert id (updated_exit env id item e) d.landing_exits }) s,
        reply 200 (one (updated_exit env id item e)),
      )
]

-- whether a relay route leads to the exit
abbrev pub leads_to : LandingExit → RelayRoute → Bool
leads_to item rr =
    rr.route_mode == "socks5_route"
    && rr.manual_socks_host == item.host
    && eqb_ℤ rr.manual_socks_port item.port
    && rr.manual_socks_username == item.username

unfoldable pub exit_in_use : LandingExit → Map RelayRoute → Bool
exit_in_use item [] = false
exit_in_use item ((id, rr) ∷ rest) = leads_to item rr || exit_in_use item rest

unfoldable pub delete_exit : Env → String → LandingExit → Store → Store × Reply ExitBody
unfolding exit_in_use
delete_exit env id item s =
    let d = s.memory in
    if exit_in_use item d.relay_routes then (s, bad_request "该出口已有中转线路使用，请先删除或迁移对应线路") else (
      log_and_save env "exit.delete" id (record d { landing_exits = erase id d.landing_exits }) s,
      reply 200 deleted,
    )

-- `testLandingExit` first reads the exit under the lock and lets go of it, then connects, and then
-- stores what it read with the result. `ok ip` is an answer that is an address; `now` is the end.
unfoldable pub tested_exit : Time → LandingExit → Outcome String → LandingExit
tested_exit now item (err message) = record item { last_test_at = now; last_test_msg = message }
tested_exit now item (ok ip) = record item {
  last_test_at = now;
  last_test_ip = trim_space ip;
  last_test_msg = "出口检测成功";
}

unfoldable pub finish_exit_test : Env → String → LandingExit → Outcome String → Store → Store
finish_exit_test env id item result s =
    let d = s.memory in
    (save_locked env.file_written (record s {
      memory = record d {
        landing_exits = insert id (tested_exit env.now item result) d.landing_exits;
      };
    })).0

-- what `landingExitByID` does with an exit that exists
unfoldable pub exit_request :
    Env → Method → Option LandingExit → String → LandingExit → Store → Store × Reply ExitBody
exit_request env get body id item s = (s, reply 200 (one item))
exit_request env put none id item s = (s, bad_request "invalid json")
exit_request env put (some body) id item s = update_exit env id item body s
exit_request env delete body id item s = delete_exit env id item s
exit_request env _ body id item s = (s, method_not_allowed)

-- `landingExitByID`; the bulk import and the test are its arguments
unfoldable pub landing_exit_by_id :
    (Store → Store × Reply ExitBody)
    → (String → Store → Store × Reply ExitBody)
    → Env
    → Method
    → String
    → Option LandingExit
    → Store
    → Store × Reply ExitBody
landing_exit_by_id bulk test env method rest body s =
    if rest == "bulk"
    then bulk s
    else if has_suffix rest "/test"
    then test (trim_suffix rest "/test") s
    else if rest == ""
    then (s, not_found)
    else elim (lookup rest s.memory.landing_exits) [
      | none ↦ (s, not_found)
      | some item ↦ exit_request env method body rest item s
    ]
