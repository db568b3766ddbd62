-- ===== src/Tests/ExitRuns.antt =====
-- Landing exits, servers and heartbeats at the small panel.
use yuchen_panel.Common.{
  String, ◌≡◌, ◌≢◌, ◌↔◌, refl, false, some, none, List, [], ◌∷◌, ok, arith, pos, ℕ, lookup, itoa,
}
use text.Mathlib.TextEquality.{eq_iff}
use yuchen_panel.Model.{LandingExit, Server}
use yuchen_panel.Http.{error}
use yuchen_panel.Store.{Env}
use yuchen_panel.Exits.{tested_exit, exit_in_use}
use yuchen_panel.Exits.Usable.{IsUsable}
use yuchen_panel.Exits.History.{
  Running, ExitStep, remove, import_text, begin_test, finish_test, exit_steps, RunningUsable,
  exit_steps-RunningUsable, deleted_exit_returns,
}
use yuchen_panel.Agent.{validate_agent_token, save_heartbeat}
use yuchen_panel.Agent.Rollback.{validate_agent_token_iff, save_heartbeat_rollback}
use yuchen_panel.Versions.Number.{atoi}
use yuchen_panel.Tests.Data.{server, landing_exit, panel, store, env, heartbeat}

abbrev lines : String
lines = "exit one,198.51.100.8,1080,u,p\n# a comment\nbad line"

abbrev fresh : ℕ → String
fresh n = itoa (pos n)

abbrev start : Running
start = record { store = store; reads = [] }

abbrev steps : List (Env × ExitStep)
steps =
    (env, begin_test "e1")
    ∷ (env, import_text fresh lines)
    ∷ (env, remove "e1")
    ∷ (env, finish_test "e1" (ok "198.51.100.7"))
    ∷ []

landing_exit-IsUsable : IsUsable landing_exit
landing_exit-IsUsable = record {
  host = λ e. ground (arith, eq_iff "198.51.100.7" "");
  port = ground arith;
  username = λ e. ground (arith, eq_iff "u" "");
  password = λ e. ground (arith, eq_iff "p" "");
}

exit_steps-RunningUsable_example : RunningUsable atoi (exit_steps atoi steps start)
exit_steps-RunningUsable_example =
    exit_steps-RunningUsable atoi steps start ((landing_exit-IsUsable, tt), tt)

-- no route leads to this one
abbrev spare : LandingExit
spare = record landing_exit { id = "e2"; host = "198.51.100.9" }

abbrev testing : Running
testing = record {
  store = record store {
    memory = record panel { landing_exits = ("e1", landing_exit) ∷ ("e2", spare) ∷ [] };
  };
  reads = ("e2", spare) ∷ [];
}

deleted_exit_returns_example :
    (lookup "e2" (exit_steps atoi ((env, remove "e2") ∷ []) testing).store.memory.landing_exits
      ≡ none)
    × (lookup "e2"
          (exit_steps atoi
            ((env, remove "e2") ∷ (env, finish_test "e2" (ok "198.51.100.9")) ∷ [])
            testing).store.memory.landing_exits
        ≡ some (tested_exit env.now spare (ok "198.51.100.9")))
unfolding lookup exit_in_use
deleted_exit_returns_example =
    deleted_exit_returns atoi env env "e2" spare spare (ok "198.51.100.9") testing refl refl refl

validate_agent_token_iff_example : (validate_agent_token panel.servers "secret" "s1" ≡ none) ↔ (
    ◌≢◌ {A = String} "s1" ""
    × ◌≢◌ {A = String} "secret" ""
    × ((s : Server) × (lookup "s1" panel.servers ≡ some s) × (s.agent_token ≡ "secret")))
validate_agent_token_iff_example = validate_agent_token_iff panel.servers "secret" "s1"

abbrev full_disk : Env
full_disk = record env { file_written = false }

save_heartbeat_rollback_example :
    ((save_heartbeat full_disk heartbeat store).1 ≡ error 500 "traffic persistence failed")
    × ((save_heartbeat full_disk heartbeat store).0.memory.clients ≡ panel.clients)
    × ((save_heartbeat full_disk heartbeat store).0.disk ≡ none)
    × ((key : String)
        → lookup key (save_heartbeat full_disk heartbeat store).0.memory.servers
          ≡ lookup key panel.servers)
unfolding lookup
save_heartbeat_rollback_example =
    save_heartbeat_rollback full_disk heartbeat store server refl refl refl
