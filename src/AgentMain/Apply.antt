-- ===== src/AgentMain/Apply.antt =====
-- How the agent changes the configuration of Xray (agent/cmd/agent/main.go, `applyXrayConfig`).
use yuchen_panel.Common.{
  String, Bool, true, false, ◌||◌, List, [], ◌∷◌, Option, none, some, append, ◌==◌, if◌then◌else◌,
  Outcome, ok, err,
}

-- The parts of `Config` that decide what the agent does.
pub record AgentConfig : Type 0 where
  pub test_command : String
  pub reload_command : String
  pub apply_config : Bool

-- What stands on the server: the configuration file, whether the file that marks a pending reload
-- is there, and the configuration with which Xray runs, which the agent cannot read.
pub record Machine : Type 0 where
  pub config : Option String
  pub pending : Bool
  pub running : Option String

-- The programs: the text of the SHA-256 sum of a file, and the error of the test command for it.
pub record Programs : Type 0 where
  pub sum : String → String
  pub test_error : String → Option String

-- What the calls of one change return; `marker_left` says whether a failed write has made the
-- marker all the same, and `left_running` what Xray runs after a failed reload.
pub record Calls : Type 0 where
  pub dir_made : Outcome (Unit {0})
  pub copy_written : Outcome (Unit {0})
  pub marker_written : Outcome (Unit {0})
  pub marker_left : Bool
  pub renamed : Outcome (Unit {0})
  pub reloaded : Outcome (Unit {0})
  pub left_running : Option String
  pub marker_removed : Outcome (Unit {0})

-- The states that a change goes through, and its result.
abbrev pub Change : Type 0
Change = List Machine × Outcome (Unit {0})

abbrev pub then_change : Machine → Change → Change
then_change m (states, result) = (m ∷ states, result)

abbrev pub unmark : Outcome (Unit {0}) → Machine → Change
unmark (err e) m = ([], err e)
unmark (ok done) m = (record m { pending = false } ∷ [], ok tt)

abbrev pub reload : Calls → Outcome (Unit {0}) → Machine → Change
reload calls (err e) m =
    (record m { running = calls.left_running } ∷ [], err (append "xray reload failed: " e))
reload calls (ok done) m =
    let m' = record m { running = m.config } in then_change m' (unmark calls.marker_removed m')

abbrev pub reload_if_set : AgentConfig → Calls → Machine → Change
reload_if_set cfg calls m =
    if cfg.reload_command == ""
    then ([], err "xray reload command is empty; configuration is not confirmed active")
    else reload calls calls.reloaded m

abbrev pub replace : AgentConfig → Calls → Outcome (Unit {0}) → String → Machine → Change
replace cfg calls (err e) raw m = ([], err e)
replace cfg calls (ok done) raw m =
    let m' = record m { config = some raw } in then_change m' (reload_if_set cfg calls m')

abbrev pub mark : AgentConfig → Calls → Outcome (Unit {0}) → String → Machine → Change
mark cfg calls (err e) raw m = (record m { pending = m.pending || calls.marker_left } ∷ [], err e)
mark cfg calls (ok done) raw m =
    let m' = record m { pending = true } in then_change m' (replace cfg calls calls.renamed raw m')

abbrev pub tested : AgentConfig → Calls → Option String → String → Machine → Change
tested cfg calls (some e) raw m = ([], err (append "xray test failed: " e))
tested cfg calls none raw m = mark cfg calls calls.marker_written raw m

abbrev pub test_config : AgentConfig → Programs → Calls → String → Machine → Change
test_config cfg programs calls raw m =
    tested cfg calls (if cfg.test_command == "" then none else programs.test_error raw) raw m

abbrev pub write_copy :
    AgentConfig
    → Programs
    → Calls
    → Outcome (Unit {0})
    → Outcome (Unit {0})
    → String
    → Machine
    → Change
write_copy cfg programs calls (err e) written raw m = ([], err e)
write_copy cfg programs calls (ok made) (err e) raw m = ([], err e)
write_copy cfg programs calls (ok made) (ok written) raw m = test_config cfg programs calls raw m

-- `applyXrayConfig`, where a missing configuration is `none`
unfoldable pub apply_xray_config : AgentConfig → Programs → Calls → Option String → Machine → Change
apply_xray_config cfg programs calls none m = ([], err "empty xray config")
apply_xray_config cfg programs calls (some raw) m =
    write_copy cfg programs calls calls.dir_made calls.copy_written raw m
