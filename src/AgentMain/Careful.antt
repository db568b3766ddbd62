-- ===== src/AgentMain/Careful.antt =====
-- Every state of a change says whether Xray may run something else than what is in the file
-- (agent/cmd/agent/main.go, `applyXrayConfig`).
use yuchen_panel.Common.{
  ◌⊎◌, inl, inr, ◌≡◌, refl, All, String, Bool, true, false, ◌||◌, Option, none, some, ◌==◌,
  if◌then◌else◌, Outcome, ok, err, Bool-cases, arith,
}
use yuchen_panel.AgentMain.Apply.{
  AgentConfig, Machine, Programs, Calls, Change, then_change, unmark, reload, reload_if_set,
  replace, mark, tested, write_copy, apply_xray_config,
}
use yuchen_panel.AgentMain.Loop.{last_or}

-- Without the marker, Xray runs what is in the file.
abbrev pub Confirmed : Machine → Type 0
Confirmed m = (m.pending ≡ true) ⊎ (m.running ≡ m.config)

-- A change keeps this in all its states, and leaves the marker if it fails after it was set.
abbrev pub Careful : Machine → Change → Type 0
Careful m (states, err e) = All Confirmed states
Careful m (states, ok done) = All Confirmed states × ((last_or m states).pending ≡ false)

Careful-then :
    (m m' : Machine) (change : Change)
    → Confirmed m'
    → Careful m' change
    → Careful m (then_change m' change)
Careful-then m m' (states, err e) now later = (now, later)
Careful-then m m' (states, ok done) now (later, clear) = ((now, later), clear)

unmark-Careful :
    (removed : Outcome (Unit {0})) (m : Machine)
    → m.running ≡ m.config
    → Careful m (unmark removed m)
unmark-Careful (err e) m same = tt
unmark-Careful (ok done) m same = ((inr same, tt), refl)

reload-Careful :
    (calls : Calls) (reloaded : Outcome (Unit {0})) (m : Machine)
    → m.pending ≡ true
    → Careful m (reload calls reloaded m)
reload-Careful calls (err e) m marked = (inl marked, tt)
reload-Careful calls (ok done) m marked =
    let m' = record m { running = m.config } in
    Careful-then m m' (unmark calls.marker_removed m') (inr refl)
      (unmark-Careful calls.marker_removed m' refl)

reload_if_set-Careful :
    (cfg : AgentConfig) (calls : Calls) (m : Machine)
    → m.pending ≡ true
    → Careful m (reload_if_set cfg calls m)
reload_if_set-Careful cfg calls m marked = elim (Bool-cases (cfg.reload_command == "")) [
  | inl e ↦ rw (e, if◌then◌else◌) tt
  | inr e ↦ rw (e, if◌then◌else◌) (reload-Careful calls calls.reloaded m marked)
]

replace-Careful :
    (cfg : AgentConfig) (calls : Calls) (renamed : Outcome (Unit {0})) (raw : String) (m : Machine)
    → m.pending ≡ true
    → Careful m (replace cfg calls renamed raw m)
replace-Careful cfg calls (err e) raw m marked = tt
replace-Careful cfg calls (ok done) raw m marked =
    let m' = record m { config = some raw } in
    Careful-then m m' (reload_if_set cfg calls m') (inl marked)
      (reload_if_set-Careful cfg calls m' marked)

marked_anyway :
    (m : Machine) (b : Bool) → Confirmed m → Confirmed (record m { pending = m.pending || b })
marked_anyway m b (inl marked) = inl (ground (arith, marked))
marked_anyway m b (inr same) = inr same

mark-Careful :
    (cfg : AgentConfig) (calls : Calls) (written : Outcome (Unit {0})) (raw : String) (m : Machine)
    → Confirmed m
    → Careful m (mark cfg calls written raw m)
mark-Careful cfg calls (err e) raw m now = (marked_anyway m calls.marker_left now, tt)
mark-Careful cfg calls (ok done) raw m now =
    let m' = record m { pending = true } in
    Careful-then m m' (replace cfg calls calls.renamed raw m') (inl refl)
      (replace-Careful cfg calls calls.renamed raw m' refl)

tested-Careful :
    (cfg : AgentConfig) (calls : Calls) (result : Option String) (raw : String) (m : Machine)
    → Confirmed m
    → Careful m (tested cfg calls result raw m)
tested-Careful cfg calls (some e) raw m now = tt
tested-Careful cfg calls none raw m now = mark-Careful cfg calls calls.marker_written raw m now

write_copy-Careful :
    (cfg : AgentConfig) (programs : Programs) (calls : Calls) (made written : Outcome (Unit {0}))
    (raw : String) (m : Machine)
    → Confirmed m
    → Careful m (write_copy cfg programs calls made written raw m)
write_copy-Careful cfg programs calls (err e) written raw m now = tt
write_copy-Careful cfg programs calls (ok made) (err e) raw m now = tt
write_copy-Careful cfg programs calls (ok made) (ok written) raw m now =
    tested-Careful cfg calls (if cfg.test_command == "" then none else programs.test_error raw) raw
      m now

pub apply_xray_config-Careful :
    (cfg : AgentConfig) (programs : Programs) (calls : Calls) (config : Option String) (m : Machine)
    → Confirmed m
    → Careful m (apply_xray_config cfg programs calls config m)
unfolding apply_xray_config
apply_xray_config-Careful cfg programs calls none m now = tt
apply_xray_config-Careful cfg programs calls (some raw) m now =
    write_copy-Careful cfg programs calls calls.dir_made calls.copy_written raw m now
