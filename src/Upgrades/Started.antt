-- ===== src/Upgrades/Started.antt =====
-- What a request that starts a runner has passed.
use yuchen_panel.Common.{
  ◌≡◌, map, refl, sym, ap, ◌∙◌, String, Bool, true, false, not, ◌||◌, List, none, some, ◌==◌,
  if◌then◌else◌, Outcome, ok, err, ok-injective, fail_if-eq-ok, >>=-eq-ok, arith,
}
use yuchen_panel.Places.{none_is_not_some}
use yuchen_panel.Store.{panel_version}
use yuchen_panel.Versions.{SemanticVersion, parse_semantic_version}
use yuchen_panel.Upgrades.Words.{outside, bash_word, Quotes, shell_escape_values-Quotes}
use yuchen_panel.Upgrades.Checked.{
  IsArchiveName, safe-IsArchiveName, IsAfterRunning, newer-IsAfterRunning, IsIdle, unblocked-IsIdle,
}
use yuchen_panel.Upgrades.Compare.{is_remote_version_newer}
use yuchen_panel.Upgrades.Shell.{shell_escape_values}
use yuchen_panel.Upgrades.Manifest.{UpdateManifest, is_blank, target_of, package_of}
use yuchen_panel.Upgrades.Task.{
  UpgradeTask, UpgradeEnv, StateFile, class_plus, is_word_char, running_upgrade_task,
  safe_package_name,
}
use yuchen_panel.Upgrades.Script.{script_values, script_text, write_upgrade_runner_at}
use yuchen_panel.Upgrades.Handlers.{
  Created, install_dir, refuse, busy, new_task, start_runner, store_and_start, create_configured,
  create_from, create_task,
}

-- the guards that refuse
passes :
    (c : Bool) (file : StateFile) (message : String) (k : Created) {script : String}
    → (if c then refuse file message else k).runner ≡ some script
    → (c ≡ false) × (k.runner ≡ some script)
passes true file message k h = cc
passes false file message k h = (refl, h)

not-true : {b : Bool} → not b ≡ false → b ≡ true
not-true {b = true} h = refl
not-true {b = false} h = cc

-- the script of a runner for a task, over words that Bash reads as the values of the task
abbrev pub ScriptOf : UpgradeTask → String → String → Type 0
ScriptOf task url script =
    (words : List String) × (map (bash_word outside) words
      ≡ map some (script_values task url install_dir))
    × (script ≡ script_text words)

read_back :
    (values words : List String) (result : Outcome (List String))
    → Quotes values result
    → result ≡ ok words
    → map (bash_word outside) words ≡ map some values
read_back values words (ok given) quotes same =
    let given_words : given ≡ words = ok-injective same in rw (sym given_words) (quotes.0)
read_back values words (err e) quotes same = cc

busy-runner : (env : UpgradeEnv) (file : StateFile) → (busy env file).runner ≡ none
busy-runner env none = refl
busy-runner env (some s) = refl

runner-script :
    (env : UpgradeEnv) (task : UpgradeTask) (made : Outcome (String × String))
    (started : Outcome (Unit {0})) (file : StateFile) {script : String}
    → (start_runner env task made started file).runner ≡ some script
    → (place : String) × (made ≡ ok (place, script))
runner-script env task (err e) started file h = cc
runner-script env task (ok (place, text)) (err e) file h = cc
runner-script env task (ok (place, text)) (ok done) file h = (place, cc)

store_and_start-script :
    (env : UpgradeEnv) (task : UpgradeTask) (logs written : Outcome (Unit {0})) (file : StateFile)
    {script : String}
    → (store_and_start env task logs written file).runner ≡ some script
    → (place : String) × (write_upgrade_runner_at env task env.manifest_url install_dir
        ≡ ok (place, script))
store_and_start-script env task (err e) written file h = cc
store_and_start-script env task (ok done) (err e) file h = cc
store_and_start-script env task (ok done) (ok written) file h =
    runner-script env task (write_upgrade_runner_at env task env.manifest_url install_dir)
      env.started _ h

written-ScriptOf :
    (env : UpgradeEnv) (task : UpgradeTask) (url : String) {place script : String}
    → write_upgrade_runner_at env task url install_dir ≡ ok (place, script)
    → ScriptOf task url script
unfolding write_upgrade_runner_at
written-ScriptOf env task url h =
    let (safe, rest) = fail_if-eq-ok (not (class_plus is_word_char task.id)) _ _ h in
    let (words, escaped, rest') =
      >>=-eq-ok (shell_escape_values (script_values task url install_dir)) _ rest in
    let (done, stored, last) = >>=-eq-ok env.script_written _ rest' in
    let values = script_values task url install_dir in
    (
      words,
      read_back values words _ (shell_escape_values-Quotes values) escaped,
      sym (ap (λ p. p.1) (ok-injective last)),
    )

-- the guards on a manifest
abbrev pub IsInstallable : UpdateManifest → Type 0
IsInstallable m =
    (is_remote_version_newer (target_of m) panel_version ≡ true)
    × (is_blank m.download_url ≡ false)
    × (is_blank m.sha256 ≡ false)
    × (safe_package_name (package_of m) ≡ true)

create_from-IsInstallable :
    (env : UpgradeEnv) (file : StateFile) (fetched : Outcome UpdateManifest) {script : String}
    → (create_from env file fetched).runner ≡ some script
    → (m : UpdateManifest) × (fetched ≡ ok m)
      × IsInstallable m
      × ScriptOf (new_task env m) env.manifest_url script
create_from-IsInstallable env file (err e) h = cc
create_from-IsInstallable env file (ok m) h =
    let (newer, h1) = passes (not (is_remote_version_newer (target_of m) panel_version)) _ _ _ h in
    let (complete, h2) =
      passes (package_of m == "" || is_blank m.download_url || is_blank m.sha256) _ _ _ h1 in
    let (safe, h3) = passes (not (safe_package_name (package_of m))) _ _ _ h2 in
    let (place, written) =
      store_and_start-script env (new_task env m) env.logs_made (env.task_written 1) file h3 in
    (
      m,
      refl,
      (not-true newer, ground arith, ground arith, not-true safe),
      written-ScriptOf env (new_task env m) env.manifest_url written,
    )

-- A manifest of an upgrade: its version, where its text is a semantic one, is after the running one;
-- it has an address and a checksum that are not blank; its package has a plain name.
abbrev pub IsUpgrade : UpdateManifest → Type 0
IsUpgrade m =
    ((v : SemanticVersion) → parse_semantic_version (target_of m) ≡ some v → IsAfterRunning v)
    × (is_blank m.download_url ≡ false)
    × (is_blank m.sha256 ≡ false)
    × IsArchiveName (package_of m)

IsInstallable-IsUpgrade : (m : UpdateManifest) → IsInstallable m → IsUpgrade m
IsInstallable-IsUpgrade m (newer, located, summed, safe) = (
  λ v parsed. newer-IsAfterRunning (target_of m) v newer parsed,
  located,
  summed,
  safe-IsArchiveName (package_of m) safe,
)

-- What holds when a request starts the script.
abbrev pub Starts : UpgradeEnv → StateFile → String → Type 0
Starts env file script =
    (env.managed ≡ true)
    × IsIdle env file
    × ((m : UpdateManifest) × (env.fetched ≡ ok m)
        × IsUpgrade m
        × ScriptOf (new_task env m) env.manifest_url script)

not_busy :
    (env : UpgradeEnv) (c : Bool) (file : StateFile) (k : Created) {script : String}
    → (if c then busy env file else k).runner ≡ some script
    → (c ≡ false) × (k.runner ≡ some script)
not_busy env true file k h = absurd (none_is_not_some (sym (busy-runner env file) ∙ h))
not_busy env false file k h = (refl, h)

-- A request starts a runner only on a host with managed upgrades, where its check found the state
-- file without an upgrade at work (no task, one that is in none of the eight active states, one that
-- was marked as stale, or one that was last updated more than ten minutes before), and for the
-- downloaded manifest. If the target is a semantic version, its numbers are after 1.0.6; the address
-- and the checksum are not blank; the package is one or more letters, digits, "+", "-", "." or "_",
-- and ".zip", without "..". The script is the one for that manifest, over words that Bash reads as
-- its values. What others do to the state file after the check is left open.
pub create_task-Starts :
    (env : UpgradeEnv) (file : StateFile) (script : String)
    → (create_task env file).runner ≡ some script
    → Starts env file script
unfolding create_task
create_task-Starts env file script h =
    let next = (running_upgrade_task env file).1 in
    let (managed, h1) = passes (not env.managed) _ _ _ h in
    let (idle, h2) =
      not_busy env (running_upgrade_task env file).0 (env.others 0 next)
        (create_configured env (env.others 0 next)) h1 in
    let (configured, h3) =
      passes (env.manifest_url == "") _ _ (create_from env (env.others 0 next) env.fetched) h2 in
    let (m, fetched, installable, script_of) =
      create_from-IsInstallable env (env.others 0 next) env.fetched h3 in
    (
      not-true managed,
      unblocked-IsIdle env file idle,
      (m, fetched, IsInstallable-IsUpgrade m installable, script_of),
    )
