-- ===== src/Upgrades/Restart.antt =====
-- A request that finds everything it needs starts the upgrade.
use text.Mathlib.TextEquality.{eq_iff}
use yuchen_panel.Common.{
  ◌≡◌, refl, sym, ap, ◌∙◌, String, true, false, List, [], ◌∷◌, append, some, ◌==◌, if◌then◌else◌,
  All, trim_space, Outcome, ok, err, inl, inr, Bool-cases,
}
use yuchen_panel.Http.{post}
use yuchen_panel.Places.{true_is_not_false}
use yuchen_panel.Upgrades.Shell.{shell_escape_values}
use yuchen_panel.Upgrades.Words.{IsOneLine, Quotes, shell_escape_values-Quotes}
use yuchen_panel.Upgrades.Manifest.{UpdateManifest, package_of}
use yuchen_panel.Upgrades.Task.{
  UpgradeTask, UpgradeEnv, StateFile, class_plus, is_word_char, running_upgrade_task,
  safe_package_name,
}
use yuchen_panel.Upgrades.Script.{script_values, script_text, path, write_upgrade_runner_at}
use yuchen_panel.Upgrades.Handlers.{
  install_dir, new_task, store_and_start, create_from, create_task, update_task_clear_stale,
}
use yuchen_panel.Upgrades.Started.{IsInstallable}
use yuchen_panel.Upgrades.Freed.{Writable, is_blocked, clear_stale-frees}

-- The host lets the request go through for this manifest.
pub record Ready (env : UpgradeEnv) (m : UpdateManifest) : Type 0 where
  pub managed : env.managed ≡ true
  pub configured : (env.manifest_url == "") ≡ false
  pub fetched : env.fetched ≡ ok m
  pub installable : IsInstallable m
  pub writable : Writable env
  pub logs : env.logs_made ≡ ok tt
  pub script : env.script_written ≡ ok tt
  pub starts : env.started ≡ ok tt
  pub named : class_plus is_word_char (new_task env m).id ≡ true
  pub plain : All IsOneLine (script_values (new_task env m) env.manifest_url install_dir)

plain_escaped :
    (values : List String) (result : Outcome (List String))
    → Quotes values result
    → All IsOneLine values
    → (words : List String) × (result ≡ ok words)
plain_escaped values (ok words) quotes plain = (words, refl)
plain_escaped values (err e) refused plain = absurd (refused plain)

safe_not_empty : (pkg : String) → safe_package_name pkg ≡ true → (pkg == "") ≡ false
unfolding safe_package_name trim_space
safe_not_empty pkg safe = elim (Bool-cases (pkg == "")) [
  | inl e ↦
      let empty : pkg ≡ "" = (eq_iff pkg "").0 e in
      absurd (true_is_not_false (sym safe ∙ ap safe_package_name empty))
  | inr e ↦ e
]

script_made :
    (env : UpgradeEnv) (task : UpgradeTask) (url root : String) (words : List String)
    → class_plus is_word_char task.id ≡ true
    → shell_escape_values (script_values task url root) ≡ ok words
    → env.script_written ≡ ok tt
    → (place : String) × (write_upgrade_runner_at env task url root ≡ ok (place, script_text words))
unfolding write_upgrade_runner_at
script_made env task url root words named escaped written =
    (path (root ∷ "logs" ∷ append task.id ".sh" ∷ []), rw (named, escaped, written) refl)

script_started :
    (env : UpgradeEnv) (task : UpgradeTask) (logs written : Outcome (Unit {0})) (file : StateFile)
    {place text : String}
    → logs ≡ ok tt
    → written ≡ ok tt
    → write_upgrade_runner_at env task env.manifest_url install_dir ≡ ok (place, text)
    → env.started ≡ ok tt
    → (store_and_start env task logs written file).runner ≡ some text
script_started env task logs written file made_logs stored made begun =
    rw (made_logs, stored, made, begun) refl

create_from-starts :
    (env : UpgradeEnv) (file : StateFile) (m : UpdateManifest)
    → Ready env m
    → (text : String) × ((create_from env file (ok m)).runner ≡ some text)
create_from-starts env file m ready =
    let (newer, located, summed, safe) = ready.installable in
    let values = script_values (new_task env m) env.manifest_url install_dir in
    let (words, escaped) =
      plain_escaped values (shell_escape_values values) (shell_escape_values-Quotes values)
        ready.plain in
    let (place, made) =
      script_made env (new_task env m) env.manifest_url install_dir words ready.named escaped
        ready.script in
    let begun =
      script_started env (new_task env m) env.logs_made (env.task_written 1) file ready.logs
        (ready.writable 1) made ready.starts in
    (
      script_text words,
      rw (newer, safe_not_empty (package_of m) safe, located, summed, safe, if◌then◌else◌) begun,
    )

pub create_task-starts :
    (env : UpgradeEnv) (file : StateFile) (m : UpdateManifest)
    → Ready env m
    → is_blocked env file ≡ false
    → (text : String) × ((create_task env file).runner ≡ some text)
unfolding create_task
create_task-starts env file m ready idle =
    let (text, made) =
      create_from-starts env (env.others 0 (running_upgrade_task env file).1) m ready in
    (
      text,
      rw
          (
            ready.managed, if◌then◌else◌, idle, if◌then◌else◌, ready.configured, if◌then◌else◌,
            ready.fetched, made,
          )
          refl,
    )

-- A dead upgrade does not stop the next one: after a clearing that could be written, of a task that
-- had ended or had not been updated for ten minutes, the next request for which the host has
-- everything starts a runner.
pub create_after-clear_stale :
    (env later : UpgradeEnv) (file : StateFile) (m : UpdateManifest)
    → Writable env
    → is_blocked env file ≡ false
    → Ready later m
    → (text : String) × ((create_task later (update_task_clear_stale env post file).0).runner
        ≡ some text)
create_after-clear_stale env later file m writes idle ready =
    create_task-starts later (update_task_clear_stale env post file).0 m ready
      (clear_stale-frees env later file writes idle)
