-- ===== src/Tests/UpgradeRuns.antt =====
-- An upgrade that died, is cleared, and is followed by another one.
use yuchen_panel.Common.{
  strip_prefix, trim_space, split, all_digits, scan_digits, ◌+◌, ◌*◌, ◌≡◌, refl, ℕ, String, true,
  false, [], ◌∷◌, Option, none, some, Outcome, ok, any,
}
use yuchen_panel.Http.{post}
use yuchen_panel.Model.{Time}
use yuchen_panel.Versions.Number.{cut}
use yuchen_panel.Versions.{parse_semantic_version, compare_semantic_version}
use yuchen_panel.Upgrades.Compare.{is_remote_version_newer}
use yuchen_panel.Upgrades.Shell.{shell_escape_values, has_forbidden}
use yuchen_panel.Upgrades.Words.{All-allowed-IsOneLine, Quotes, shell_escape_values-Quotes}
use yuchen_panel.Upgrades.Manifest.{UpdateManifest, first_non_empty, package_of}
use yuchen_panel.Upgrades.Task.{
  UpgradeTask, UpgradeEnv, StateFile, running_upgrade_task, safe_package_name,
}
use yuchen_panel.Upgrades.Script.{script_values}
use yuchen_panel.Upgrades.Handlers.{install_dir, new_task, create_task, update_task_clear_stale}
use yuchen_panel.Upgrades.Started.{Starts, create_task-Starts}
use yuchen_panel.Upgrades.Freed.{is_blocked}
use yuchen_panel.Upgrades.Restart.{Ready, create_task-starts, create_after-clear_stale}
use yuchen_panel.Tests.Data.{noon}

shell_escape_values-Quotes_example :
    Quotes ("it's" ∷ "$(reboot)" ∷ []) (shell_escape_values ("it's" ∷ "$(reboot)" ∷ []))
shell_escape_values-Quotes_example = shell_escape_values-Quotes ("it's" ∷ "$(reboot)" ∷ [])

abbrev manifest : UpdateManifest
manifest = record {
  latest = "1.0.7";
  version = "";
  package_name = "yuchen-panel_1.0.7.zip";
  download_url = "https://example.com/yuchen-panel_1.0.7.zip";
  sha256 = "00ff";
  changelog = [];
  min_supported_version = "";
}

abbrev stamp : Time → String
stamp t = "20240101_000000"

abbrev at_noon : String → Option Time
at_noon t = some noon

abbrev success : ℕ → Outcome (Unit {0})
success n = ok tt

abbrev at_rest : ℕ → StateFile → StateFile
at_rest n file = file

-- eleven minutes after noon
abbrev host : UpgradeEnv
host = record {
  now = noon + 11 * 60000000000;
  rfc3339 = stamp;
  compact = stamp;
  parse_rfc3339 = at_noon;
  parse_utc = at_noon;
  managed = true;
  manifest_url = "https://example.com/version.json";
  fetched = ok manifest;
  task_written = success;
  logs_made = ok tt;
  script_written = ok tt;
  started = ok tt;
  others = at_rest;
}

-- a task that the runner has left while it was downloading
abbrev dead : UpgradeTask
dead = record (new_task host manifest) { status = "downloading"; stage = "downloading" }

dead_idle : is_blocked host (some dead) ≡ false
unfolding running_upgrade_task parse_semantic_version strip_prefix trim_space split cut all_digits
    scan_digits new_task first_non_empty compare_semantic_version
dead_idle = refl

host-Ready : Ready host manifest
unfolding is_remote_version_newer parse_semantic_version strip_prefix first_non_empty cut all_digits
    scan_digits compare_semantic_version safe_package_name package_of new_task any has_forbidden
host-Ready = record {
  managed = refl;
  configured = refl;
  fetched = refl;
  installable = (refl, refl, refl, refl);
  writable = λ n. refl;
  logs = refl;
  script = refl;
  starts = refl;
  named = refl;
  plain =
      All-allowed-IsOneLine (script_values (new_task host manifest) host.manifest_url install_dir)
        refl;
}

create_after-clear_stale_example :
    (text : String) × ((create_task host (update_task_clear_stale host post (some dead)).0).runner
      ≡ some text)
create_after-clear_stale_example =
    create_after-clear_stale host host (some dead) manifest (λ n. refl) dead_idle host-Ready

-- the script that is started when there is no task
abbrev first_start : (text : String) × ((create_task host none).runner ≡ some text)
unfolding running_upgrade_task
first_start = create_task-starts host none manifest host-Ready refl

create_task-Starts_example : Starts host none first_start.0
create_task-Starts_example = create_task-Starts host none first_start.0 first_start.1
