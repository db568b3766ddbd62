-- ===== src/Upgrades/Task.antt =====
-- The state of the upgrade task (backend/internal/api/upgrade_tasks.go), kept in a file that the
-- panel and the runner's script write.
use Prim.Native.Char.{code}
use yuchen_panel.Common.{
  ℕ, ◌+◌, ◌*◌, String, Bool, true, false, not, ◌&&◌, ◌||◌, ℤ, [], ◌∷◌, Option, none, some, contains,
  eqb, leb, strip_suffix, has_infix, ◌==◌, if◌then◌else◌, Outcome, ok, err,
}
use yuchen_panel.Model.{Time, is_zero}
use yuchen_panel.Store.{panel_version}
use yuchen_panel.Versions.{version_matches_target}
use yuchen_panel.Upgrades.Manifest.{UpdateManifest, is_blank}

pub record UpgradeTask : Type 0 where
  pub id : String
  pub status : String
  pub stage : String
  pub message : String
  pub current_version : String
  pub target_version : String
  pub package_name : String
  pub download_url : String
  pub sha256 : String
  pub log_file : String
  pub work_dir : String
  pub started_at : String
  pub updated_at : String
  pub completed_at : String
  pub exit_code : ℤ
  pub error_text : String
  pub manifest : UpdateManifest
  pub is_stale : Bool
  pub stale_reason : String

-- the content of the state file; `none` when it is missing or cannot be read
abbrev pub StateFile : Type 0
StateFile = Option UpgradeTask

-- What a request reads from the host: the clock, the texts of times and their parsers for the two
-- layouts, whether the host supports managed upgrades, the address of the manifest and what its
-- download returned, the result of the n-th write of the state file, and what the directories, the
-- script and the runner's start returned. No lock is held from one step to the next: `others 0` is
-- what other requests and scripts do to the state file between the check of the running task and the
-- next step, and `others 1` between the first write of a new task and the second.
pub record UpgradeEnv : Type 0 where
  pub now : Time
  pub rfc3339 : Time → String
  pub compact : Time → String
  pub parse_rfc3339 : String → Option Time
  pub parse_utc : String → Option Time
  pub managed : Bool
  pub manifest_url : String
  pub fetched : Outcome UpdateManifest
  pub task_written : ℕ → Outcome (Unit {0})
  pub logs_made : Outcome (Unit {0})
  pub script_written : Outcome (Unit {0})
  pub started : Outcome (Unit {0})
  pub others : ℕ → StateFile → StateFile

unfoldable pub is_active_upgrade_status : String → Bool
unfolding contains
is_active_upgrade_status status =
    contains
      ("pending" ∷ "running" ∷ "queued" ∷ "downloading" ∷ "verifying" ∷ "backing_up" ∷ "installing"
        ∷ "restarting" ∷ [])
      status

abbrev pub or_time : Option Time → Option Time → Time
or_time (some t) second = t
or_time none (some t) = t
or_time none none = 0

-- the time of the last update, or the zero time
unfoldable pub updated_time : UpgradeEnv → UpgradeTask → Time
updated_time env s = or_time (env.parse_rfc3339 s.updated_at) (env.parse_utc s.updated_at)

abbrev pub ten_minutes : ℕ
ten_minutes = 10 * 60 * 1000000000

abbrev pub saved_file : Outcome (Unit {0}) → UpgradeTask → StateFile → StateFile
saved_file (ok done) s file = some s
saved_file (err e) s file = file

abbrev pub touched : UpgradeEnv → UpgradeTask → UpgradeTask
touched env s = record s { updated_at = env.rfc3339 env.now }

-- `writeUpgradeTaskState`, the n-th of the request
unfoldable pub write_upgrade_task_state : UpgradeEnv → ℕ → UpgradeTask → StateFile → StateFile
write_upgrade_task_state env n s file = saved_file (env.task_written n) (touched env s) file

abbrev pub recovered : UpgradeEnv → UpgradeTask → UpgradeTask
recovered env s = record s {
  status = "success";
  stage = "recovered_success";
  message = "检测到当前 API 版本已是目标版本，已自动恢复升级任务为成功。";
  error_text = "";
  completed_at = env.rfc3339 env.now;
}

abbrev pub stale : UpgradeTask → UpgradeTask
stale s = record s {
  is_stale = true;
  stale_reason = "任务超过 10 分钟未更新，且当前 API 版本仍未变成目标版本。可能在 install.sh 重启 API 前后被中断。";
}

-- whether an active task has not been updated for ten minutes
unfoldable pub is_overdue : UpgradeEnv → UpgradeTask → Bool
unfolding is_active_upgrade_status updated_time
is_overdue env s =
    let updated = updated_time env s in
    is_active_upgrade_status s.status
    && not (is_zero updated || leb env.now (updated + ten_minutes))

-- `normalizeUpgradeTaskState`, which writes a recovered task
unfoldable pub normalize_upgrade_task_state :
    UpgradeEnv → UpgradeTask → StateFile → UpgradeTask × StateFile
unfolding is_overdue version_matches_target write_upgrade_task_state
normalize_upgrade_task_state env s file =
    if not (is_overdue env s)
    then (s, file)
    else if version_matches_target panel_version s.target_version
    then (recovered env s, write_upgrade_task_state env 0 (recovered env s) file)
    else (stale s, file)

-- a task that is active and not stale
abbrev pub is_running : UpgradeTask → Bool
is_running s = is_active_upgrade_status s.status && not s.is_stale

-- `runningUpgradeTask`
unfoldable pub running_upgrade_task : UpgradeEnv → StateFile → Bool × StateFile
unfolding normalize_upgrade_task_state is_active_upgrade_status
running_upgrade_task env none = (false, none)
running_upgrade_task env (some s) =
    let (task, file) = normalize_upgrade_task_state env s (some s) in (is_running task, file)

-- the characters of the class [A-Za-z0-9_-], and with "." and "+"
unfoldable pub is_word_char : ℕ → Bool
is_word_char c =
    (leb b'A' c && leb c b'Z')
    || (leb b'a' c && leb c b'z')
    || (leb b'0' c && leb c b'9')
    || eqb c b'_'
    || eqb c b'-'

unfoldable pub all_chars : (ℕ → Bool) → String → Bool
all_chars p String.[] = true
all_chars p (String.◌∷◌ c s) = p (code c) && all_chars p s

-- the match of ^[class]+$
abbrev pub class_plus : (ℕ → Bool) → String → Bool
class_plus p s = not (s == "") && all_chars p s

abbrev pub is_package_char : ℕ → Bool
is_package_char c = is_word_char c || eqb c b'.' || eqb c b'+'

-- `safePackageName`: no separator, no "..", and ^[A-Za-z0-9._+-]+\.zip$
unfoldable pub safe_package_name : String → Bool
unfolding all_chars is_word_char has_infix strip_suffix
safe_package_name s =
    if has_infix s "/" || has_infix s ".." || is_blank s
    then false
    else elim (strip_suffix ".zip" s) [ none ↦ false | some stem ↦ class_plus is_package_char stem ]
