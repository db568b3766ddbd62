-- ===== src/Upgrades/Handlers.antt =====
-- The requests for the upgrade task (backend/internal/api/upgrade_tasks.go).
use yuchen_panel.Common.{
  String, Bool, true, false, not, ◌&&◌, ◌||◌, pos, [], ◌∷◌, Option, none, some, append, ◌==◌,
  if◌then◌else◌, Outcome, ok, err,
}
use yuchen_panel.Http.{Method, get, post, Reply, reply, method_not_allowed}
use yuchen_panel.Store.{panel_version}
use yuchen_panel.Upgrades.Compare.{is_remote_version_newer}
use yuchen_panel.Upgrades.Manifest.{
  UpdateManifest, first_non_empty, is_blank, target_of, package_of,
}
use yuchen_panel.Upgrades.Task.{
  UpgradeTask, UpgradeEnv, StateFile, is_active_upgrade_status, normalize_upgrade_task_state,
  running_upgrade_task, safe_package_name, write_upgrade_task_state,
}
use yuchen_panel.Upgrades.Script.{path, write_upgrade_runner_at}

abbrev pub install_dir : String
install_dir = "/opt/yuchen-panel"

-- the map of a reply: whether it is ok, the message, and the task it shows
pub record TaskReply : Type 0 where
  pub is_ok : Bool
  pub message : String
  pub task : Option UpgradeTask

abbrev pub shows : Bool → String → Option UpgradeTask → Reply TaskReply
shows is_ok message task = reply 200 (record { is_ok = is_ok; message = message; task = task })

-- `updateTaskLatest`
unfoldable pub update_task_latest : UpgradeEnv → Method → StateFile → StateFile × Reply TaskReply
unfolding normalize_upgrade_task_state
update_task_latest env get none = (none, shows true "暂无升级任务" none)
update_task_latest env get (some s) =
    let (task, file) = normalize_upgrade_task_state env s (some s) in
    (file, shows true "" (some task))
update_task_latest env _ file = (file, method_not_allowed)

-- the state that the administrator's clearing writes
unfoldable pub cleared : UpgradeEnv → UpgradeTask → UpgradeTask
unfolding first_non_empty
cleared env s = record s {
  status = "failed";
  stage = "stale_cleaned";
  message = "已由管理员清理卡死升级任务。日志和备份已保留，可重新检查更新或使用 SSH 命令兜底。";
  error_text = first_non_empty (s.stale_reason ∷ "upgrade task stale and manually cleaned" ∷ []);
  exit_code = pos 98;
  completed_at = env.rfc3339 env.now;
  is_stale = true;
  stale_reason = if s.stale_reason == "" then "任务超时未更新，已清理为 failed。" else s.stale_reason;
}

unfoldable pub clear_normalized : UpgradeEnv → UpgradeTask → StateFile → StateFile × Reply TaskReply
unfolding cleared write_upgrade_task_state
clear_normalized env s file =
    if not s.is_stale && is_active_upgrade_status s.status
    then (file, shows false "当前任务仍在执行中，尚未达到卡死清理条件。" (some s))
    else if s.status == "success" || s.status == "failed"
    then (file, shows true "任务已结束，无需清理。" (some s))
    else (
      write_upgrade_task_state env 1 (cleared env s) file,
      shows true (cleared env s).message (some (cleared env s)),
    )

-- `updateTaskClearStale`
unfoldable pub update_task_clear_stale :
    UpgradeEnv → Method → StateFile → StateFile × Reply TaskReply
unfolding normalize_upgrade_task_state clear_normalized
update_task_clear_stale env post none = (none, shows true "暂无需要清理的升级任务" none)
update_task_clear_stale env post (some s) =
    let (task, file) = normalize_upgrade_task_state env s (some s) in clear_normalized env task file
update_task_clear_stale env _ file = (file, method_not_allowed)

-- What a request did: the state file, the reply, and the script that it has started.
pub record Created : Type 0 where
  pub file : StateFile
  pub answer : Reply TaskReply
  pub runner : Option String

abbrev pub refuse : StateFile → String → Created
refuse file message = record { file = file; answer = shows false message none; runner = none }

-- the task that is made for a manifest
unfoldable pub new_task : UpgradeEnv → UpdateManifest → UpgradeTask
unfolding package_of
new_task env m =
    let task_id = append "upgrade_" (env.compact env.now) in
    record {
      id = task_id;
      status = "pending";
      stage = "created";
      message = "升级任务已创建，等待独立 systemd runner 接管。";
      current_version = panel_version;
      target_version = target_of m;
      package_name = package_of m;
      download_url = m.download_url;
      sha256 = m.sha256;
      log_file = path (install_dir ∷ "logs" ∷ append task_id ".log" ∷ []);
      work_dir = path ("/root/yuchen-panel-upgrades" ∷ task_id ∷ []);
      started_at = env.rfc3339 env.now;
      updated_at = env.rfc3339 env.now;
      completed_at = "";
      exit_code = pos 0;
      error_text = "";
      manifest = m;
      is_stale = false;
      stale_reason = "";
    }

abbrev failed_task : String → String → UpgradeTask → UpgradeTask
failed_task stage e task = record task { status = "failed"; stage = stage; error_text = e }

abbrev queued_task : UpgradeTask → UpgradeTask
queued_task task = record task {
  status = "running";
  stage = "queued";
  message = "升级任务已交给独立 systemd runner 执行。API 重启不会中断升级；页面可继续刷新查看日志。";
}

-- a failure after the task was stored
abbrev give_up : UpgradeEnv → String → String → String → UpgradeTask → StateFile → Created
give_up env stage prefix e task file =
    let failed = failed_task stage e task in
    record {
      file = write_upgrade_task_state env 2 failed file;
      answer = shows false (append prefix e) (some failed);
      runner = none;
    }

abbrev pub start_runner :
    UpgradeEnv → UpgradeTask → Outcome (String × String) → Outcome (Unit {0}) → StateFile → Created
start_runner env task (err e) started file = give_up env "prepare_failed" "无法生成升级脚本：" e task file
start_runner env task (ok (place, script)) (err e) file =
    give_up env "start_failed" "升级任务启动失败：" e task file
start_runner env task (ok (place, script)) (ok done) file = record {
  file = write_upgrade_task_state env 2 (queued_task task) file;
  answer = shows true (queued_task task).message (some (queued_task task));
  runner = some script;
}

-- the log directory, the first write of the state, the script, and its start
abbrev pub store_and_start :
    UpgradeEnv → UpgradeTask → Outcome (Unit {0}) → Outcome (Unit {0}) → StateFile → Created
store_and_start env task (err e) written file = refuse file (append "无法创建日志目录：" e)
store_and_start env task (ok done) (err e) file = refuse file (append "无法写入任务状态：" e)
store_and_start env task (ok done) (ok written) file =
    start_runner env task (write_upgrade_runner_at env task env.manifest_url install_dir)
      env.started (env.others 1 (write_upgrade_task_state env 1 task file))

-- the guards on the manifest
abbrev pub create_from : UpgradeEnv → StateFile → Outcome UpdateManifest → Created
create_from env file (err e) = refuse file (append "远程版本清单不可用：" e)
create_from env file (ok m) =
    if not (is_remote_version_newer (target_of m) panel_version)
    then refuse file "当前已是最新版本，远程版本不高于当前版本，已禁止创建降级升级任务。"
    else if package_of m == "" || is_blank m.download_url || is_blank m.sha256
    then refuse file "version.json 缺少 package、download_url 或 sha256，禁止托管升级。"
    else if not (safe_package_name (package_of m))
    then refuse file "升级包文件名不安全，已拒绝。"
    else store_and_start env (new_task env m) env.logs_made (env.task_written 1) file

abbrev is_busy_message : String
is_busy_message = "已有升级任务正在执行，请等待完成。若任务超过 10 分钟未更新，可先清理卡死任务。"

-- the reply while a task runs, with that task as the file has it
abbrev pub busy : UpgradeEnv → StateFile → Created
busy env none = refuse none is_busy_message
busy env (some s) =
    let (task, file) = normalize_upgrade_task_state env s (some s) in
    record { file = file; answer = shows false is_busy_message (some task); runner = none }

abbrev pub create_configured : UpgradeEnv → StateFile → Created
create_configured env file =
    if env.manifest_url == ""
    then refuse file "远程版本清单未配置，无法托管升级。"
    else create_from env file env.fetched

-- what follows the check of the running task, for which no lock is held: by then other requests may
-- have changed the state file
unfoldable pub create_task : UpgradeEnv → StateFile → Created
unfolding running_upgrade_task normalize_upgrade_task_state is_remote_version_newer first_non_empty
    package_of safe_package_name new_task write_upgrade_runner_at write_upgrade_task_state
create_task env file =
    let (is_busy, file') = running_upgrade_task env file in
    if not env.managed
    then refuse file "当前运行模式暂不支持后台托管升级。请继续使用复制升级命令作为兜底方案。fast/systemd 模式支持托管升级。"
    else if is_busy
    then busy env (env.others 0 file')
    else create_configured env (env.others 0 file')

-- `updateTaskCreate`
unfoldable pub update_task_create : UpgradeEnv → Method → StateFile → Created
unfolding create_task
update_task_create env post file = create_task env file
update_task_create env _ file = record { file = file; answer = method_not_allowed; runner = none }
