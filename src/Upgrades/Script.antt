-- ===== src/Upgrades/Script.antt =====
-- The script of the runner (backend/internal/api/upgrade_tasks.go, `writeUpgradeRunnerAt`), line by
-- line, with the values in its first lines.
use yuchen_panel.Common.{
  String, List, [], ◌∷◌, ◌++◌, map, append, Outcome, ok, ◌>>=◌, ◌>>◌, fail_if, not,
}
use yuchen_panel.Store.{panel_version}
use yuchen_panel.Upgrades.Manifest.{concat}
use yuchen_panel.Upgrades.Shell.{shell_escape_values}
use yuchen_panel.Upgrades.Task.{UpgradeTask, UpgradeEnv, all_chars, is_word_char, class_plus}

-- before the functions
abbrev script_start : List String
script_start =
    "# TODO P2-027: derive the health port from YC_API_ADDR in the stability batch."
    ∷ "API_URL=\"http://127.0.0.1:8088/api/health\"" ∷ ""
    ∷ "mkdir -p \"$(dirname \"$STATUS_FILE\")\" \"$(dirname \"$LOG_FILE\")\" \"$WORK_DIR\" \"$BACKUP_DIR\""
    ∷ "exec >>\"$LOG_FILE\" 2>&1" ∷ "" ∷ []

-- the function `write_status`
abbrev script_write_status : List String
script_write_status =
    "write_status() {"
    ∷ "  local status=\"$1\" stage=\"$2\" message=\"$3\" exit_code=\"${4:-0}\" error_msg=\"${5:-}\""
    ∷ "  python3 - \"$STATUS_FILE\" \"$TASK_ID\" \"$status\" \"$stage\" \"$message\" \"$exit_code\" \"$error_msg\" \"$LOG_FILE\" \"$WORK_DIR\" \"$PKG\" \"$DOWNLOAD_URL\" \"$SHA256\" \"$CURRENT_VERSION\" \"$TARGET_VERSION\" <<'PY_STATUS'"
    ∷ "import json, sys, time"
    ∷ "path, task_id, status, stage, message, exit_code, error_msg, log_file, work_dir, pkg, dl, sha, cur, target = sys.argv[1:]"
    ∷ "try:" ∷ "    with open(path, encoding='utf-8') as f:" ∷ "        data=json.load(f)"
    ∷ "except Exception:" ∷ "    data={}" ∷ "data.update({" ∷ "    'id': task_id,"
    ∷ "    'status': status," ∷ "    'stage': stage," ∷ "    'message': message,"
    ∷ "    'exit_code': int(exit_code or 0)," ∷ "    'error': error_msg,"
    ∷ "    'log_file': log_file," ∷ "    'work_dir': work_dir," ∷ "    'package': pkg,"
    ∷ "    'download_url': dl," ∷ "    'sha256': sha," ∷ "    'current_version': cur,"
    ∷ "    'target_version': target,"
    ∷ "    'updated_at': time.strftime('%Y-%m-%dT%H:%M:%SZ', time.gmtime())," ∷ "})"
    ∷ "if not data.get('started_at'):" ∷ "    data['started_at']=data['updated_at']"
    ∷ "if status in ('success','failed'):" ∷ "    data['completed_at']=data['updated_at']"
    ∷ "data.pop('stale', None)" ∷ "data.pop('stale_reason', None)"
    ∷ "with open(path, 'w', encoding='utf-8') as f:"
    ∷ "    json.dump(data, f, ensure_ascii=False, indent=2)" ∷ "PY_STATUS" ∷ "}" ∷ "" ∷ []

-- the function `fail` and the stages up to the restart
abbrev script_stages : List String
script_stages =
    "fail() {" ∷ "  local code=\"$1\" stage=\"$2\" msg=\"$3\"" ∷ "  echo \"[FAILED] $stage: $msg\""
    ∷ "  write_status failed \"$stage\" \"$msg\" \"$code\" \"$msg\"" ∷ "  exit \"$code\"" ∷ "}" ∷ ""
    ∷ "trap 'fail $? unexpected \"upgrade script interrupted\"' ERR" ∷ ""
    ∷ "echo \"========== Yuchen Panel Upgrade Task $TASK_ID ==========\""
    ∷ "echo \"Start: $(date)\"" ∷ "echo \"Current: $CURRENT_VERSION\""
    ∷ "echo \"Target: $TARGET_VERSION\"" ∷ "echo \"Package: $PKG\"" ∷ "echo \"Runner PID: $$\""
    ∷ "write_status running precheck \"升级前检查中\"" ∷ ""
    ∷ "command -v curl >/dev/null 2>&1 || fail 11 precheck \"curl not found\""
    ∷ "command -v unzip >/dev/null 2>&1 || fail 12 precheck \"unzip not found\""
    ∷ "command -v sha256sum >/dev/null 2>&1 || fail 13 precheck \"sha256sum not found\""
    ∷ "command -v python3 >/dev/null 2>&1 || fail 14 precheck \"python3 not found\"" ∷ ""
    ∷ "free_kb=$(df -Pk /root | awk 'NR==2{print $4}')"
    ∷ "if [ \"${free_kb:-0}\" -lt 1048576 ]; then" ∷ "  fail 15 precheck \"磁盘可用空间不足 1GB\"" ∷ "fi"
    ∷ "" ∷ "cd \"$WORK_DIR\" || fail 16 precheck \"无法进入升级工作目录\"" ∷ "rm -f \"$PKG\""
    ∷ "write_status downloading downloading \"正在下载升级包\"" ∷ "echo \"Downloading: $DOWNLOAD_URL\""
    ∷ "curl --proto '=https' --proto-redir '=https' -fL --retry 3 --connect-timeout 10 -o \"$PKG\" \"$DOWNLOAD_URL\" || fail 21 downloading \"升级包下载失败\""
    ∷ "" ∷ "write_status verifying verifying \"正在校验 SHA256\""
    ∷ "echo \"$SHA256  $PKG\" | sha256sum -c - || fail 22 verifying \"SHA256 校验失败\"" ∷ ""
    ∷ "write_status backing_up backing_up \"正在备份当前版本配置和数据\"" ∷ "mkdir -p \"$BACKUP_DIR\""
    ∷ "[ -d /opt/yuchen-panel/data ] && tar -czf \"$BACKUP_DIR/data.tar.gz\" -C /opt/yuchen-panel data || true"
    ∷ "[ -d /etc/yuchen-panel ] && tar -czf \"$BACKUP_DIR/etc-yuchen-panel.tar.gz\" -C /etc yuchen-panel || true"
    ∷ "[ -f /etc/nginx/conf.d/yuchen-panel.conf ] && cp -a /etc/nginx/conf.d/yuchen-panel.conf \"$BACKUP_DIR/yuchen-panel.nginx.conf\" || true"
    ∷ "[ -f /opt/yuchen-panel/.env ] && cp -a /opt/yuchen-panel/.env \"$BACKUP_DIR/dot-env\" || true"
    ∷ "" ∷ "echo \"Unzipping package\"" ∷ "rm -rf \"${PKG%.zip}\""
    ∷ "unzip -o \"$PKG\" || fail 31 installing \"解压升级包失败\""
    ∷ "cd \"${PKG%.zip}\" || fail 32 installing \"解压目录不存在\"" ∷ ""
    ∷ "write_status installing installing \"正在执行 deploy/install.sh，面板可能短暂断开\""
    ∷ "echo \"Running deploy/install.sh\""
    ∷ "YC_UPDATE_MANIFEST_URL=\"$MANIFEST_URL\" YC_INSTALL_MODE=fast bash deploy/install.sh || fail 33 installing \"安装脚本执行失败\""
    ∷ "" ∷ "write_status restarting restarting \"安装脚本完成，正在等待 API 恢复并校验版本\""
    ∷ "systemctl restart yuchen-panel-api nginx yuchen-agent >/dev/null 2>&1 || true" ∷ "" ∷ []

-- the wait for the new version
abbrev script_wait : List String
script_wait =
    "for i in $(seq 1 90); do"
    ∷ "  health=$(curl -fsS --max-time 2 \"$API_URL\" 2>/dev/null || true)"
    ∷ "  if python3 - \"$health\" \"$TARGET_VERSION\" <<'PY_VERSION'" ∷ "import json, sys" ∷ ""
    ∷ "def parse(value):" ∷ "    value = value.strip().lstrip(\"v\")"
    ∷ "    core, _, pre = value.partition(\"-\")" ∷ "    parts = core.split(\".\")"
    ∷ "    if not 1 <= len(parts) <= 3 or any(not p.isdigit() for p in parts):"
    ∷ "        raise ValueError(value)" ∷ "    nums = [int(p) for p in parts] + [0, 0]"
    ∷ "    if \"-\" in value and not pre: raise ValueError(value)"
    ∷ "    if pre == \"stable\": pre = \"\"" ∷ "    return tuple(nums[:3]), pre" ∷ "try:"
    ∷ "    current = json.loads(sys.argv[1]).get(\"version\", \"\")" ∷ "    target = sys.argv[2]"
    ∷ "    ccore, cpre = parse(current); tcore, tpre = parse(target)"
    ∷ "    if ccore != tcore or (cpre or \"\") != (tpre or \"\"):"
    ∷ "        raise ValueError(\"version mismatch\")"
    ∷ "except (ValueError, TypeError, AttributeError, json.JSONDecodeError):"
    ∷ "    raise SystemExit(1)" ∷ "PY_VERSION" ∷ "  then"
    ∷ "    echo \"API health target version verified: $TARGET_VERSION\""
    ∷ "    write_status success success \"升级完成，当前 API 版本已切换到 $TARGET_VERSION\""
    ∷ "    echo \"Upgrade finished: $(date)\"" ∷ "    exit 0" ∷ "  fi"
    ∷ "  if [ $((i % 10)) -eq 0 ]; then"
    ∷ "    echo \"Waiting API target version... round=$i health=$health\"" ∷ "  fi" ∷ "  sleep 2"
    ∷ "done" ∷ "" ∷ "health=$(curl -fsS --max-time 3 \"$API_URL\" 2>/dev/null || true)"
    ∷ "echo \"Last API health: $health\""
    ∷ "fail 34 verify \"安装脚本已结束，但 API health 未返回目标版本 $TARGET_VERSION\"" ∷ []

abbrev assignments : List String → List String → List String
assignments [] values = []
assignments (name ∷ names) [] = []
assignments (name ∷ names) (v ∷ values) = append name (append "=" v) ∷ assignments names values

-- the variables that the script begins with
abbrev pub script_variables : List String
script_variables =
    "TASK_ID" ∷ "STATUS_FILE" ∷ "LOG_FILE" ∷ "WORK_DIR" ∷ "BACKUP_DIR" ∷ "PKG" ∷ "DOWNLOAD_URL"
    ∷ "SHA256" ∷ "MANIFEST_URL" ∷ "INSTALL_DIR" ∷ "CURRENT_VERSION" ∷ "TARGET_VERSION" ∷ []

-- the script over the escaped values, each line with its end
unfoldable pub script_text : List String → String
script_text values = concat (
    map (λ line. append line "\n")
      (("#!/usr/bin/env bash" ∷ "set -u" ∷ "umask 077" ∷ [])
        ++ assignments script_variables values
        ++ script_start
        ++ script_write_status
        ++ script_stages
        ++ script_wait))

-- filepath.Join of a clean root and of names without separators
abbrev pub path : List String → String
path [] = ""
path (x ∷ []) = x
path (x ∷ y ∷ names) = append x (append "/" (path (y ∷ names)))

-- the values, in the order of the variables
abbrev pub script_values : UpgradeTask → String → String → List String
script_values task manifest_url root =
    task.id
    ∷ path (root ∷ "data" ∷ "upgrade-task-latest.json" ∷ [])
    ∷ task.log_file
    ∷ task.work_dir
    ∷ path (root ∷ "backups" ∷ "upgrade" ∷ task.id ∷ [])
    ∷ task.package_name
    ∷ task.download_url
    ∷ task.sha256
    ∷ manifest_url
    ∷ root
    ∷ panel_version
    ∷ task.target_version
    ∷ []

-- `writeUpgradeRunnerAt`: the path of the script and its text, when the file could be written
unfoldable pub write_upgrade_runner_at :
    UpgradeEnv → UpgradeTask → String → String → Outcome (String × String)
unfolding shell_escape_values script_text all_chars is_word_char
write_upgrade_runner_at env task manifest_url root =
    fail_if (not (class_plus is_word_char task.id)) "unsafe task id"
    >> (shell_escape_values (script_values task manifest_url root) >>= (λ values.
        env.script_written
        >> ok (path (root ∷ "logs" ∷ append task.id ".sh" ∷ []), script_text values)))
