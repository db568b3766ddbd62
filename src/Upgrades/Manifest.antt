-- ===== src/Upgrades/Manifest.antt =====
-- The version manifest and the command that installs a release
-- (backend/internal/api/updates.go). The download of the manifest is an argument: the decoded value
-- or the text of the error.
use yuchen_panel.Common.{
  String, Bool, not, ◌&&◌, ◌||◌, List, [], ◌∷◌, append, trim_space, trim_suffix, split, ◌==◌,
  if◌then◌else◌, Outcome, ok, err,
}
use yuchen_panel.Http.{Method, get, post, Reply, reply, method_not_allowed}
use yuchen_panel.Model.{Server}
use yuchen_panel.Store.{panel_version}
use yuchen_panel.Upgrades.Compare.{is_remote_version_newer}
use yuchen_panel.Upgrades.Shell.{shell_escape_values}

pub record UpdateManifest : Type 0 where
  pub latest : String
  pub version : String
  pub package_name : String
  pub download_url : String
  pub sha256 : String
  pub changelog : List String
  pub min_supported_version : String

abbrev pub is_blank : String → Bool
is_blank v = trim_space v == ""

-- `firstNonEmpty`
unfoldable pub first_non_empty : List String → String
first_non_empty [] = ""
first_non_empty (v ∷ vals) = let rest = first_non_empty vals in if is_blank v then rest else v

abbrev pub last_or : String → List String → String
last_or d [] = d
last_or d (x ∷ xs) = last_or x xs

-- the version that a manifest offers
abbrev pub target_of : UpdateManifest → String
target_of m = first_non_empty (m.latest ∷ m.version ∷ [])

-- the package: its name, or else the last part of the URL
unfoldable pub package_of : UpdateManifest → String
unfolding split trim_space
package_of m =
    let pkg = trim_space m.package_name in
    if pkg == "" && not (m.download_url == "") then last_or "" (split m.download_url b'/') else pkg

-- `updateMessage`
unfoldable pub update_message : String → String
unfolding is_remote_version_newer
update_message latest =
    if latest == ""
    then "远程版本清单未提供 latest 字段。"
    else if is_remote_version_newer latest panel_version
    then "发现新版本，可查看更新日志并生成升级命令。"
    else "当前已是最新版本。"

-- the maps of the replies, by what they report
pub data UpdateBody : Type 0 where
  not_configured : String → UpdateBody
  unavailable : String → String → UpdateBody
  checked : String → Bool → UpdateManifest → String → UpdateBody
  up_to_date : String → UpdateBody
  incomplete : String → UpdateBody
  unsafe_field : String → UpdateBody
  command : String → String → String → UpdateBody

abbrev pub check_manifest : Outcome UpdateManifest → Reply UpdateBody
check_manifest (err e) = reply 200 (unavailable e (append "暂时无法获取远程版本清单：" e))
check_manifest (ok m) =
    let latest = if m.latest == "" then m.version else m.latest in
    reply 200
      (checked latest (is_remote_version_newer latest panel_version) m (update_message latest))

-- `updateCheck`, where `url` is `updateManifestURL()`
unfoldable pub update_check : Method → String → Outcome UpdateManifest → Reply UpdateBody
unfolding is_remote_version_newer update_message
update_check method url fetched = elim method [
  | get ↦ answer
  | post ↦ answer
  | _ ↦ method_not_allowed
]
  where
    answer : Reply UpdateBody
    answer =
        if url == ""
        then reply 200
            (not_configured "暂未配置远程版本清单。请先上传代码仓库并发布 version.json，再设置 YC_UPDATE_MANIFEST_URL。")
        else check_manifest fetched

abbrev pub concat : List String → String
concat [] = ""
concat (x ∷ xs) = append x (concat xs)

-- the command line over the four escaped values: package, URL, directory, and checksum line
abbrev pub command_line : Bool → List String → String
command_line has_sum (pkg ∷ url ∷ dir ∷ sum ∷ []) =
    let sha_line =
      if has_sum then concat ("printf '%s\\n' " ∷ sum ∷ " | sha256sum -c - && " ∷ []) else "" in
    concat (
      "cd /root && mkdir -p /root/yuchen-panel-upgrades && cd /root/yuchen-panel-upgrades && "
      ∷ "curl --proto '=https' --proto-redir '=https' -L --fail -o " ∷ pkg ∷ " " ∷ url ∷ " && "
      ∷ sha_line ∷ "unzip -o " ∷ pkg ∷ " && cd " ∷ dir
      ∷ " && bash deploy/install.sh 2>&1 | tee /root/yuchen-panel-upgrade.log" ∷ [])
command_line has_sum _ = ""

-- the texts that the command line holds
unfoldable pub command_values : UpdateManifest → List String
unfolding package_of
command_values m =
    let pkg = package_of m in
    pkg ∷ m.download_url ∷ trim_suffix pkg ".zip" ∷ append m.sha256 (append "  " pkg) ∷ []

abbrev pub command_reply : UpdateManifest → Outcome (List String) → Reply UpdateBody
command_reply m (err e) = reply 400 (unsafe_field e)
command_reply m (ok values) =
    reply 200 (command (target_of m) (package_of m) (command_line (not (is_blank m.sha256)) values))

abbrev pub command_of : Outcome UpdateManifest → Reply UpdateBody
command_of (err e) = reply 200 (unavailable e (append "无法生成升级命令：远程版本清单不可用：" e))
command_of (ok m) =
    if not (is_remote_version_newer (target_of m) panel_version)
    then reply 200 (up_to_date (target_of m))
    else if package_of m == "" || m.download_url == ""
    then reply 200 (incomplete "version.json 缺少 package 或 download_url。")
    else command_reply m (shell_escape_values (command_values m))

-- `updatePanelCommand`
unfoldable pub update_panel_command : Method → String → Outcome UpdateManifest → Reply UpdateBody
unfolding is_remote_version_newer package_of shell_escape_values command_values first_non_empty
update_panel_command method url fetched = elim method [
  | get ↦ answer
  | post ↦ answer
  | _ ↦ method_not_allowed
]
  where
    answer : Reply UpdateBody
    answer =
        if url == ""
        then reply 200
            (not_configured "无法生成升级命令：远程版本清单未配置。请先发布 version.json 并设置 YC_UPDATE_MANIFEST_URL。")
        else command_of fetched

-- `currentXrayVersionText`: the servers in the order in which the loop visits the map; the last
-- argument is what the host's own Xray reports
unfoldable pub current_xray_version_text : List Server → String → String
unfolding trim_space
current_xray_version_text [] host = host
current_xray_version_text (srv ∷ servers) host =
    let rest = current_xray_version_text servers host in
    if is_blank srv.xray_version then rest else trim_space srv.xray_version
