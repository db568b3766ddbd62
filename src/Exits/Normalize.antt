-- ===== src/Exits/Normalize.antt =====
-- `normalizeLandingExit`.
use yuchen_panel.Common.{
  ◌||◌, pos, ltb_ℤ, append, itoa, trim_space, ◌==◌, if◌then◌else◌, Outcome, ok, ◌>>◌, fail_if,
}
use yuchen_panel.Model.{LandingExit}

unfoldable pub trim_exit : LandingExit → LandingExit
trim_exit e = record e {
  name = trim_space e.name;
  host = trim_space e.host;
  username = trim_space e.username;
  password = trim_space e.password;
  region = trim_space e.region;
  provider = trim_space e.provider;
  remark = trim_space e.remark;
}

-- the name and the bandwidth that an exit gets in the end
unfoldable pub complete_exit : LandingExit → LandingExit
complete_exit t = record t {
  name = if t.name == "" then append t.host (append ":" (itoa t.port)) else t.name;
  bandwidth_mbps = if ltb_ℤ t.bandwidth_mbps (pos 0) then pos 0 else t.bandwidth_mbps;
}

unfoldable pub normalize_landing_exit : LandingExit → Outcome LandingExit
normalize_landing_exit e = do
  let t = trim_exit e
  fail_if (t.host == "") "请填写落地出口 IP 或域名"
  fail_if (ltb_ℤ t.port (pos 1) || ltb_ℤ (pos 65535) t.port) "落地 SOCKS5 端口必须在 1-65535 之间"
  fail_if (t.username == "" || t.password == "") "落地 SOCKS5 必须填写账号和密码，避免出口裸奔"
  ok (complete_exit t)
