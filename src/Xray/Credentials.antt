-- ===== src/Xray/Credentials.antt =====
-- The password of a client at Trojan inbounds (backend/internal/xray/credentials.go). The hash of
-- `crypto/sha256`, in hexadecimal, is an argument.
use yuchen_panel.Common.{ℕ, zero, suc, String, trim_space, append, ◌==◌, if◌then◌else◌}
use yuchen_panel.Model.{Client}

abbrev pub take_text : ℕ → String → String
take_text zero s = ""
take_text (suc n) String.[] = ""
take_text (suc n) (String.◌∷◌ c s) = String.◌∷◌ c (take_text n s)

unfoldable pub trojan_client_password : (String → String) → Client → String
trojan_client_password sha256_hex c =
    let pw = trim_space c.password in
    if pw == "" then take_text 16 (sha256_hex (append "trojan-" c.id)) else pw
