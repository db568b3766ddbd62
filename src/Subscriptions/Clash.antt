-- ===== src/Subscriptions/Clash.antt =====
-- The Clash profile (backend/internal/api/subscription.go), line by line.
use yuchen_panel.Common.{
  String, Bool, not, ◌||◌, List, [], ◌∷◌, ◌++◌, map, ℤ, append, itoa, trim_space, to_lower, join,
  json_quote, ◌==◌, if◌then◌else◌,
}
use yuchen_panel.Model.{Client, Node, RelayRoute, NetworkPolicy}
use yuchen_panel.Nodes.{or_text}
use yuchen_panel.Xray.Credentials.{trojan_client_password}
use yuchen_panel.Subscriptions.Snapshot.{is_shareable_node_protocol}
use yuchen_panel.Subscriptions.Names.{node_host, node_share_name, relay_share_name}
use yuchen_panel.Subscriptions.Links.{grpc_service}

-- `yamlQuote`, a string of encoding/json
unfoldable pub yaml_quote : String → String
yaml_quote v = json_quote v

-- a key with a quoted text, and with a number
abbrev pub line : String → String → String
line key v = append key (yaml_quote v)

abbrev pub line_number : String → ℤ → String
line_number key v = append key (itoa v)

abbrev pub lines_if : Bool → List String → List String
lines_if b lines = if b then lines else []

abbrev tls_lines : String → String → String → List String
tls_lines security sni fingerprint =
    if security == "reality" || security == "tls"
    then "    tls: true"
      ∷ (lines_if (not (trim_space sni == "")) (line "    servername: " sni ∷ [])
          ++ (line "    client-fingerprint: " (or_text fingerprint "chrome")
              ∷ "    skip-cert-verify: false"
              ∷ []))
    else "    tls: false" ∷ []

abbrev reality_lines : String → String → String → List String
reality_lines security public_key short_id = lines_if (security == "reality") (
    "    reality-opts:"
    ∷ line "      public-key: " public_key
    ∷ lines_if (not (trim_space short_id == "")) (line "      short-id: " short_id ∷ []))

abbrev transport_lines : String → String → List String
transport_lines transport path =
    lines_if (transport == "ws")
      ("    ws-opts:" ∷ line "      path: " (or_text path "/yuchen") ∷ [])
    ++ lines_if (transport == "grpc")
        ("    grpc-opts:" ∷ line "      grpc-service-name: " (grpc_service path) ∷ [])

-- `appendClashTransportAndTLS`, and the end of `buildClashProxyLines`
unfoldable pub clash_transport_and_tls :
    String → String → String → String → String → String → String → List String
unfolding to_lower trim_space yaml_quote grpc_service
clash_transport_and_tls security transport sni fingerprint public_key short_id path =
    let s = to_lower (or_text security "none") in
    tls_lines s sni fingerprint
    ++ (reality_lines s public_key short_id ++ transport_lines transport path)

-- `buildClashProxyLines`; the parameter spiderX, which it does not use, is left out
unfoldable pub build_clash_proxy_lines :
    String
    → String
    → ℤ
    → String
    → String
    → String
    → String
    → String
    → String
    → String
    → String
    → List String
unfolding to_lower yaml_quote itoa clash_transport_and_tls
build_clash_proxy_lines name host port uuid security transport sni fingerprint public_key short_id
      path =
    let net = to_lower (or_text transport "tcp") in
    line "  - name: " name
    ∷ "    type: vless"
    ∷ line "    server: " host
    ∷ line_number "    port: " port
    ∷ line "    uuid: " uuid
    ∷ line "    network: " net
    ∷ "    udp: true"
    ∷ clash_transport_and_tls security net sni fingerprint public_key short_id path

unfoldable pub clash_vmess_lines : Node → Client → List String
unfolding to_lower yaml_quote itoa clash_transport_and_tls node_share_name
clash_vmess_lines n c =
    let transport = to_lower (or_text n.transport "tcp") in
    line "  - name: " (node_share_name n)
    ∷ "    type: vmess"
    ∷ line "    server: " (node_host n)
    ∷ line_number "    port: " n.port
    ∷ line "    uuid: " c.uuid
    ∷ "    alterId: 0"
    ∷ "    cipher: auto"
    ∷ line "    network: " transport
    ∷ "    udp: true"
    ∷ clash_transport_and_tls (to_lower (or_text n.security "none")) transport n.sni n.fingerprint
        n.reality_public_key n.reality_short_id n.path

-- Trojan always has TLS
unfoldable pub clash_trojan_lines : (String → String) → Node → Client → List String
unfolding to_lower yaml_quote itoa clash_transport_and_tls node_share_name
clash_trojan_lines sha256_hex n c =
    let transport = to_lower (or_text n.transport "tcp") in
    let security = to_lower (or_text n.security "none") in
    line "  - name: " (node_share_name n)
    ∷ "    type: trojan"
    ∷ line "    server: " (node_host n)
    ∷ line_number "    port: " n.port
    ∷ line "    password: " (trojan_client_password sha256_hex c)
    ∷ line "    network: " transport
    ∷ "    udp: true"
    ∷ clash_transport_and_tls (if security == "reality" then security else "tls") transport n.sni
        n.fingerprint n.reality_public_key n.reality_short_id n.path

unfoldable pub build_clash_proxy_lines_for_node : (String → String) → Node → Client → List String
unfolding is_shareable_node_protocol to_lower trim_space clash_vmess_lines clash_trojan_lines
    build_clash_proxy_lines node_share_name
build_clash_proxy_lines_for_node sha256_hex n c =
    let protocol = to_lower (trim_space n.protocol) in
    if not (is_shareable_node_protocol n.protocol)
    then []
    else if protocol == "vmess"
    then clash_vmess_lines n c
    else if protocol == "trojan"
    then clash_trojan_lines sha256_hex n c
    else build_clash_proxy_lines (node_share_name n) (node_host n) n.port c.uuid n.security
        (or_text n.transport "tcp") n.sni n.fingerprint n.reality_public_key n.reality_short_id
        n.path

unfoldable pub clash_relay_lines : RelayRoute → Client → List String
unfolding build_clash_proxy_lines relay_share_name
clash_relay_lines r c =
    build_clash_proxy_lines (relay_share_name r) (or_text r.relay_host "127.0.0.1") r.relay_port
      c.uuid "reality" "tcp" (or_text r.relay_sni "www.intel.com")
      (or_text r.relay_fingerprint "chrome") r.relay_reality_public_key r.relay_reality_short_id ""

unfoldable pub concat_map : {A B : Type 0} → (A → List B) → List A → List B
concat_map f [] = []
concat_map f (x ∷ xs) = f x ++ concat_map f xs

abbrev pub clash_names : List Node → List RelayRoute → List String
clash_names nodes relays = map node_share_name nodes ++ map relay_share_name relays

abbrev pub or_no_proxies : List String → List String
or_no_proxies [] = "  []" ∷ []
or_no_proxies (l ∷ ls) = l ∷ ls

abbrev clash_head : List String
clash_head =
    "# Yuchen Panel Clash Verge / Mihomo profile"
    ∷ "# 仅支持 Clash Meta / Mihomo / Clash Verge Rev，旧版 Clash 不支持 VLESS Reality。" ∷ "mixed-port: 7890"
    ∷ "allow-lan: false" ∷ "mode: rule" ∷ "log-level: info" ∷ "ipv6: false"
    ∷ "global-client-fingerprint: chrome" ∷ "unified-delay: true" ∷ "tcp-concurrent: true" ∷ "dns:"
    ∷ "  enable: true" ∷ "  ipv6: false" ∷ "  enhanced-mode: fake-ip" ∷ "  nameserver:"
    ∷ "    - 1.1.1.1" ∷ "    - 8.8.8.8" ∷ []

-- the lines of the profile
unfoldable pub clash_lines :
    (String → String) → List Node → List RelayRoute → Client → NetworkPolicy → List String
unfolding concat_map build_clash_proxy_lines_for_node clash_relay_lines yaml_quote node_share_name
    relay_share_name
clash_lines sha256_hex nodes relays c policy =
    let proxies =
      concat_map (λ n. build_clash_proxy_lines_for_node sha256_hex n c) nodes
      ++ concat_map (λ r. clash_relay_lines r c) relays in
    clash_head
    ++ (lines_if policy.clash_include_quad9 ("    - 9.9.9.9" ∷ [])
        ++ ("proxies:"
            ∷ (or_no_proxies proxies
                ++ ("proxy-groups:"
                    ∷ "  - name: PROXY"
                    ∷ "    type: select"
                    ∷ "    proxies:"
                    ∷ (map (λ name. line "      - " name) (clash_names nodes relays)
                        ++ ("      - DIRECT" ∷ "rules:" ∷ "  - MATCH,PROXY" ∷ "" ∷ []))))))

-- `buildClashMetaSubscription`
unfoldable pub build_clash_meta_subscription :
    (String → String) → List Node → List RelayRoute → Client → NetworkPolicy → String
unfolding clash_lines join
build_clash_meta_subscription sha256_hex nodes relays c policy =
    join (clash_lines sha256_hex nodes relays c policy) "\n"
