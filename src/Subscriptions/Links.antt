-- ===== src/Subscriptions/Links.antt =====
-- The share links of nodes and relay routes (backend/internal/api/subscription.go). A `url.Values`
-- is a list of keys and values without repetition, which `Encode` sorts by key.
use yuchen_panel.Common.{
  ℕ, String, Bool, not, ◌||◌, List, [], ◌∷◌, Map, ℤ, append, itoa, insert, trim_space, trim_func,
  to_lower, has_infix, eqb, join, map, ◌==◌, if◌then◌else◌, bytes_of, text_of, from_chars, ascii,
  percent_encode, is_unreserved, query_escape, escape_host, escape_fragment, base64_encode,
  json_quote,
}
use yuchen_panel.Model.{Client, Node, RelayRoute}
use yuchen_panel.Nodes.{or_text}
use yuchen_panel.Xray.Credentials.{trojan_client_password}
use yuchen_panel.Xray.Users.{before_text, sort_by}
use yuchen_panel.Subscriptions.Snapshot.{is_shareable_node_protocol}
use yuchen_panel.Subscriptions.Names.{node_host, node_share_name}

-- strings.Trim(path, "/"), or "yuchen"
unfoldable pub grpc_service : String → String
unfolding trim_func
grpc_service path = or_text (trim_func (λ c. eqb c b'/') path) "yuchen"

-- strings.Trim(host, "[]")
unfoldable pub unbracketed : String → String
unfolding trim_func
unbracketed host = trim_func (λ c. eqb c b'[' || eqb c b']') host

-- net.JoinHostPort
unfoldable pub join_host_port : String → ℤ → String
unfolding has_infix itoa
join_host_port host port =
    if has_infix host ":"
    then append "[" (append host (append "]:" (itoa port)))
    else append host (append ":" (itoa port))

abbrev pub Query : Type 0
Query = Map String

-- q.Set(key, value), after a test
abbrev pub set_if : Bool → String → String → Query → Query
set_if b key value q = if b then insert key value q else q

abbrev pub less_key : String × String → String × String → Bool
less_key a b = before_text a.0 b.0

abbrev query_pairs : Query → List String
query_pairs q = map (λ kv. append (query_escape kv.0) (append "=" (query_escape kv.1))) q

-- url.Values.Encode
unfoldable pub encode_query : Query → String
unfolding query_escape sort_by join
encode_query q = join (query_pairs (sort_by less_key q)) "&"

-- the loop of `buildUserInfoLink` over the bytes of the user
unfoldable pub encode_user : List ℕ → List ℕ
unfolding percent_encode is_unreserved
encode_user user = percent_encode is_unreserved user

abbrev pub after_mark : String → String → String
after_mark mark s = if s == "" then "" else append mark s

-- `buildUserInfoLink`: the URL of package net/url, with the user in front of the host
unfoldable pub build_user_info_link : String → String → String → String → String → String
unfolding encode_user bytes_of from_chars ascii escape_host escape_fragment
build_user_info_link scheme user host raw_query fragment = append scheme (
    append "://" (
      append (text_of (encode_user (bytes_of user))) (
        append "@" (
          append (escape_host host)
            (append (after_mark "?" raw_query) (after_mark "#" (escape_fragment fragment)))))))

-- the parameters of Reality
abbrev pub set_reality : String → String → String → String → Query → Query
set_reality fingerprint public_key short_id spider_x q = insert "spx" (or_text spider_x "/") (
    set_if (not (short_id == "")) "sid" short_id (
      set_if (not (public_key == "")) "pbk" public_key
        (insert "fp" (or_text fingerprint "chrome") q)))

abbrev pub set_transport : String → String → Query → Query
set_transport transport path q =
    set_if (transport == "grpc") "serviceName" (grpc_service path)
      (set_if (transport == "ws") "path" (or_text path "/yuchen") q)

unfoldable pub vless_query : Node → Query
unfolding insert to_lower grpc_service
vless_query n =
    let first =
      set_if (not (n.sni == "")) "sni" n.sni
        (insert "security" (or_text n.security "none") (insert "encryption" "none" [])) in
    let second =
      if to_lower n.security == "reality"
      then set_reality n.fingerprint n.reality_public_key n.reality_short_id n.reality_spider_x
          first
      else first in
    set_transport (to_lower n.transport) n.path (insert "type" (or_text n.transport "tcp") second)

unfoldable pub build_vless_share_link : Node → Client → String
unfolding vless_query build_user_info_link encode_query join_host_port unbracketed node_share_name
build_vless_share_link n c =
    build_user_info_link "vless" c.uuid (join_host_port (unbracketed (node_host n)) n.port)
      (encode_query (vless_query n)) (node_share_name n)

unfoldable pub trojan_query : Node → Query
unfolding insert to_lower grpc_service
trojan_query n =
    let first =
      if to_lower (or_text n.security "none") == "reality"
      then set_reality n.fingerprint n.reality_public_key n.reality_short_id n.reality_spider_x
          (insert "security" "reality" [])
      else insert "security" "tls" [] in
    let transport = to_lower (or_text n.transport "tcp") in
    set_transport transport n.path
      (insert "type" transport (set_if (not (n.sni == "")) "sni" n.sni first))

unfoldable pub build_trojan_share_link : (String → String) → Node → Client → String
unfolding trojan_query build_user_info_link encode_query join_host_port unbracketed node_share_name
build_trojan_share_link sha256_hex n c =
    build_user_info_link "trojan" (trojan_client_password sha256_hex c)
      (join_host_port (unbracketed (node_host n)) n.port) (encode_query (trojan_query n))
      (node_share_name n)

unfoldable pub relay_query : RelayRoute → Query
unfolding insert
relay_query r = insert "type" "tcp" (
    set_reality r.relay_fingerprint r.relay_reality_public_key r.relay_reality_short_id
      r.relay_reality_spider_x
      (insert "sni" (or_text r.relay_sni "www.intel.com")
        (insert "security" "reality" (insert "encryption" "none" []))))

unfoldable pub build_relay_share_link : RelayRoute → Client → String
unfolding relay_query build_user_info_link encode_query join_host_port unbracketed
build_relay_share_link r c =
    build_user_info_link "vless" c.uuid
      (join_host_port (unbracketed (or_text r.relay_host "127.0.0.1")) r.relay_port)
      (encode_query (relay_query r)) r.name

-- the keys of the object, each with its text
unfoldable pub vmess_object : Node → Client → Map String
unfolding insert to_lower grpc_service node_share_name itoa
vmess_object n c =
    let transport = to_lower (or_text n.transport "tcp") in
    let security = to_lower (or_text n.security "none") in
    let is_tls = security == "tls" || security == "reality" in
    let path =
      if transport == "grpc"
      then grpc_service n.path
      else if transport == "ws"
      then or_text n.path "/yuchen"
      else "" in
    let reality = security == "reality" in
    ("v", "2")
    ∷ ("ps", node_share_name n)
    ∷ ("add", node_host n)
    ∷ ("port", itoa n.port)
    ∷ ("id", c.uuid)
    ∷ ("aid", "0")
    ∷ ("scy", "auto")
    ∷ ("net", transport)
    ∷ ("type", "none")
    ∷ ("host", "")
    ∷ ("path", path)
    ∷ ("tls", if is_tls then "tls" else "")
    ∷ set_if is_tls "sni" n.sni (
        set_if is_tls "fp" (or_text n.fingerprint "chrome") (
          set_if reality "pbk" n.reality_public_key (
            set_if reality "sid" n.reality_short_id
              (set_if reality "spx" (or_text n.reality_spider_x "/") []))))

-- json.Marshal of a map of texts
unfoldable pub json_object : Map String → String
unfolding json_quote sort_by join
json_object m = append "{" (
    append
      (join
        (map (λ kv. append (json_quote kv.0) (append ":" (json_quote kv.1))) (sort_by less_key m))
        ",")
      "}")

unfoldable pub build_vmess_share_link : Node → Client → String
unfolding vmess_object json_object base64_encode bytes_of from_chars ascii
build_vmess_share_link n c =
    append "vmess://" (text_of (base64_encode (bytes_of (json_object (vmess_object n c)))))

unfoldable pub build_node_share_link : (String → String) → Node → Client → String
unfolding is_shareable_node_protocol to_lower trim_space build_vmess_share_link
    build_trojan_share_link build_vless_share_link
build_node_share_link sha256_hex n c =
    let protocol = to_lower (trim_space n.protocol) in
    if not (is_shareable_node_protocol n.protocol)
    then ""
    else if protocol == "vmess"
    then build_vmess_share_link n c
    else if protocol == "trojan"
    then build_trojan_share_link sha256_hex n c
    else build_vless_share_link n c
