-- ===== src/Subscriptions/Handlers.antt =====
-- The public routes `/sub/` and `/s/` (backend/internal/api/subscription.go).
use yuchen_panel.Common.{
  ℕ, String, Bool, false, not, ◌&&◌, ◌||◌, List, [], ◌∷◌, ◌++◌, map, Option, none, some, ◌⊎◌, inl,
  inr, append, trim_space, trim_func, to_lower, has_prefix, split, join, lookup, values, contains,
  eqb, head_or, bytes_of, text_of, base64_encode, from_chars, ascii, ◌==◌, if◌then◌else◌,
}
use yuchen_panel.Model.{Time, Client, allowed_nodes, Node, RelayRoute, NetworkPolicy, PanelData}
use yuchen_panel.Http.{Reply, error, reply}
use yuchen_panel.Store.{Store, Env, add_log}
use yuchen_panel.Xray.Users.{has_expired}
use yuchen_panel.Subscriptions.Formats.{Format, clash, singbox, v2rayn, raw, subscription_format}
use yuchen_panel.Subscriptions.Snapshot.{
  Snapshot, client_of_token, subscription_snapshot, is_shareable_node_protocol,
}
use yuchen_panel.Subscriptions.Names.{unique_subscription_names}
use yuchen_panel.Subscriptions.Links.{build_node_share_link, build_relay_share_link}
use yuchen_panel.Subscriptions.SingBox.{
  BoxConfig, build_sing_box_subscription, add_sing_box_tun_profile,
}
use yuchen_panel.Subscriptions.Clash.{build_clash_meta_subscription}

-- the parts of the URL that `subscription` reads: the path below /sub/, the query parameters, and
-- the header User-Agent
pub record SubRequest : Type 0 where
  pub path : String
  pub format : String
  pub target : String
  pub profile : String
  pub user_agent : String

pub data SubBody : Type 0 where
  box : BoxConfig → SubBody
  yaml : String → SubBody
  text : String → SubBody

abbrev pub format_name : Format → String
format_name clash = "clash"
format_name singbox = "singbox"
format_name v2rayn = "v2rayn"
format_name raw = "raw"

abbrev pub wants_tun : SubRequest → Bool
wants_tun r =
    let ua = to_lower r.user_agent in
    r.profile == "tun" || (r.profile == "" && (has_prefix ua "sfa/" || has_prefix ua "sfi/"))

unfoldable pub share_links : (String → String) → List Node → List RelayRoute → Client → List String
share_links sha256_hex nodes relays c =
    map (λ n. build_node_share_link sha256_hex n c) nodes
    ++ map (λ r. build_relay_share_link r c) relays

abbrev pub with_tun : Bool → BoxConfig → BoxConfig
with_tun b config = if b then add_sing_box_tun_profile config else config

unfoldable pub render :
    (String → String)
    → SubRequest
    → Format
    → List Node × List RelayRoute
    → Client
    → NetworkPolicy
    → SubBody
unfolding share_links join base64_encode bytes_of from_chars ascii to_lower
render sha256_hex r singbox (nodes, relays) c policy =
    box (with_tun (wants_tun r) (build_sing_box_subscription sha256_hex nodes relays c policy))
render sha256_hex r clash (nodes, relays) c policy =
    yaml (build_clash_meta_subscription sha256_hex nodes relays c policy)
render sha256_hex r v2rayn (nodes, relays) c policy =
    text (text_of (base64_encode (bytes_of (join (share_links sha256_hex nodes relays c) "\n"))))
render sha256_hex r raw (nodes, relays) c policy =
    text (join (share_links sha256_hex nodes relays c) "\n")

abbrev path_parts : String → List String
path_parts path = split (trim_func (λ c. eqb c b'/') path) b'/'

-- the log entry, which is not saved
abbrev pub logged_format : Env → Client → Format × String → Store → Store
logged_format env c (format, source) s = record s {
  memory =
      add_log (record env { actor = c.username }) "subscription.format"
        (append "format=" (append (format_name format) (append " source=" source))) s.memory;
}

abbrev pub served :
    (String → String)
    → Env
    → SubRequest
    → Format × String
    → Snapshot
    → Store
    → Store × Reply SubBody
served sha256_hex env r (format, source) snap s = (
  logged_format env snap.client (format, source) s,
  reply 200 (
      render sha256_hex r format (unique_subscription_names snap.nodes snap.relays) snap.client
        snap.policy),
)

abbrev pub served_or :
    (String → String)
    → Env
    → SubRequest
    → List String
    → Snapshot ⊎ ℕ
    → Store
    → Store × Reply SubBody
served_or sha256_hex env r parts (inr status) s = (s, error status "subscription unavailable")
served_or sha256_hex env r parts (inl snap) s =
    served sha256_hex env r (subscription_format r.format r.target parts r.user_agent) snap s

-- `subscription`
unfoldable pub subscription : (String → String) → Env → SubRequest → Store → Store × Reply SubBody
unfolding split trim_func trim_space subscription_format subscription_snapshot render add_log
subscription sha256_hex env r s =
    let parts = path_parts r.path in
    let token = trim_space (head_or "" parts) in
    if token == ""
    then (s, error 404 "not found")
    else served_or sha256_hex env r parts (subscription_snapshot env.now token s.memory) s

-- the first node with the id, in the order of the loop
unfoldable pub node_of_id : String → List Node → Option Node
node_of_id id [] = none
node_of_id id (n ∷ ns) = let rest = node_of_id id ns in if n.id == id then some n else rest

abbrev pub is_shared_node : Option Node → Bool
is_shared_node none = false
is_shared_node (some n) = n.enabled && is_shareable_node_protocol n.protocol

abbrev pub is_shared_relay : Option RelayRoute → Bool
is_shared_relay none = false
is_shared_relay (some r) = r.enabled && r.route_mode == "socks5_route"

abbrev pub share_node : (String → String) → Time → Client → Option Node → Reply String
share_node sha256_hex now c none = error 404 "node not found"
share_node sha256_hex now c (some n) =
    if not (contains (allowed_nodes now c) n.id)
    then error 403 "node not allowed"
    else reply 200 (build_node_share_link sha256_hex n c)

abbrev pub share_relay : Client → Option RelayRoute → Reply String
share_relay c none = error 404 "node not found"
share_relay c (some r) =
    if not (contains c.relay_route_ids r.id)
    then error 403 "relay not allowed"
    else reply 200 (build_relay_share_link r c)

-- what `shortShare` does for a client that may use the panel
unfoldable pub share_for : (String → String) → Time → PanelData → String → Client → Reply String
unfolding node_of_id is_shareable_node_protocol contains
share_for sha256_hex now d id c =
    let node = node_of_id id (values d.nodes) in
    let relay = lookup id d.relay_routes in
    if is_shared_node node
    then share_node sha256_hex now c node
    else if is_shared_relay relay
    then share_relay c relay
    else error 404 "node not found"

abbrev pub share_or : (String → String) → Time → PanelData → String → Option Client → Reply String
share_or sha256_hex now d id none = error 404 "client not found"
share_or sha256_hex now d id (some c) =
    if not c.enabled || has_expired now c
    then error 403 "client expired or disabled"
    else share_for sha256_hex now d id c

-- the first two parts of the path
abbrev pub two_parts : List String → Option (String × String)
two_parts (a ∷ b ∷ parts) = if a == "" || b == "" then none else some (a, b)
two_parts _ = none

-- `shortShare`, of the path below /s/
unfoldable pub short_share : (String → String) → Time → PanelData → String → Reply String
unfolding client_of_token share_for split
short_share sha256_hex now d path = elim (two_parts (split path b'/')) [
  | none ↦ error 404 "short share not found"
  | some (token, id) ↦ share_or sha256_hex now d id (client_of_token token (values d.clients))
]
