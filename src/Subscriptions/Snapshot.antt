-- ===== src/Subscriptions/Snapshot.antt =====
-- What a subscription shows (`subscriptionSnapshot`, `isShareableNodeProtocol`).
use yuchen_panel.Common.{
  ◌⊎◌, inl, inr, ℕ, String, Bool, not, ◌&&◌, ◌||◌, List, [], ◌∷◌, Map, Option, none, some, lookup,
  values, keep_if, contains, trim_space, to_lower, ◌==◌, if◌then◌else◌,
}
use yuchen_panel.Model.{
  Time, is_zero, before, Client, allowed_nodes, Node, RelayRoute, NetworkPolicy, PanelData,
}
use yuchen_panel.Xray.Users.{before_text, sort_by, cons_some}

unfoldable pub is_shareable_node_protocol : String → Bool
unfolding to_lower trim_space
is_shareable_node_protocol p =
    let protocol = to_lower (trim_space p) in
    protocol == "vless" || protocol == "vmess" || protocol == "trojan"

-- the first client with the token, in the order of the loop
unfoldable pub client_of_token : String → List Client → Option Client
client_of_token token [] = none
client_of_token token (c ∷ cs) =
    let rest = client_of_token token cs in if c.subscribe_token == token then some c else rest

abbrev pub is_shown_node : Time → Client → Node → Bool
is_shown_node now c n =
    n.enabled && contains (allowed_nodes now c) n.id && is_shareable_node_protocol n.protocol

-- a relay route of the client's list that exists, is enabled, and is a fixed exit
abbrev pub shown_relay : Option RelayRoute → Option RelayRoute
shown_relay none = none
shown_relay (some r) = if r.enabled && r.route_mode == "socks5_route" then some r else none

unfoldable pub shown_relays : Map RelayRoute → List String → List RelayRoute
shown_relays relays [] = []
shown_relays relays (id ∷ ids) =
    cons_some (shown_relay (lookup id relays)) (shown_relays relays ids)

abbrev pub less_node_id : Node → Node → Bool
less_node_id a b = before_text a.id b.id

abbrev pub less_relay_id : RelayRoute → RelayRoute → Bool
less_relay_id a b = before_text a.id b.id

pub record Snapshot : Type 0 where
  pub client : Client
  pub nodes : List Node
  pub relays : List RelayRoute
  pub policy : NetworkPolicy

unfoldable pub snapshot_of : Time → PanelData → Client → Snapshot
unfolding keep_if values sort_by shown_relays is_shareable_node_protocol
snapshot_of now d c = record {
  client = c;
  nodes = sort_by less_node_id (keep_if (is_shown_node now c) (values d.nodes));
  relays = sort_by less_relay_id (shown_relays d.relay_routes c.relay_route_ids);
  policy = d.network_policy;
}

-- whether the client may have a subscription at `now`
abbrev pub may_subscribe : Time → Client → Bool
may_subscribe now c = c.enabled && not (not (is_zero c.expire_at) && not (before now c.expire_at))

abbrev pub snapshot_or : Time → PanelData → Option Client → Snapshot ⊎ ℕ
snapshot_or now d none = inr 404
snapshot_or now d (some c) = if may_subscribe now c then inl (snapshot_of now d c) else inr 403

-- the snapshot, or the status of a refusal
unfoldable pub subscription_snapshot : Time → String → PanelData → Snapshot ⊎ ℕ
unfolding client_of_token snapshot_of
subscription_snapshot now token d = snapshot_or now d (client_of_token token (values d.clients))
