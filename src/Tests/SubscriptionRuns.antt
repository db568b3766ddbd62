-- ===== src/Tests/SubscriptionRuns.antt =====
-- The subscription of the small panel's first client.
use yuchen_panel.Common.{
  ℕ, All, sym, ap, ◌∙◌, Bool-cases, if◌then◌else◌, inr, ◌≡◌, refl, String, List, [], ◌∷◌, map, some,
  lookup, values, inl, arith, ◌==◌,
}
use text.Mathlib.TextEquality.{eq_iff}
use yuchen_panel.Places.{none_is_not_some}
use yuchen_panel.Versions.Order.{some-injective}
use yuchen_panel.Model.{Node, RelayRoute}
use yuchen_panel.Clients.Bindings.{DistinctFrom}
use yuchen_panel.Subscriptions.Names.{reserved_names, unique_subscription_names}
use yuchen_panel.Subscriptions.Snapshot.{
  Snapshot, client_of_token, subscription_snapshot, snapshot_of,
}
use yuchen_panel.Subscriptions.Links.{encode_user}
use yuchen_panel.Subscriptions.SingBox.{box_tag, build_sing_box_subscription}
use yuchen_panel.Subscriptions.Escaping.{percent_decode, IsPlain, encode_user_roundtrip}
use yuchen_panel.Subscriptions.Unique.{names, unique_subscription_names_distinct}
use yuchen_panel.Subscriptions.Resolved.{IsSelectable, build_sing_box_subscription-IsSelectable}
use yuchen_panel.Subscriptions.Admitted.{
  OwnIds, NodeAdmits, RelayAdmits, subscription_snapshot_admitted,
}
use yuchen_panel.Tests.Data.{noon, node, socks, route, client, panel, policy}

abbrev hash : String → String
hash s = s

-- three inbounds with one name, which is that of a group
abbrev nodes : List Node
nodes = record node { name = "PROXY" } ∷ record socks { name = "PROXY" } ∷ []

abbrev relays : List RelayRoute
relays = record route { name = "PROXY" } ∷ []

unique_subscription_names_distinct_example :
    DistinctFrom reserved_names (names (unique_subscription_names nodes relays))
unique_subscription_names_distinct_example = unique_subscription_names_distinct nodes relays

build_sing_box_subscription-IsSelectable_example :
    let outbounds = (build_sing_box_subscription hash nodes relays client policy).outbounds in
    DistinctFrom [] (map box_tag outbounds) × IsSelectable outbounds
build_sing_box_subscription-IsSelectable_example =
    build_sing_box_subscription-IsSelectable hash nodes relays client policy

-- "a@b %é"
abbrev user : List ℕ
user = 97 ∷ 64 ∷ 98 ∷ 32 ∷ 37 ∷ 195 ∷ 169 ∷ []

encode_user_roundtrip_example :
    (percent_decode (encode_user user) ≡ some user) × All IsPlain (encode_user user)
encode_user_roundtrip_example = encode_user_roundtrip user (
  omega arith,
  (omega arith, (omega arith, (omega arith, (omega arith, (omega arith, (omega arith, tt)))))),
)

abbrev shown : Snapshot
shown = snapshot_of noon panel client

shown-found : subscription_snapshot noon "token-1" panel ≡ inl shown
unfolding subscription_snapshot client_of_token values
shown-found = refl

own_ids : OwnIds panel.relay_routes
unfolding lookup
own_ids id r found = elim (Bool-cases ("r1" == id)) [
  | inl e ↦
      let first : some route ≡ some r = rw (e, if◌then◌else◌) at found in
      ap (λ x. x.id) (sym (some-injective first)) ∙ (eq_iff "r1" id).0 e
  | inr e ↦ absurd (none_is_not_some (rw (e, if◌then◌else◌) at found))
]

subscription_snapshot_admitted_example :
    All (NodeAdmits hash noon (values panel.clients) shown.client) shown.nodes
    × All (RelayAdmits noon (values panel.clients) shown.client) shown.relays
unfolding snapshot_of
subscription_snapshot_admitted_example =
    subscription_snapshot_admitted hash noon "token-1" panel shown shown-found refl own_ids
