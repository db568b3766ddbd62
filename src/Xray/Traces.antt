-- ===== src/Xray/Traces.antt =====
-- Clients that are off or expired leave no trace in a configuration.
use yuchen_panel.Common.{
  ◌≡◌, refl, String, Bool, true, false, not, ◌||◌, List, [], ◌∷◌, Map, Option, none, some, keep_if,
  to_lower, if◌then◌else◌, arith, inl, inr, Bool-cases,
}
use yuchen_panel.Model.{Time, Node, Client, RelayRoute, NetworkPolicy}
use yuchen_panel.Xray.Users.{
  collect, has_expired, relay_client, inbound_client, make_relay_vless_clients,
  make_inbound_clients,
}
use yuchen_panel.Xray.Entitled.{not_expired}
use yuchen_panel.Xray.Inbounds.{client_inbound, node_inbound}
use yuchen_panel.Xray.RelayEntries.{Target, route_target, map_some, exit_entry_of, relay_entry}
use yuchen_panel.Xray.Config.{generate_server_config}

collect-keep_if :
    {A B : Type 0} (f : A → Option B) (p : A → Bool)
    → ((x : A) → p x ≡ false → f x ≡ none)
    → (xs : List A) → collect f (keep_if p xs) ≡ collect f xs
unfolding collect keep_if
collect-keep_if f p h [] = refl
collect-keep_if f p h (x ∷ xs) = elim (Bool-cases (p x)) [
  | inl e ↦ rw (e, if◌then◌else◌, collect-keep_if f p h xs) refl
  | inr e ↦ rw (e, if◌then◌else◌, h x e, collect-keep_if f p h xs) refl
]

collect_ext :
    {A B : Type 0} (f g : A → Option B)
    → ((x : A) → f x ≡ g x)
    → (xs : List A) → collect f xs ≡ collect g xs
unfolding collect
collect_ext f g h [] = refl
collect_ext f g h (x ∷ xs) = rw (h x, collect_ext f g h xs) refl

relay_client-none :
    (now : Time) (id : String) (c : Client)
    → not_expired now c ≡ false
    → relay_client now id c ≡ none
unfolding relay_client
relay_client-none now id c h = ground arith

inbound_client-none :
    (sha256_hex : String → String) (now : Time) (id protocol : String) (c : Client)
    → not_expired now c ≡ false
    → inbound_client sha256_hex now id protocol c ≡ none
unfolding inbound_client
inbound_client-none sha256_hex now id protocol c h =
    let skip : (not c.enabled || has_expired now c) ≡ true = ground arith in
    rw (inbound_client, skip, if◌then◌else◌) refl

make_relay_vless_clients-keep_if :
    (now : Time) (id : String) (clients : List Client)
    → make_relay_vless_clients now id (keep_if (not_expired now) clients)
      ≡ make_relay_vless_clients now id clients
unfolding make_relay_vless_clients
make_relay_vless_clients-keep_if now id clients =
    rw (collect-keep_if (relay_client now id) (not_expired now) (relay_client-none now id) clients)
      refl

make_inbound_clients-keep_if :
    (sha256_hex : String → String) (now : Time) (id protocol : String) (clients : List Client)
    → make_inbound_clients sha256_hex now id protocol (keep_if (not_expired now) clients)
      ≡ make_inbound_clients sha256_hex now id protocol clients
unfolding make_inbound_clients
make_inbound_clients-keep_if sha256_hex now id protocol clients =
    rw
      (collect-keep_if (inbound_client sha256_hex now id (to_lower protocol)) (not_expired now)
        (inbound_client-none sha256_hex now id (to_lower protocol)) clients)
      refl

node_inbound-keep_if :
    (sha256_hex : String → String) (now : Time) (clients : List Client) (n : Node)
    → node_inbound sha256_hex now (keep_if (not_expired now) clients) n
      ≡ node_inbound sha256_hex now clients n
unfolding node_inbound client_inbound
node_inbound-keep_if sha256_hex now clients n =
    rw (make_inbound_clients-keep_if sha256_hex now n.id n.protocol clients) refl

exit_entry_of-keep_if :
    (now : Time) (clients : List Client) (r : RelayRoute) (t : Target)
    → exit_entry_of now (keep_if (not_expired now) clients) r t ≡ exit_entry_of now clients r t
unfolding exit_entry_of
exit_entry_of-keep_if now clients r t = rw (make_relay_vless_clients-keep_if now r.id clients) refl

map_some_ext :
    {A B : Type 0} (f g : A → B)
    → ((x : A) → f x ≡ g x)
    → (m : Option A) → map_some f m ≡ map_some g m
map_some_ext f g h none = refl
map_some_ext f g h (some x) = rw (h x) refl

relay_entry-keep_if :
    (now : Time) (clients : List Client) (all_nodes : Map Node) (r : RelayRoute)
    → relay_entry now (keep_if (not_expired now) clients) all_nodes r
      ≡ relay_entry now clients all_nodes r
unfolding relay_entry
relay_entry-keep_if now clients all_nodes r =
    rw (map_some_ext _ _ (exit_entry_of-keep_if now clients r) (route_target all_nodes r)) refl

-- Clients that are switched off or have expired leave no trace in a configuration: without them it
-- is the same.
pub generate_server_config-keep_if :
    (sha256_hex : String → String) (now : Time) (nodes : List Node) (clients : List Client)
    (relays : List RelayRoute) (all_nodes : Map Node) (policy : NetworkPolicy)
    → generate_server_config sha256_hex now nodes
        (keep_if (not_expired now) clients)
        relays
        all_nodes
        policy
      ≡ generate_server_config sha256_hex now nodes clients relays all_nodes policy
unfolding generate_server_config
generate_server_config-keep_if sha256_hex now nodes clients relays all_nodes policy =
    rw
      (
        collect_ext _ _ (node_inbound-keep_if sha256_hex now clients) nodes,
        collect_ext _ _ (relay_entry-keep_if now clients all_nodes) relays,
      )
      refl
