-- ===== src/Tests/PortRuns.antt =====
-- The ports of nodes and relays at the small panel.
use yuchen_panel.Common.{trim_space, to_lower, ◌≡◌, refl, false, ok, lookup, arith, pos}
use text.Mathlib.TextEquality.{eq_iff}
use yuchen_panel.Places.{PlacesDistinct}
use yuchen_panel.Model.{Node, RelayRoute}
use yuchen_panel.Nodes.{
  normalize_node, normalize_on_server, trim_node, create_node, update_node, default_place,
  default_kind, socks_node, reality_node, check_port, check_kind, check_wire,
}
use yuchen_panel.Nodes.Ports.{
  node_place, update_node-PlacesDistinct, create_node-PlacesDistinct, create_node_unchecked,
}
use yuchen_panel.Nodes.Accepted.{IsServable, normalize_on_server-IsServable}
use yuchen_panel.Relays.{normalize_relay, trim_relay, create_relay, update_relay}
use yuchen_panel.Relays.Ports.{RelaysPlaced, create_relay-RelaysPlaced, update_relay-RelaysPlaced}
use yuchen_panel.Tests.Data.{node, route, panel, store, env, keys}

-- a second inbound on port 443, which the body does not enable
abbrev unchecked : Node
unchecked = record node { id = ""; name = "third"; enabled = false }

run_unchecked : (normalize_node env keys unchecked "" store).1 ≡ ok unchecked
unfolding normalize_node normalize_on_server trim_node lookup default_place default_kind socks_node
    reality_node check_port check_kind check_wire trim_space to_lower
run_unchecked = refl

panel_nodes-distinct : PlacesDistinct node_place panel.nodes
unfolding lookup
panel_nodes-distinct i j v w iv jw on clash =
    ground (arith, eq_iff "n1" i, eq_iff "n2" i, eq_iff "n1" j, eq_iff "n2" j)

panel-RelaysPlaced : RelaysPlaced panel
unfolding lookup
panel-RelaysPlaced = record {
  distinct = λ i j v w iv jw on clash. ground (arith, eq_iff "r1" i, eq_iff "r1" j);
  apart = λ i j r n ir jn on. ground (arith, eq_iff "r1" i, eq_iff "n1" j, eq_iff "n2" j);
}

abbrev moved : Node
moved = record node { port = pos 8443 }

update_node-PlacesDistinct_example :
    PlacesDistinct node_place (update_node env keys "n1" node moved store).0.memory.nodes
unfolding normalize_node trim_node trim_space
update_node-PlacesDistinct_example =
    update_node-PlacesDistinct env keys "n1" node moved store refl panel_nodes-distinct

create_node-PlacesDistinct_example :
    PlacesDistinct node_place (create_node env keys moved store).0.memory.nodes
unfolding normalize_node trim_node trim_space lookup
create_node-PlacesDistinct_example =
    create_node-PlacesDistinct env keys moved store refl refl refl panel_nodes-distinct

create_node_unchecked_example :
    ¬ PlacesDistinct node_place (create_node env keys unchecked store).0.memory.nodes
unfolding normalize_node trim_node trim_space lookup
create_node_unchecked_example =
    create_node_unchecked env keys unchecked unchecked store "n1" node refl run_unchecked refl refl
      refl

normalize_on_server-IsServable_example : IsServable unchecked
unfolding normalize_on_server lookup default_place default_kind socks_node reality_node check_port
    check_kind check_wire trim_space to_lower
normalize_on_server-IsServable_example =
    normalize_on_server-IsServable env keys panel "" unchecked unchecked refl

update_relay-RelaysPlaced_example :
    RelaysPlaced (update_relay env keys "r1" route route store).0.memory
unfolding normalize_relay trim_relay trim_space to_lower
update_relay-RelaysPlaced_example =
    update_relay-RelaysPlaced env keys "r1" route route store refl panel-RelaysPlaced

abbrev second_route : RelayRoute
second_route = record route { name = "second"; relay_port = pos 2443 }

create_relay-RelaysPlaced_example : RelaysPlaced (create_relay env keys second_route store).0.memory
unfolding trim_space lookup
create_relay-RelaysPlaced_example =
    create_relay-RelaysPlaced env keys second_route store refl refl panel-RelaysPlaced
