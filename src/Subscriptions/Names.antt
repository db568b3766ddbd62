-- ===== src/Subscriptions/Names.antt =====
-- The names of a subscription (`nodeShareName`, `relayShareName`, `uniqueSubscriptionNames`).
use yuchen_panel.Common.{
  ℕ, zero, suc, String, List, [], ◌∷◌, pos, append, itoa, trim_space, contains, length, ◌==◌,
  if◌then◌else◌,
}
use yuchen_panel.Model.{Node, RelayRoute}
use yuchen_panel.Nodes.{or_text}

abbrev pub node_host : Node → String
node_host n = or_text n.host "127.0.0.1"

unfoldable pub node_share_name : Node → String
unfolding trim_space itoa
node_share_name n =
    let name = trim_space n.name in
    if name == "" then append (node_host n) (append ":" (itoa n.port)) else name

unfoldable pub relay_share_name : RelayRoute → String
unfolding trim_space itoa
relay_share_name r =
    let name = trim_space r.name in
    if name == ""
    then append (or_text r.relay_host "127.0.0.1") (append ":" (itoa r.relay_port))
    else name

abbrev pub numbered : String → ℕ → String
numbered base n = append base (append " " (itoa (pos n)))

-- the loop that looks for a name that is not used, on fuel
unfoldable pub free_name : ℕ → List String → String → String → ℕ → String
unfolding contains itoa
free_name zero used base next n = next
free_name (suc fuel) used base next n =
    let rest = free_name fuel used base (numbered base n) (suc n) in
    if contains used next then rest else next

-- the closure `name`
unfoldable pub unique_name : List String → String → String
unfolding free_name
unique_name used base = free_name (suc (length used)) used base base 2

abbrev pub reserved_names : List String
reserved_names = "PROXY" ∷ "direct" ∷ "DIRECT" ∷ []

-- the nodes with their names, and the names that are used then
unfoldable pub name_nodes : List String → List Node → List Node × List String
unfolding unique_name node_share_name
name_nodes used [] = ([], used)
name_nodes used (n ∷ nodes) =
    let name = unique_name used (node_share_name n) in
    let (named, used') = name_nodes (name ∷ used) nodes in (record n { name = name } ∷ named, used')

unfoldable pub name_relays : List String → List RelayRoute → List RelayRoute
unfolding unique_name
name_relays used [] = []
name_relays used (r ∷ relays) =
    let name = unique_name used (or_text r.name r.id) in
    record r { name = name } ∷ name_relays (name ∷ used) relays

unfoldable pub unique_subscription_names : List Node → List RelayRoute → List Node × List RelayRoute
unfolding name_nodes name_relays
unique_subscription_names nodes relays =
    let (named, used) = name_nodes reserved_names nodes in (named, name_relays used relays)
