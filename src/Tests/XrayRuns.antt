-- ===== src/Tests/XrayRuns.antt =====
-- The Xray configuration of the small panel.
use yuchen_panel.Common.{
  ◌<◌, ◌≡◌, ◌≢◌, All, refl, String, Bool, false, not, ◌&&◌, List, [], ◌∷◌, pos, to_lower, contains,
  any, keep_if, append, arith, ◌==◌,
}
use yuchen_panel.Model.{Node, Client, NetworkPolicy}
use yuchen_panel.Xray.Users.{
  InboundUser, email_of, relay_user, make_inbound_clients, make_relay_vless_clients,
}
use yuchen_panel.Xray.Entitled.{
  is_running, not_expired, has_credential, credential, make_inbound_clients_entitled,
  make_relay_vless_clients_entitled,
}
use yuchen_panel.Xray.Config.{used_ports, stats_port, generate_server_config}
use yuchen_panel.Xray.StatsPort.{stats_port_free}
use yuchen_panel.Xray.Routing.{IsResolved, generate_server_config-IsResolved}
use yuchen_panel.Xray.Traces.{generate_server_config-keep_if}
use yuchen_panel.Tests.Data.{noon, node, socks, route, client, guest, policy}

abbrev hash : String → String
hash s = s

abbrev both_clients : List Client
both_clients = client ∷ record guest { enabled = false } ∷ []

abbrev both_nodes : List Node
both_nodes = node ∷ record socks { port = pos 10000 } ∷ []

abbrev strict : NetworkPolicy
strict = record policy { mode = "strict" }

abbrev is_first : InboundUser → Bool
is_first u = email_of u == "client_c1"

make_inbound_clients_entitled_example :
    any is_first (make_inbound_clients hash noon "n1" "VLESS" both_clients)
    ≡ any
        (λ c.
          (is_running noon c && contains c.node_ids "n1")
          && (has_credential (to_lower "VLESS") c
              && is_first (credential hash (to_lower "VLESS") c)))
        both_clients
make_inbound_clients_entitled_example =
    make_inbound_clients_entitled hash noon "n1" "VLESS" both_clients is_first refl

make_relay_vless_clients_entitled_example :
    any is_first (make_relay_vless_clients noon "r1" both_clients)
    ≡ any
        (λ c.
          (not_expired noon c && contains c.relay_route_ids "r1")
          && (not (c.uuid == "") && is_first (relay_user c.uuid (append "client_" c.id))))
        both_clients
make_relay_vless_clients_entitled_example =
    make_relay_vless_clients_entitled noon "r1" both_clients is_first

stats_port_free_example :
    let p = stats_port (used_ports both_nodes (route ∷ [])) in
    All (λ n. n.port ≢ pos p) both_nodes × All (λ r. r.relay_port ≢ pos p) (route ∷ [])
stats_port_free_example = stats_port_free both_nodes (route ∷ [])

taken_below : 10000 < stats_port (used_ports both_nodes (route ∷ []))
unfolding stats_port used_ports
taken_below = omega arith

generate_server_config-IsResolved_example : IsResolved (
    generate_server_config hash noon both_nodes both_clients
      (route ∷ [])
      (("n1", node) ∷ [])
      strict)
generate_server_config-IsResolved_example =
    generate_server_config-IsResolved hash noon both_nodes both_clients (route ∷ [])
      (("n1", node) ∷ []) strict

generate_server_config-keep_if_example :
    generate_server_config hash noon both_nodes
      (keep_if (not_expired noon) both_clients)
      (route ∷ [])
      (("n1", node) ∷ [])
      strict
    ≡ generate_server_config hash noon both_nodes both_clients
        (route ∷ [])
        (("n1", node) ∷ [])
        strict
generate_server_config-keep_if_example =
    generate_server_config-keep_if hash noon both_nodes both_clients (route ∷ [])
      (("n1", node) ∷ []) strict
