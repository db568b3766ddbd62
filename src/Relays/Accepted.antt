-- ===== src/Relays/Accepted.antt =====
-- What `normalizeRelayLocked` guarantees of a relay route that it accepts.
use yuchen_panel.Common.{
  ◌≡◌, refl, subst, has_key, ◌≤ℤ◌, String, true, ◌||◌, Map, pos, ltb_ℤ, lookup, arith, some, ◌==◌,
  if◌then◌else◌, inl, inr, Bool-cases, ok, >>=-eq-ok, fail_if-eq-ok, or_fail, or_fail-eq-ok,
  ok-injective,
}
use yuchen_panel.Model.{Node, RelayRoute, PanelData}
use yuchen_panel.Nodes.{Keys, or_text}
use yuchen_panel.Relays.Normalize.{
  normalize_relay_on_server, check_tcp_forward, check_landing, check_socks5_route, check_relay_port,
  check_panel_node, check_manual_socks5, route_reality, with_landing_mode, check_route,
  relay_reality_keys, check_forwarded, check_exit_inbound,
}

-- the checks of a route leave its server and its port alone
abbrev SamePlace : RelayRoute → RelayRoute → Type 0
SamePlace r r' = (r'.relay_server_id ≡ r.relay_server_id) × (r'.relay_port ≡ r.relay_port)

same_place : (r x r' : RelayRoute) → ok x ≡ ok r' → SamePlace r x → SamePlace r r'
same_place r x r' e h = subst (SamePlace r) (ok-injective e) h

check_tcp_forward-SamePlace :
    (nodes : Map Node) (r r' : RelayRoute) → check_tcp_forward nodes r ≡ ok r' → SamePlace r r'
unfolding check_tcp_forward
check_tcp_forward-SamePlace nodes r r' h =
    let (a, h₁) = fail_if-eq-ok (r.landing_node_id == "") _ _ h in
    let (landing, e, h₂) = >>=-eq-ok (or_fail (lookup r.landing_node_id nodes) _) _ h₁ in
    let (u, f, h₃) = >>=-eq-ok (check_forwarded (or_text r.relay_network "tcp") landing) _ h₂ in
    same_place r (record r { relay_network = or_text r.relay_network "tcp" }) r' h₃ (refl, refl)

panel_node-SamePlace :
    (nodes : Map Node) (r r' : RelayRoute) → check_panel_node nodes r ≡ ok r' → SamePlace r r'
unfolding check_panel_node
panel_node-SamePlace nodes r r' h =
    let (a, h₁) = fail_if-eq-ok (r.landing_node_id == "") _ _ h in
    let (landing, e, h₂) = >>=-eq-ok (or_fail (lookup r.landing_node_id nodes) _) _ h₁ in
    let (u, f, h₃) = >>=-eq-ok (check_exit_inbound landing) _ h₂ in
    same_place r r r' h₃ (refl, refl)

manual_socks5-SamePlace : (r r' : RelayRoute) → check_manual_socks5 r ≡ ok r' → SamePlace r r'
unfolding check_manual_socks5
manual_socks5-SamePlace r r' h =
    let (a, h₁) = fail_if-eq-ok (r.manual_socks_host == "") _ _ h in
    let (b, h₂) =
      fail_if-eq-ok (ltb_ℤ r.manual_socks_port (pos 1) || ltb_ℤ (pos 65535) r.manual_socks_port) _ _
        h₁ in
    let (c, h₃) =
      fail_if-eq-ok (r.manual_socks_username == "" || r.manual_socks_password == "") _ _ h₂ in
    same_place r (record r { landing_node_id = "" }) r' h₃ (refl, refl)

check_landing-SamePlace :
    (nodes : Map Node) (r r' : RelayRoute) → check_landing nodes r ≡ ok r' → SamePlace r r'
unfolding check_landing
check_landing-SamePlace nodes r r' h = elim (Bool-cases (r.landing_mode == "panel_node")) [
  | inl t ↦ panel_node-SamePlace nodes r r' (rw (t, if◌then◌else◌) at h)
  | inr t ↦ elim (Bool-cases (r.landing_mode == "manual_socks5")) [
    | inl u ↦ manual_socks5-SamePlace r r' (rw (t, u, if◌then◌else◌) at h)
    | inr u ↦ absurd (ground arith)
  ]
]

check_socks5_route-SamePlace :
    (keys : Keys) (nodes : Map Node) (r r' : RelayRoute)
    → check_socks5_route keys nodes r ≡ ok r'
    → SamePlace r r'
unfolding check_socks5_route
check_socks5_route-SamePlace keys nodes r r' h =
    let (landed, e, h₁) = >>=-eq-ok (check_landing nodes (with_landing_mode r)) _ h in
    let (pair, k, h₂) =
      >>=-eq-ok (relay_reality_keys keys landed) (λ p. ok (route_reality keys landed p)) h₁ in
    same_place r (route_reality keys landed pair) r' h₂
      (check_landing-SamePlace nodes (with_landing_mode r) landed e)

check_route-SamePlace :
    (keys : Keys) (nodes : Map Node) (r r' : RelayRoute)
    → check_route keys nodes r ≡ ok r'
    → SamePlace r r'
unfolding check_route
check_route-SamePlace keys nodes r r' h = elim (Bool-cases (r.route_mode == "tcp_forward")) [
  | inl t ↦ check_tcp_forward-SamePlace nodes r r' (rw (t, if◌then◌else◌) at h)
  | inr t ↦ check_socks5_route-SamePlace keys nodes r r' (rw (t, if◌then◌else◌) at h)
]

-- The steps of a normalisation that succeeds.
pub record Accepted (d : PanelData) (current_id : String) (b r : RelayRoute) : Type 0 where
  pub server_exists : has_key b.relay_server_id d.servers ≡ true
  pub high_port : (pos 10000 ≤ℤ b.relay_port) × (b.relay_port ≤ℤ pos 65535)
  pub same : SamePlace b r
  pub port_free :
      check_relay_port d (some current_id) " 使用，请换一个端口" b.relay_server_id b.relay_port ≡ ok tt

pub normalize_relay_on_server-Accepted :
    (keys : Keys) (d : PanelData) (current_id : String) (b r : RelayRoute)
    → normalize_relay_on_server keys d current_id b ≡ ok r
    → Accepted d current_id b r
unfolding normalize_relay_on_server
normalize_relay_on_server-Accepted keys d current_id b r h =
    let (srv, es, h₁) = >>=-eq-ok (or_fail (lookup b.relay_server_id d.servers) _) _ h in
    let (range, h₂) =
      fail_if-eq-ok (ltb_ℤ b.relay_port (pos 1) || ltb_ℤ (pos 65535) b.relay_port) _ _ h₁ in
    let (high, h₃) = fail_if-eq-ok (ltb_ℤ b.relay_port (pos 10000)) _ _ h₂ in
    let host = if srv.host == "" then srv.ip else srv.host in
    let placed : RelayRoute = record b { relay_host = or_text b.relay_host host } in
    let (final, ef, h₄) = >>=-eq-ok (check_route keys d.nodes placed) _ h₃ in
    let (u, ep, h₅) =
      >>=-eq-ok (check_relay_port d (some current_id) " 使用，请换一个端口" b.relay_server_id b.relay_port) _
        h₄ in
    let exists = or_fail-eq-ok (lookup b.relay_server_id d.servers) _ es in
    record {
      server_exists = rw (has_key, exists) refl;
      high_port = ground arith;
      same = same_place b final r h₅ (check_route-SamePlace keys d.nodes placed final ef);
      port_free = ep;
    }
