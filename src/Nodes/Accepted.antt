-- ===== src/Nodes/Accepted.antt =====
-- What `normalizeNodeLocked` guarantees of a node that it accepts.
use yuchen_panel.Common.{
  ◌≡◌, ◌≢◌, ◌∙◌, refl, sym, String, true, false, not, ◌||◌, ◌⊎◌, pos, ◌≤ℤ◌, ltb_ℤ, lookup, arith,
  some, ◌==◌, if◌then◌else◌, inl, inr, Bool-cases, ok, >>=-eq-ok, fail_if-eq-ok, or_fail-eq-ok,
  ok-injective,
}
use text.Mathlib.TextEquality.{eq_iff}
use yuchen_panel.Model.{Node, Server, PanelData}
use yuchen_panel.Store.{Env}
use yuchen_panel.Nodes.Normalize.{
  Keys, normalize_on_server, reality_node, reality_keys, socks_node, default_place, default_kind,
  with_reality, check_port, check_kind, check_wire,
}

reality_node_enabled :
    (keys : Keys) (n n' : Node)
    → reality_node keys n ≡ ok n'
    → (n'.enabled ≡ n.enabled)
      × (n'.server_id ≡ n.server_id)
      × (n'.port ≡ n.port)
      × (n'.protocol ≡ n.protocol)
unfolding reality_node
reality_node_enabled keys n n' h = elim (Bool-cases (n.security == "reality")) [
  | inl e ↦
      let (pair, k, t) =
        >>=-eq-ok (reality_keys keys n.reality_private_key n.reality_public_key)
          (λ pair. ok (with_reality keys n pair)) (rw (e, if◌then◌else◌) at h) in
      let same : with_reality keys n pair ≡ n' = ok-injective t in
      rw (sym same) (refl, refl, refl, refl)
  | inr e ↦
      let same : n ≡ n' = ok-injective (rw (e, if◌then◌else◌) at h) in
      rw same (refl, refl, refl, refl)
]

socks_node_enabled :
    (env : Env) (keys : Keys) (n : Node)
    → ((socks_node env keys n).enabled ≡ n.enabled)
      × ((socks_node env keys n).server_id ≡ n.server_id)
      × ((socks_node env keys n).port ≡ n.port)
unfolding socks_node
socks_node_enabled env keys n =
    elim (Bool-cases (n.protocol == "socks" || n.protocol == "socks5")) [
      | inl e ↦ rw (socks_node, e, if◌then◌else◌) (refl, refl, refl)
      | inr e ↦ rw (socks_node, e, if◌then◌else◌) (refl, refl, refl)
    ]

-- The steps of a normalisation that succeeds.
pub record Accepted (env : Env) (keys : Keys) (d : PanelData) (current_id : String) (b n : Node)
    : Type 0 where
  pub srv : Server
  pub server_exists : lookup b.server_id d.servers ≡ some srv
  pub named : (b.name == "") ≡ false
  pub completed :
      reality_node keys (socks_node env keys (default_place srv (default_kind b))) ≡ ok n
  pub port_range : (ltb_ℤ n.port (pos 1) || ltb_ℤ (pos 65535) n.port) ≡ false
  pub port_free : check_port d.nodes current_id n ≡ ok tt
  pub kind_known : check_kind n ≡ ok tt

pub normalize_on_server-Accepted :
    (env : Env) (keys : Keys) (d : PanelData) (current_id : String) (b n : Node)
    → normalize_on_server env keys d current_id b ≡ ok n
    → Accepted env keys d current_id b n
unfolding normalize_on_server
normalize_on_server-Accepted env keys d current_id b n h =
    let (has, h₁) = fail_if-eq-ok (b.server_id == "") _ _ h in
    let (srv, es, h₂) = >>=-eq-ok _ _ h₁ in
    let (named, h₃) = fail_if-eq-ok _ _ _ h₂ in
    let (kind, h₄) = fail_if-eq-ok _ _ _ h₃ in
    let (final, ef, h₅) = >>=-eq-ok _ _ h₄ in
    let (range, h₆) = fail_if-eq-ok _ _ _ h₅ in
    let (u, ep, h₇) = >>=-eq-ok _ _ h₆ in
    let (w, ek, h₈) = >>=-eq-ok _ _ h₇ in
    let same : final ≡ n = ok-injective h₈ in
    rw (sym same) (record {
      srv = srv;
      server_exists = or_fail-eq-ok _ _ es;
      named = named;
      completed = ef;
      port_range = range;
      port_free = ep;
      kind_known = ek;
    })

-- A node keeps through normalisation whether it is enabled, its port and its server.
pub Accepted-keeps :
    (env : Env) (keys : Keys) (d : PanelData) (current_id : String) (b n : Node)
    → Accepted env keys d current_id b n
    → (n.enabled ≡ b.enabled) × (n.server_id ≡ b.server_id) × (n.port ≡ b.port)
unfolding default_kind default_place
Accepted-keeps env keys d current_id b n a =
    let p = default_place a.srv (default_kind b) in
    let (e, s, t, q) = reality_node_enabled keys (socks_node env keys p) n a.completed in
    let (e', s', t') = socks_node_enabled env keys p in (e ∙ e', s ∙ s', t ∙ t')

-- a protocol, a transport and a security that the generator of the Xray configuration serves
abbrev pub IsKnown : Node → Type 0
IsKnown n =
    ((n.protocol ≡ "vless") ⊎ ((n.protocol ≡ "vmess") ⊎ (n.protocol ≡ "trojan")))
    × ((n.transport ≡ "tcp") ⊎ ((n.transport ≡ "ws") ⊎ (n.transport ≡ "grpc")))
    × ((n.security ≡ "none") ⊎ ((n.security ≡ "tls") ⊎ (n.security ≡ "reality")))

-- What an inbound needs to be served: a port, and a known protocol, transport and security; a SOCKS5
-- inbound has credentials, and neither a transport of its own nor a security.
pub record IsServable (n : Node) : Type 0 where
  pub port_range : (pos 1 ≤ℤ n.port) × (n.port ≤ℤ pos 65535)
  pub guarded : n.protocol ≡ "socks" → (n.socks_username ≢ "") × (n.socks_password ≢ "")
  pub known : n.protocol ≢ "socks" → IsKnown n
  pub plain : n.protocol ≡ "socks" → (n.transport ≡ "tcp") × (n.security ≡ "none")

one_of_three :
    (v a b c : String) → not (v == a || v == b || v == c) ≡ false → (v ≡ a) ⊎ ((v ≡ b) ⊎ (v ≡ c))
one_of_three v a b c h = ground (arith, eq_iff v a, eq_iff v b, eq_iff v c)

check_wire-IsKnown : (n : Node) → check_wire n ≡ ok tt → IsKnown n
unfolding check_wire
check_wire-IsKnown n h =
    let (p, h₁) = fail_if-eq-ok _ _ _ h in
    let (t, h₂) = fail_if-eq-ok _ _ _ h₁ in
    (
      one_of_three n.protocol "vless" "vmess" "trojan" p,
      one_of_three n.transport "tcp" "ws" "grpc" t,
      one_of_three n.security "none" "tls" "reality" (ground arith),
    )

check_kind-IsServable :
    (n : Node)
    → (ltb_ℤ n.port (pos 1) || ltb_ℤ (pos 65535) n.port) ≡ false
    → check_kind n ≡ ok tt
    → (n.protocol ≡ "socks" → (n.transport ≡ "tcp") × (n.security ≡ "none"))
    → IsServable n
unfolding check_kind
check_kind-IsServable n range h socks = record {
  plain = socks;
  port_range = ground arith;
  guarded = λ e.
      ground
        (arith, eq_iff n.protocol "socks", eq_iff n.socks_username "", eq_iff n.socks_password "");
  known = λ e. check_wire-IsKnown n (ground (arith, eq_iff n.protocol "socks"));
}

socks_node_other :
    (env : Env) (keys : Keys) (m : Node)
    → (m.protocol == "socks" || m.protocol == "socks5") ≡ false
    → socks_node env keys m ≡ m
unfolding socks_node
socks_node_other env keys m e = rw (socks_node, e, if◌then◌else◌) refl

completed_reset :
    (env : Env) (keys : Keys) (m n : Node)
    → (m.protocol == "socks" || m.protocol == "socks5") ≡ true
    → reality_node keys (socks_node env keys m) ≡ ok n
    → (n.transport ≡ "tcp") × (n.security ≡ "none")
unfolding socks_node reality_node
completed_reset env keys m n e h =
    let same = ok-injective (rw (socks_node, e, if◌then◌else◌) at h) in rw (sym same) (refl, refl)

completed_socks :
    (env : Env) (keys : Keys) (m n : Node)
    → reality_node keys (socks_node env keys m) ≡ ok n
    → n.protocol ≡ "socks"
    → (n.transport ≡ "tcp") × (n.security ≡ "none")
completed_socks env keys m n h is_socks =
    elim (Bool-cases (m.protocol == "socks" || m.protocol == "socks5")) [
      | inl e ↦ completed_reset env keys m n e h
      | inr e ↦
          let (a, b, c, kept) =
            reality_node_enabled keys m n (rw (socks_node_other env keys m e) at h) in
          absurd (ground (arith, eq_iff m.protocol "socks", kept))
    ]

-- A node that normalisation accepts has a port from 1 to 65535; as a SOCKS5 inbound it has
-- credentials, the transport tcp and the security none, and any other has a known protocol,
-- transport and security.
pub normalize_on_server-IsServable :
    (env : Env) (keys : Keys) (d : PanelData) (current_id : String) (b n : Node)
    → normalize_on_server env keys d current_id b ≡ ok n
    → IsServable n
normalize_on_server-IsServable env keys d current_id b n h =
    let a = normalize_on_server-Accepted env keys d current_id b n h in
    check_kind-IsServable n a.port_range a.kind_known (completed_socks env keys _ n a.completed)
