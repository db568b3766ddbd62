-- ===== src/Nodes/Ports.antt =====
-- The ports of the nodes: which requests keep them distinct.
use yuchen_panel.Common.{
  trim_space, ◌≡◌, ◌∙◌, refl, sym, String, true, false, not, ◌&&◌, [], ◌∷◌, Map, ℤ, eqb_ℤ, arith,
  lookup, lookup-insert_self, lookup-insert_other, none, some, ◌==◌, if◌then◌else◌, inl, inr,
  Bool-cases, Option-cases, Outcome-cases, ok,
}
use text.Mathlib.TextEquality.{eq_iff}
use yuchen_panel.Model.{Node}
use yuchen_panel.Places.{
  Place, clashes, named_key, PlacesDistinct, PlacesDistinct-insert, true_is_not_false,
}
use yuchen_panel.Store.{Store, Env, normalize, save_locked, add_log, log_and_save}
use yuchen_panel.Nodes.Normalize.{Keys, trim_node, normalize_node, check_port, node_on_port}
use yuchen_panel.Nodes.Handlers.{create_node, update_node, keep_security, created_node}
use yuchen_panel.Nodes.Accepted.{normalize_on_server-Accepted, Accepted-keeps}

-- where an inbound listens
abbrev pub node_place : Node → Place
node_place n = record { server = n.server_id; port = n.port; enabled = n.enabled }

-- a search that finds nothing has seen every other node
node_on_port-none :
    (server_id : String) (port : ℤ) (current_id j : String) (nodes : Map Node) (m : Node)
    → node_on_port server_id port current_id nodes ≡ none
    → lookup j nodes ≡ some m
    → (j == current_id) ≡ false
    → (m.server_id == server_id && m.enabled && eqb_ℤ m.port port) ≡ false
unfolding node_on_port lookup
node_on_port-none server_id port current_id j [] m h stored away = cc
node_on_port-none server_id port current_id j ((k, n) ∷ nodes) m h stored away =
    elim (Bool-cases
      (not (k == current_id) && (n.server_id == server_id && n.enabled && eqb_ℤ n.port port))) [
        | inl t ↦ cc
        | inr f ↦ elim (Bool-cases (k == j)) [
          | inl e ↦
              let same : n ≡ m = ground arith in
              let key : k ≡ j = (eq_iff k j).0 e in rw (sym same) (ground arith)
          | inr e ↦
              node_on_port-none server_id port current_id j nodes m (rw (f, if◌then◌else◌) at h)
                (rw (e, if◌then◌else◌) at stored) away
        ]
      ]

check_port-free :
    (nodes : Map Node) (current_id : String) (n : Node)
    → check_port nodes current_id n ≡ ok tt
    → n.enabled ≡ true
    → (j : String) (m : Node) → lookup j nodes ≡ some m
    → (j == current_id) ≡ false
    → clashes (node_place n) (node_place m) ≡ false
unfolding check_port
check_port-free nodes current_id n h on j m stored away =
    elim (Option-cases (node_on_port n.server_id n.port current_id nodes)) [
      | inl none_found ↦
          node_on_port-none n.server_id n.port current_id j nodes m none_found stored away
      | inr (busy, e) ↦ absurd (ground arith)
    ]

-- what `normalizeNodeLocked` accepts, in terms of the store that it leaves
accepted_free :
    (env : Env) (keys : Keys) (body : Node) (id : String) (s : Store) (n : Node)
    → (normalize_node env keys body id s).1 ≡ ok n
    → (n.enabled ≡ body.enabled)
      × ((j : String) (m : Node)
          → lookup j (normalize_node env keys body id s).0.memory.nodes ≡ some m
          → (j == id) ≡ false
          → n.enabled ≡ true
          → clashes (node_place n) (node_place m) ≡ false)
unfolding normalize_node trim_node
accepted_free env keys body id s n h =
    let a = normalize_on_server-Accepted env keys _ id _ n h in
    (
      (Accepted-keeps env keys _ id _ n a).0,
      λ j m stored away on. check_port-free _ id n a.port_free on j m stored away,
    )

-- a body that names a server leaves the servers, and so the whole store, as they are
normalize_node_named :
    (env : Env) (keys : Keys) (body : Node) (id : String) (s : Store)
    → (trim_space body.server_id == "") ≡ false
    → (normalize_node env keys body id s).0 ≡ s
unfolding normalize_node trim_node
normalize_node_named env keys body id s named = rw (normalize_node, named, if◌then◌else◌) refl

-- A request to change a node that names a server keeps distinct the ports of the enabled nodes of
-- each server.
pub update_node-PlacesDistinct :
    (env : Env) (keys : Keys) (id : String) (item body : Node) (s : Store)
    → (trim_space body.server_id == "") ≡ false
    → PlacesDistinct node_place s.memory.nodes
    → PlacesDistinct node_place (update_node env keys id item body s).0.memory.nodes
unfolding update_node log_and_save add_log save_locked normalize
update_node-PlacesDistinct env keys id item body s named h =
    let next = keep_security item body in
    let same = normalize_node_named env keys next id s named in
    let h' : PlacesDistinct node_place (normalize_node env keys next id s).0.memory.nodes =
      rw (same) h in
    elim (Outcome-cases (normalize_node env keys next id s).1) [
      | inr (e, q) ↦ rw (update_node, q) h'
      | inl (n, q) ↦
          rw (update_node, q)
            (PlacesDistinct-insert node_place id _
              (normalize_node env keys next id s).0.memory.nodes h'
              (accepted_free env keys next id s n q).1)
    ]

-- A request to create a node whose body names a server and asks for an enabled node does so too,
-- where no node is stored under the empty id.
pub create_node-PlacesDistinct :
    (env : Env) (keys : Keys) (body : Node) (s : Store)
    → (trim_space body.server_id == "") ≡ false
    → body.enabled ≡ true
    → lookup "" s.memory.nodes ≡ none
    → PlacesDistinct node_place s.memory.nodes
    → PlacesDistinct node_place (create_node env keys body s).0.memory.nodes
unfolding create_node log_and_save add_log save_locked normalize
create_node-PlacesDistinct env keys body s named asked unnamed h =
    let same = normalize_node_named env keys body "" s named in
    let h' : PlacesDistinct node_place (normalize_node env keys body "" s).0.memory.nodes =
      rw (same) h in
    let missing : lookup "" (normalize_node env keys body "" s).0.memory.nodes ≡ none =
      rw (same) unnamed in
    elim (Outcome-cases (normalize_node env keys body "" s).1) [
      | inr (e, q) ↦ rw (create_node, q) h'
      | inl (n, q) ↦
          let (kept, free) = accepted_free env keys body "" s n q in
          rw (create_node, q)
            (PlacesDistinct-insert node_place env.new_id _
              (normalize_node env keys body "" s).0.memory.nodes h'
              (λ j m stored away on.
                free j m stored (named_key "" j _ missing stored) (kept ∙ asked)))
    ]

-- A node that is created from a body that is not enabled may share its port: the check of the
-- port is left out, and the stored node is enabled all the same.
pub create_node_unchecked :
    (env : Env) (keys : Keys) (body n : Node) (s : Store) (j : String) (m : Node)
    → body.enabled ≡ false
    → (normalize_node env keys body "" s).1 ≡ ok n
    → lookup j (normalize_node env keys body "" s).0.memory.nodes ≡ some m
    → (j == env.new_id) ≡ false
    → clashes (node_place n) (node_place m) ≡ true
    → ¬ PlacesDistinct node_place (create_node env keys body s).0.memory.nodes
unfolding create_node log_and_save add_log save_locked normalize
create_node_unchecked env keys body n s j m off accepted stored away clash distinct =
    let d = (normalize_node env keys body "" s).0.memory in
    let created = rw (create_node, accepted) at distinct in
    let same =
      created env.new_id j (created_node env n) m
        (lookup-insert_self env.new_id (created_node env n) d.nodes)
        (lookup-insert_other env.new_id j (created_node env n) d.nodes away ∙ stored) refl clash in
    absurd (true_is_not_false (sym ((eq_iff j env.new_id).1 (sym same)) ∙ away))
