-- ===== src/Panel/NodeLinks.antt =====
-- The handlers of the nodes keep the bindings of the clients linked.
use yuchen_panel.Common.{
  ◌≡◌, true, not, String, List, [], ◌∷◌, Map, insert, erase, has_key, keep_if, AllValues-map_values,
  All, ◌==◌, if◌then◌else◌, inl, inr, Bool-cases, Outcome-cases,
}
use yuchen_panel.Model.{Node}
use yuchen_panel.Store.{Store, Env, normalize, save_locked, add_log, log_and_save}
use yuchen_panel.Nodes.{
  Keys, normalize_node, trim_node, keep_security, create_node, update_node, delete_node,
  unbind_node,
}
use yuchen_panel.Panel.Links.{
  ClientLinked, IsLinked, has_key-insert, has_key-erase, ClientLinked-mono, AllValues-weaken,
  ensure_single_mode_locked-IsLinked,
}

-- the bindings that are kept exist once a key is erased
pub kept-has_key {ℓ} :
    {V : Type ℓ} (k : String) (m : Map V) (ids : List String)
    → All (λ id. has_key id m ≡ true) ids
    → All (λ id. has_key id (erase k m) ≡ true) (keep_if (λ id. not (id == k)) ids)
unfolding keep_if
kept-has_key k m [] h = tt
kept-has_key k m (id ∷ ids) h = elim (Bool-cases (id == k)) [
  | inl e ↦ rw (e, not, if◌then◌else◌) (kept-has_key k m ids h.1)
  | inr e ↦ rw (e, not, if◌then◌else◌) (has_key-erase k id m e h.0, kept-has_key k m ids h.1)
]

-- a new node under any key loses no binding
IsLinked-insert_node :
    (id : String) (n : Node) (s : Store)
    → IsLinked s.memory
    → IsLinked (record (s.memory) { nodes = insert id n s.memory.nodes })
IsLinked-insert_node id n s h =
    AllValues-weaken _ _ s.memory.clients
      (λ c l.
        ClientLinked-mono s.memory.nodes _ s.memory.relay_routes _ c
          (λ j k. has_key-insert id j n s.memory.nodes k) (λ j k. k) l)
      h

normalize_node-IsLinked :
    (env : Env) (keys : Keys) (body : Node) (id : String) (s : Store)
    → IsLinked s.memory
    → IsLinked (normalize_node env keys body id s).0.memory
unfolding normalize_node
normalize_node-IsLinked env keys body id s h =
    elim (Bool-cases ((trim_node body).server_id == "")) [
      | inl e ↦ rw (normalize_node, e, if◌then◌else◌) (ensure_single_mode_locked-IsLinked env s h)
      | inr e ↦ rw (normalize_node, e, if◌then◌else◌) h
    ]

pub create_node-IsLinked :
    (env : Env) (keys : Keys) (body : Node) (s : Store)
    → IsLinked s.memory
    → IsLinked (create_node env keys body s).0.memory
unfolding create_node log_and_save add_log save_locked normalize
create_node-IsLinked env keys body s h =
    let settled = normalize_node-IsLinked env keys body "" s h in
    elim (Outcome-cases (normalize_node env keys body "" s).1) [
      | inl (n, q) ↦
          rw (create_node, q)
            (IsLinked-insert_node env.new_id _ (normalize_node env keys body "" s).0 settled)
      | inr (e, q) ↦ rw (create_node, q) settled
    ]

pub update_node-IsLinked :
    (env : Env) (keys : Keys) (id : String) (item body : Node) (s : Store)
    → IsLinked s.memory
    → IsLinked (update_node env keys id item body s).0.memory
unfolding update_node log_and_save add_log save_locked normalize
update_node-IsLinked env keys id item body s h =
    let next = keep_security item body in
    let settled = normalize_node-IsLinked env keys next id s h in
    elim (Outcome-cases (normalize_node env keys next id s).1) [
      | inl (n, q) ↦
          rw (update_node, q)
            (IsLinked-insert_node id _ (normalize_node env keys next id s).0 settled)
      | inr (e, q) ↦ rw (update_node, q) settled
    ]

pub delete_node-IsLinked :
    (env : Env) (id : String) (s : Store)
    → IsLinked s.memory
    → IsLinked (delete_node env id s).0.memory
unfolding delete_node unbind_node log_and_save add_log save_locked normalize
delete_node-IsLinked env id s h =
    AllValues-map_values (ClientLinked s.memory.nodes s.memory.relay_routes) _ (unbind_node id)
      s.memory.clients (λ c l. (kept-has_key id s.memory.nodes c.node_ids l.0, l.1)) h
