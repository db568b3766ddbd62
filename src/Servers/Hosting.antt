-- ===== src/Servers/Hosting.antt =====
-- Every inbound has a server: what the operations on servers and nodes keep of that.
use yuchen_panel.Common.{
  ◌≡◌, String, Bool, true, false, List, [], ◌∷◌, Map, arith, insert, erase, has_key, length, leb,
  eqb, AllValues, AllValues-map_values, ◌==◌, if◌then◌else◌, inl, inr, Bool-cases,
}
use text.Mathlib.TextEquality.{eq_iff}
use yuchen_panel.Model.{Server, Node, PanelData}
use yuchen_panel.Store.{Store, Env, normalize, save_locked, add_log, log_and_save}
use yuchen_panel.Store.SingleMode.{
  ensure_single_mode_local_server, ensure_single_mode_locked, seed_local_server, merge_server,
  merge_servers, merge_candidates, move_node, pick_local_server, repair_local_server,
}
use yuchen_panel.Panel.Links.{has_key-insert, has_key-insert_self, has_key-erase, AllValues-weaken}
use yuchen_panel.Servers.{create_server, update_server, delete_server, has_nodes}

-- The server of every node exists.
abbrev pub IsHosted : PanelData → Type 0
IsHosted d = AllValues (λ n. has_key n.server_id d.servers ≡ true) d.nodes

-- a new server, or a new value of one, leaves no node without its server
pub insert_server-IsHosted :
    (id : String) (srv : Server) (d : PanelData)
    → IsHosted d
    → IsHosted (record d { servers = insert id srv d.servers })
insert_server-IsHosted id srv d h =
    AllValues-weaken (λ n. has_key n.server_id d.servers ≡ true) _ d.nodes
      (λ n k. has_key-insert id n.server_id srv d.servers k) h

pub create_server-IsHosted :
    (env : Env) (body : Server) (s : Store)
    → IsHosted s.memory
    → IsHosted (create_server env body s).0.memory
unfolding create_server log_and_save add_log save_locked normalize
create_server-IsHosted env body s h = insert_server-IsHosted env.server_id _ s.memory h

pub update_server-IsHosted :
    (env : Env) (id : String) (item body : Server) (s : Store)
    → IsHosted s.memory
    → IsHosted (update_server env id item body s).0.memory
unfolding update_server log_and_save add_log save_locked normalize
update_server-IsHosted env id item body s h = insert_server-IsHosted id _ s.memory h

-- a server without nodes can go
without_nodes :
    (id : String) (servers : Map Server) (nodes : Map Node)
    → has_nodes id nodes ≡ false
    → AllValues (λ n. has_key n.server_id servers ≡ true) nodes
    → AllValues (λ n. has_key n.server_id (erase id servers) ≡ true) nodes
unfolding has_nodes
without_nodes id servers [] e h = tt
without_nodes id servers ((k, n) ∷ nodes) e h = (
  has_key-erase id n.server_id servers (ground arith) h.0,
  without_nodes id servers nodes (ground arith) h.1,
)

-- Deleting a server leaves every node with its server, and the panel with a server.
pub delete_server-IsHosted :
    (env : Env) (id : String) (s : Store)
    → IsHosted s.memory
    → IsHosted (delete_server env id s).0.memory
unfolding delete_server log_and_save add_log save_locked normalize
delete_server-IsHosted env id s h = elim (Bool-cases (leb (length s.memory.servers) 1)) [
  | inl e ↦ rw (delete_server, e, if◌then◌else◌) h
  | inr e ↦ elim (Bool-cases (has_nodes id s.memory.nodes)) [
    | inl t ↦ rw (delete_server, e, t, if◌then◌else◌) h
    | inr t ↦
        rw (delete_server, e, t, if◌then◌else◌)
          (without_nodes id s.memory.servers s.memory.nodes t h)
  ]
]

-- the nodes of a server that is merged into another move there
move_node-hosted :
    (env : Env) (gone keep : String) (servers : Map Server) (n : Node)
    → (gone == keep) ≡ false
    → has_key keep servers ≡ true
    → has_key n.server_id servers ≡ true
    → has_key (move_node env gone keep n).server_id (erase gone servers) ≡ true
unfolding move_node
move_node-hosted env gone keep servers n e hk hn = elim (Bool-cases (n.server_id == gone)) [
  | inl t ↦
      rw (move_node, t, if◌then◌else◌)
        (has_key-erase gone keep servers (ground (arith, eq_iff gone keep, eq_iff keep gone)) hk)
  | inr t ↦ rw (move_node, t, if◌then◌else◌) (has_key-erase gone n.server_id servers t hn)
]

-- hosted, with the server that is kept
abbrev Merged : String → PanelData → Type 0
Merged keep d = IsHosted d × (has_key keep d.servers ≡ true)

merge_server-Merged :
    (env : Env) (keep : String) (srv : Server) (acc : PanelData × Bool)
    → Merged keep acc.0
    → Merged keep (merge_server env keep srv acc).0
unfolding merge_server
merge_server-Merged env keep srv (d, changed) h = elim (Bool-cases (srv.id == keep)) [
  | inl e ↦ rw (merge_server, e, if◌then◌else◌) h
  | inr e ↦
      rw (merge_server, e, if◌then◌else◌)
        (
          AllValues-map_values (λ n. has_key n.server_id d.servers ≡ true) _
              (move_node env srv.id keep) d.nodes
              (λ n k. move_node-hosted env srv.id keep d.servers n e h.1 k) h.0,
          has_key-erase srv.id keep d.servers
              (ground (arith, eq_iff srv.id keep, eq_iff keep srv.id)) h.1,
        )
]

merge_servers-Merged :
    (env : Env) (keep : String) (servers : List Server) (acc : PanelData × Bool)
    → Merged keep acc.0
    → Merged keep (merge_servers env keep servers acc).0
unfolding merge_servers
merge_servers-Merged env keep [] acc h = h
merge_servers-Merged env keep (srv ∷ rest) acc h =
    merge_servers-Merged env keep rest _ (merge_server-Merged env keep srv acc h)

merge_candidates-IsHosted :
    (env : Env) (candidates : List Server) (d : PanelData)
    → IsHosted d
    → IsHosted (merge_candidates env candidates d).0
unfolding merge_candidates seed_local_server
merge_candidates-IsHosted env [] d h = insert_server-IsHosted _ _ d h
merge_candidates-IsHosted env (first ∷ rest) d h =
    let keep = (repair_local_server env (pick_local_server first rest)).0 in
    (merge_servers-Merged env keep.id (first ∷ rest) _
      (insert_server-IsHosted keep.id keep d h, has_key-insert_self keep.id keep d.servers)).0

ensure_local-IsHosted :
    (env : Env) (d : PanelData) → IsHosted d → IsHosted (ensure_single_mode_local_server env d).0
unfolding ensure_single_mode_local_server seed_local_server
ensure_local-IsHosted env d h = elim (Bool-cases (eqb (length d.servers) 0)) [
  | inl e ↦ rw (e, if◌then◌else◌) (insert_server-IsHosted _ _ d h)
  | inr e ↦ rw (e, if◌then◌else◌) (merge_candidates-IsHosted env _ d h)
]

-- Merging the local servers of single mode into one leaves every node with a server.
pub ensure_single_mode_locked-IsHosted :
    (env : Env) (s : Store) → IsHosted s.memory → IsHosted (ensure_single_mode_locked env s).memory
unfolding ensure_single_mode_locked
ensure_single_mode_locked-IsHosted env s h =
    elim (Bool-cases (ensure_single_mode_local_server env s.memory).1) [
      | inl e ↦
          rw (ensure_single_mode_locked, e, if◌then◌else◌)
            (unfold save_locked normalize in ensure_local-IsHosted env s.memory h)
      | inr e ↦
          rw (ensure_single_mode_locked, e, if◌then◌else◌) (ensure_local-IsHosted env s.memory h)
    ]
