-- ===== src/Panel/Links.antt =====
-- Referential integrity: every node and every relay route that a client is bound to exists.
use yuchen_panel.Common.{
  ◌≡◌, Bool, true, false, String, List, [], ◌∷◌, Map, arith, insert, erase, map_values,
  lookup-insert, lookup-erase, lookup-map_values, has_key, AllValues, All, All-map_weaken, ◌==◌,
  if◌then◌else◌, inl, inr, Bool-cases, eqb, length,
}
use text.Mathlib.TextEquality.{eq_iff}
use yuchen_panel.Model.{Client, Node, RelayRoute, Server, PanelData}
use yuchen_panel.Store.{Store, Env, normalize, save_locked, add_log, log_and_save}
use yuchen_panel.Store.SingleMode.{
  ensure_single_mode_local_server, ensure_single_mode_locked, seed_local_server, merge_server,
  merge_servers, merge_candidates, move_node,
}

abbrev pub ClientLinked : Map Node → Map RelayRoute → Client → Type 0
ClientLinked nodes relays c =
    All (λ id. has_key id nodes ≡ true) c.node_ids
    × All (λ id. has_key id relays ≡ true) c.relay_route_ids

-- Every binding of every client names a node or a relay route that exists.
abbrev pub IsLinked : PanelData → Type 0
IsLinked d = AllValues (ClientLinked d.nodes d.relay_routes) d.clients

module _ {ℓ} {V : Type ℓ} where
  pub has_key-insert :
      (k j : String) (v : V) (m : Map V) → has_key j m ≡ true → has_key j (insert k v m) ≡ true
  has_key-insert k j v m h = ground (arith, lookup-insert k j v m)

  pub has_key-insert_self : (k : String) (v : V) (m : Map V) → has_key k (insert k v m) ≡ true
  has_key-insert_self k v m = ground (arith, lookup-insert k k v m, eq_iff k k)

  pub has_key-erase :
      (k j : String) (m : Map V)
      → (j == k) ≡ false
      → has_key j m ≡ true
      → has_key j (erase k m) ≡ true
  has_key-erase k j m e h = ground (arith, lookup-erase k j m, eq_iff k j, eq_iff j k)

  pub has_key-map_values :
      (f : V → V) (j : String) (m : Map V) → has_key j m ≡ true → has_key j (map_values f m) ≡ true
  has_key-map_values f j m h = ground (arith, lookup-map_values f j m)

-- a linked client stays linked where no key is lost
pub ClientLinked-mono :
    (ns ns' : Map Node) (rs rs' : Map RelayRoute) (c : Client)
    → ((id : String) → has_key id ns ≡ true → has_key id ns' ≡ true)
    → ((id : String) → has_key id rs ≡ true → has_key id rs' ≡ true)
    → ClientLinked ns rs c
    → ClientLinked ns' rs' c
ClientLinked-mono ns ns' rs rs' c hn hr h =
    (All-map_weaken _ _ c.node_ids hn h.0, All-map_weaken _ _ c.relay_route_ids hr h.1)

pub AllValues-weaken {ℓ κ} :
    {V : Type ℓ} (P Q : V → Type κ) (m : Map V)
    → ((v : V) → P v → Q v)
    → AllValues P m
    → AllValues Q m
AllValues-weaken P Q [] h a = tt
AllValues-weaken P Q ((k, v) ∷ m) h a = (h v a.0, AllValues-weaken P Q m h a.1)

-- Saving and logging leave the bindings alone.
pub log_and_save-IsLinked :
    (env : Env) (action detail : String) (d : PanelData) (s : Store)
    → IsLinked d
    → IsLinked (log_and_save env action detail d s).memory
unfolding log_and_save add_log save_locked normalize
log_and_save-IsLinked env action detail d s h = h

-- Merging two servers moves nodes, and loses none.
merge_server-IsLinked :
    (env : Env) (keep : String) (srv : Server) (acc : PanelData × Bool)
    → IsLinked acc.0
    → IsLinked (merge_server env keep srv acc).0
unfolding merge_server
merge_server-IsLinked env keep srv (d, changed) h = elim (Bool-cases (srv.id == keep)) [
  | inl e ↦ rw (merge_server, e, if◌then◌else◌) h
  | inr e ↦
      rw (merge_server, e, if◌then◌else◌)
        (AllValues-weaken _ _ d.clients
          (λ c l.
            ClientLinked-mono d.nodes _ d.relay_routes _ c
              (λ id k. has_key-map_values (move_node env srv.id keep) id d.nodes k) (λ id k. k) l)
          h)
]

merge_servers-IsLinked :
    (env : Env) (keep : String) (servers : List Server) (acc : PanelData × Bool)
    → IsLinked acc.0
    → IsLinked (merge_servers env keep servers acc).0
unfolding merge_servers
merge_servers-IsLinked env keep [] acc h = h
merge_servers-IsLinked env keep (srv ∷ rest) acc h =
    merge_servers-IsLinked env keep rest _ (merge_server-IsLinked env keep srv acc h)

merge_candidates-IsLinked :
    (env : Env) (candidates : List Server) (d : PanelData)
    → IsLinked d
    → IsLinked (merge_candidates env candidates d).0
unfolding merge_candidates seed_local_server
merge_candidates-IsLinked env [] d h = h
merge_candidates-IsLinked env (first ∷ rest) d h = merge_servers-IsLinked env _ (first ∷ rest) _ h

ensure_local-IsLinked :
    (env : Env) (d : PanelData) → IsLinked d → IsLinked (ensure_single_mode_local_server env d).0
unfolding ensure_single_mode_local_server seed_local_server
ensure_local-IsLinked env d h = elim (Bool-cases (eqb (length d.servers) 0)) [
  | inl e ↦ rw (e, if◌then◌else◌) h
  | inr e ↦ rw (e, if◌then◌else◌) (merge_candidates-IsLinked env _ d h)
]

-- Settling the local server keeps every binding, whichever servers are merged.
pub ensure_single_mode_locked-IsLinked :
    (env : Env) (s : Store) → IsLinked s.memory → IsLinked (ensure_single_mode_locked env s).memory
unfolding ensure_single_mode_locked
ensure_single_mode_locked-IsLinked env s h =
    elim (Bool-cases (ensure_single_mode_local_server env s.memory).1) [
      | inl e ↦
          rw (ensure_single_mode_locked, e, if◌then◌else◌)
            (unfold save_locked normalize in ensure_local-IsLinked env s.memory h)
      | inr e ↦
          rw (ensure_single_mode_locked, e, if◌then◌else◌) (ensure_local-IsLinked env s.memory h)
    ]
