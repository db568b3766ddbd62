-- ===== src/Panel/Hosted.antt =====
-- Every request leaves every inbound with its server.
use yuchen_panel.Common.{
  ◌≡◌, refl, ap, String, true, Option, has_key, AllValues-insert, AllValues-erase, ◌==◌,
  if◌then◌else◌, inl, inr, Bool-cases, Outcome-cases, ok,
}
use yuchen_panel.Model.{Time, Node, AgentHeartbeat, PanelData}
use yuchen_panel.Store.{Store, Env, normalize, save_locked, add_log, log_and_save}
use yuchen_panel.Traffic.{account_traffic}
use yuchen_panel.Agent.{record_heartbeat, save_heartbeat}
use yuchen_panel.Agent.Rollback.{account_traffic-clients}
use yuchen_panel.Nodes.{
  Keys, trim_node, normalize_node, keep_security, create_node, update_node, delete_node,
}
use yuchen_panel.Nodes.Accepted.{normalize_on_server-Accepted, Accepted-keeps}
use yuchen_panel.Servers.Hosting.{
  IsHosted, insert_server-IsHosted, create_server-IsHosted, update_server-IsHosted,
  delete_server-IsHosted, ensure_single_mode_locked-IsHosted,
}
use yuchen_panel.Panel.Interface.{Keeps}
use yuchen_panel.Panel.HostedClients.{
  create_client-IsHosted, update_client-IsHosted, delete_client-IsHosted, reset_token-IsHosted,
}
use yuchen_panel.Panel.HostedRelays.{
  create_relay-IsHosted, update_relay-IsHosted, delete_relay-IsHosted,
  create_client_with_relay-IsHosted,
}

normalize_node-IsHosted :
    (env : Env) (keys : Keys) (body : Node) (id : String) (s : Store)
    → IsHosted s.memory
    → IsHosted (normalize_node env keys body id s).0.memory
unfolding normalize_node
normalize_node-IsHosted env keys body id s h =
    elim (Bool-cases ((trim_node body).server_id == "")) [
      | inl e ↦ rw (normalize_node, e, if◌then◌else◌) (ensure_single_mode_locked-IsHosted env s h)
      | inr e ↦ rw (normalize_node, e, if◌then◌else◌) h
    ]

-- a node that is accepted has its server
accepted-has_key :
    (env : Env) (keys : Keys) (body : Node) (id : String) (s : Store) (n : Node)
    → (normalize_node env keys body id s).1 ≡ ok n
    → has_key n.server_id (normalize_node env keys body id s).0.memory.servers ≡ true
unfolding normalize_node
accepted-has_key env keys body id s n h =
    let a = normalize_on_server-Accepted env keys _ id _ n h in
    rw ((Accepted-keeps env keys _ id _ n a).1, has_key, a.server_exists) refl

create_node-IsHosted :
    (keys : Keys) (env : Env) (body : Node) (s : Store)
    → IsHosted s.memory
    → IsHosted (create_node env keys body s).0.memory
unfolding create_node log_and_save add_log save_locked normalize
create_node-IsHosted keys env body s h =
    let settled = normalize_node-IsHosted env keys body "" s h in
    let servers = (normalize_node env keys body "" s).0.memory.servers in
    elim (Outcome-cases (normalize_node env keys body "" s).1) [
      | inl (n, q) ↦
          rw (create_node, q)
            (AllValues-insert (λ m. has_key m.server_id servers ≡ true) env.new_id _ _
              (accepted-has_key env keys body "" s n q) settled)
      | inr (e, q) ↦ rw (create_node, q) settled
    ]

update_node-IsHosted :
    (keys : Keys) (env : Env) (id : String) (item body : Node) (s : Store)
    → IsHosted s.memory
    → IsHosted (update_node env keys id item body s).0.memory
unfolding update_node log_and_save add_log save_locked normalize
update_node-IsHosted keys env id item body s h =
    let next = keep_security item body in
    let settled = normalize_node-IsHosted env keys next id s h in
    let servers = (normalize_node env keys next id s).0.memory.servers in
    elim (Outcome-cases (normalize_node env keys next id s).1) [
      | inl (n, q) ↦
          rw (update_node, q)
            (AllValues-insert (λ m. has_key m.server_id servers ≡ true) id _ _
              (accepted-has_key env keys next id s n q) settled)
      | inr (e, q) ↦ rw (update_node, q) settled
    ]

delete_node-IsHosted :
    (env : Env) (id : String) (s : Store)
    → IsHosted s.memory
    → IsHosted (delete_node env id s).0.memory
unfolding delete_node log_and_save add_log save_locked normalize
delete_node-IsHosted env id s h =
    AllValues-erase (λ n. has_key n.server_id s.memory.servers ≡ true) id s.memory.nodes h

account_traffic-IsHosted :
    (now : Time) (hb : AgentHeartbeat) (d : PanelData)
    → IsHosted d
    → IsHosted (account_traffic now hb d)
account_traffic-IsHosted now hb d h =
    let nodes = ap {A = PanelData} (λ e. e.nodes) (account_traffic-clients now hb d) in
    let servers = ap {A = PanelData} (λ e. e.servers) (account_traffic-clients now hb d) in
    rw (nodes, servers) h

save_heartbeat-IsHosted :
    (env : Env) (hb : AgentHeartbeat) (s : Store)
    → IsHosted s.memory
    → IsHosted (save_heartbeat env hb s).0.memory
unfolding save_heartbeat save_locked normalize record_heartbeat
save_heartbeat-IsHosted env hb s h =
    let accounted = account_traffic env.now hb s.memory in
    let hosted = account_traffic-IsHosted env.now hb s.memory h in
    elim (Bool-cases env.file_written) [
      | inl w ↦ rw (save_heartbeat, w, if◌then◌else◌) (insert_server-IsHosted _ _ accounted hosted)
      | inr w ↦
          rw (save_heartbeat, w, if◌then◌else◌)
            (insert_server-IsHosted _ _ (record_heartbeat env hb s.memory)
              (insert_server-IsHosted _ _ accounted hosted))
    ]

pub IsHosted-Keeps :
    (parse_time : String → Option Time) (keys : Keys) → Keeps parse_time keys IsHosted
unfolding normalize add_log
IsHosted-Keeps parse_time keys = record {
  saved = λ d h. h;
  logged = λ env action detail d h. h;
  exits = λ d m h. h;
  settles = ensure_single_mode_locked-IsHosted;
  creates_client = create_client-IsHosted;
  updates_client = update_client-IsHosted;
  deletes_client = delete_client-IsHosted;
  resets_token = reset_token-IsHosted;
  creates_with_relay = create_client_with_relay-IsHosted parse_time keys;
  creates_node = create_node-IsHosted keys;
  updates_node = update_node-IsHosted keys;
  deletes_node = delete_node-IsHosted;
  creates_relay = create_relay-IsHosted keys;
  updates_relay = update_relay-IsHosted keys;
  deletes_relay = delete_relay-IsHosted;
  creates_server = create_server-IsHosted;
  updates_server = update_server-IsHosted;
  deletes_server = delete_server-IsHosted;
  beats = save_heartbeat-IsHosted;
}
