-- ===== src/Panel/TrafficLinks.antt =====
-- Accounting and heartbeats leave the bindings of the clients alone.
use yuchen_panel.Common.{
  ◌≡◌, refl, ap, String, not, ◌&&◌, ◌||◌, [], ◌∷◌, Map, lookup, arith, AllValues, AllValues-insert,
  AllValues-lookup, AllValues-map_values, if◌then◌else◌, inl, inr, Bool-cases, Option-cases,
}
use yuchen_panel.Model.{Time, Client, ClientTraffic, AgentHeartbeat, PanelData}
use yuchen_panel.Store.{Store, Env, normalize, save_locked}
use yuchen_panel.Traffic.{
  migrate_traffic, sample_ignored, charge_sample, apply_traffic_sample, traffic_source_allowed,
  account_sample, account_samples, account_traffic, expired, limited, enforce_client,
  enforce_billing,
}
use yuchen_panel.Agent.{record_heartbeat, save_heartbeat}
use yuchen_panel.Agent.Rollback.{account_traffic-clients}
use yuchen_panel.Panel.Links.{ClientLinked, IsLinked}

-- two clients with the same bindings
abbrev SameBindings : Client → Client → Type 0
SameBindings c c' = (c'.node_ids ≡ c.node_ids) × (c'.relay_route_ids ≡ c.relay_route_ids)

migrate_traffic-SameBindings : (c : Client) → SameBindings c (migrate_traffic c)
unfolding migrate_traffic
migrate_traffic-SameBindings c = ground arith

apply_traffic_sample-SameBindings :
    (c : Client) (source : String) (sample : ClientTraffic) (epoch : String) (at : Time)
    → SameBindings c (apply_traffic_sample c source sample epoch at)
unfolding apply_traffic_sample charge_sample
apply_traffic_sample-SameBindings c source sample epoch at =
    elim (Bool-cases (sample_ignored c (lookup source c.traffic_cursors) sample epoch at)) [
      | inl e ↦ rw (apply_traffic_sample, e, if◌then◌else◌) (refl, refl)
      | inr e ↦ rw (apply_traffic_sample, e, if◌then◌else◌) (migrate_traffic-SameBindings c)
    ]

enforce_client-SameBindings : (now : Time) (c : Client) → SameBindings c (enforce_client now c)
unfolding enforce_client
enforce_client-SameBindings now c =
    let m = migrate_traffic c in
    elim (Bool-cases (m.enabled && (expired now m || limited m))) [
      | inl e ↦ rw (enforce_client, e, if◌then◌else◌) (migrate_traffic-SameBindings c)
      | inr e ↦ rw (enforce_client, e, if◌then◌else◌) (migrate_traffic-SameBindings c)
    ]

account_sample-IsLinked :
    (hb : AgentHeartbeat) (id : String) (sample : ClientTraffic) (d : PanelData)
    → IsLinked d
    → IsLinked (account_sample hb id sample d)
unfolding account_sample
account_sample-IsLinked hb id sample d h = elim (Option-cases (lookup id d.clients)) [
  | inl gone ↦ rw (account_sample, gone) h
  | inr (c, found) ↦ elim (Bool-cases (traffic_source_allowed d c hb.server_id)) [
    | inr t ↦ rw (account_sample, found, t, not, if◌then◌else◌) h
    | inl t ↦
        let P = ClientLinked d.nodes d.relay_routes in
        let same =
          apply_traffic_sample-SameBindings c hb.server_id sample hb.traffic_epoch
            hb.traffic_sample_at in
        let linked : P
            (apply_traffic_sample c hb.server_id sample hb.traffic_epoch hb.traffic_sample_at) =
          rw (same.0, same.1) (AllValues-lookup P id d.clients h found) in
        rw (account_sample, found, t, not, if◌then◌else◌)
          (AllValues-insert P id _ d.clients linked h)
  ]
]

account_samples-IsLinked :
    (hb : AgentHeartbeat) (samples : Map ClientTraffic) (d : PanelData)
    → IsLinked d
    → IsLinked (account_samples hb samples d)
unfolding account_samples
account_samples-IsLinked hb [] d h = h
account_samples-IsLinked hb ((id, sample) ∷ rest) d h =
    account_samples-IsLinked hb rest _ (account_sample-IsLinked hb id sample d h)

pub account_traffic-IsLinked :
    (now : Time) (hb : AgentHeartbeat) (d : PanelData)
    → IsLinked d
    → IsLinked (account_traffic now hb d)
unfolding account_traffic enforce_billing
account_traffic-IsLinked now hb d h =
    let e = account_samples hb hb.traffic_by_client d in
    let P = ClientLinked e.nodes e.relay_routes in
    AllValues-map_values P P (enforce_client now) e.clients
      (λ c l. let same = enforce_client-SameBindings now c in rw (same.0, same.1) l)
      (account_samples-IsLinked hb hb.traffic_by_client d h)

account_traffic-nodes :
    (now : Time) (hb : AgentHeartbeat) (d : PanelData)
    → ((account_traffic now hb d).nodes ≡ d.nodes)
      × ((account_traffic now hb d).relay_routes ≡ d.relay_routes)
account_traffic-nodes now hb d = (
  ap {A = PanelData} (λ e. e.nodes) (account_traffic-clients now hb d),
  ap {A = PanelData} (λ e. e.relay_routes) (account_traffic-clients now hb d),
)

rolled_back :
    (env : Env) (hb : AgentHeartbeat) (s : Store)
    → IsLinked s.memory
    → AllValues
        (ClientLinked
          (account_traffic env.now hb s.memory).nodes
          (account_traffic env.now hb s.memory).relay_routes)
        s.memory.clients
rolled_back env hb s h =
    let same = account_traffic-nodes env.now hb s.memory in rw (same.0, same.1) h

pub save_heartbeat-IsLinked :
    (env : Env) (hb : AgentHeartbeat) (s : Store)
    → IsLinked s.memory
    → IsLinked (save_heartbeat env hb s).0.memory
unfolding save_heartbeat save_locked normalize record_heartbeat
save_heartbeat-IsLinked env hb s h = elim (Bool-cases env.file_written) [
  | inl w ↦ rw (save_heartbeat, w, if◌then◌else◌) (account_traffic-IsLinked env.now hb s.memory h)
  | inr w ↦ rw (save_heartbeat, w, if◌then◌else◌) (rolled_back env hb s h)
]
