-- ===== src/Model/Clients.antt =====
-- Clients, their traffic cursors and what a client is authorised for
-- (backend/internal/model/model.go, backend/internal/model/authorization.go).
use yuchen_panel.Common.{
  String, Bool, not, ◌&&◌, ◌||◌, ℤ, List, [], Map, ltb, eqb, ◌==◌, if◌then◌else◌, keep_if,
}
use yuchen_panel.Model.Entities.{Time}

pub record TrafficCursor : Type 0 where
  pub epoch : String
  pub uplink : ℤ
  pub downlink : ℤ
  pub sample_at : Time

pub record ClientTraffic : Type 0 where
  pub uplink : ℤ
  pub downlink : ℤ

pub record Client : Type 0 where
  pub remark : String
  pub id : String
  pub username : String
  pub email : String
  pub uuid : String
  pub password : String
  pub traffic_limit_gb : ℤ
  pub traffic_used_gb : ℤ
  pub traffic_used_bytes : ℤ
  pub billing_cycle_start : Time
  pub billing_cycle_days : ℤ
  pub traffic_reset_at : Time
  pub traffic_cursors : Map TrafficCursor
  pub expire_at : Time
  pub subscribe_token : String
  pub enabled : Bool
  pub node_ids : List String
  pub relay_route_ids : List String
  pub created_at : Time
  pub updated_at : Time

-- time.Time.IsZero, t.Before(u), t.After(u)
abbrev pub is_zero : Time → Bool
is_zero t = eqb t 0

abbrev pub before : Time → Time → Bool
before t u = ltb t u

abbrev pub after : Time → Time → Bool
after t u = ltb u t

-- `AllowedNodes`: the keys of the returned map, whose values are all true; `now` is `time.Now()`
unfoldable pub allowed_nodes : Time → Client → List String
unfolding keep_if
allowed_nodes now client =
    if not client.enabled || (not (is_zero client.expire_at) && not (before now client.expire_at))
    then []
    else keep_if (λ id. not (id == "")) client.node_ids
