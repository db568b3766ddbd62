-- ===== src/Model/Panel.antt =====
-- The network policy, the log, the Agent's messages and the panel's data
-- (backend/internal/model/model.go).
use yuchen_panel.Common.{String, Bool, ℤ, List, Map}
use yuchen_panel.Model.Entities.{Time, Float64, AdminUser, Server, Node, RelayRoute, LandingExit}
use yuchen_panel.Model.Clients.{Client, ClientTraffic}

pub record NetworkPolicy : Type 0 where
  pub mode : String
  pub public_dns : Bool
  pub dns_servers : List String
  pub query_strategy : String
  pub disable_fallback : Bool
  pub disable_fallback_if_match : Bool
  pub block_dns_53 : Bool
  pub block_china_dns : Bool
  pub block_quic : Bool
  pub ipv6_strategy : String
  pub clash_include_quad9 : Bool
  pub sing_box_include_quad9 : Bool
  pub updated_at : Time
  pub updated_by : String

pub record OperationLog : Type 0 where
  pub id : String
  pub actor : String
  pub action : String
  pub ip : String
  pub detail : String
  pub created_at : Time

pub record AgentHeartbeat : Type 0 where
  pub traffic_by_client : Map ClientTraffic
  pub traffic_epoch : String
  pub traffic_sample_at : Time
  pub cpu_cores : ℤ
  pub mem_total_bytes : ℤ
  pub server_id : String
  pub hostname : String
  pub agent_version : String
  pub xray_version : String
  pub config_hash : String
  pub last_message : String
  pub cpu_usage : Float64
  pub memory_usage : Float64
  pub disk_usage : Float64
  pub upload_total : ℤ
  pub download_total : ℤ

pub record AgentSyncRequest : Type 0 where
  pub server_id : String
  pub config_hash : String
  pub agent_version : String

pub record PanelData : Type 0 where
  pub version : String
  pub admins : Map AdminUser
  pub servers : Map Server
  pub nodes : Map Node
  pub clients : Map Client
  pub relay_routes : Map RelayRoute
  pub landing_exits : Map LandingExit
  pub operation_logs : Map OperationLog
  pub network_policy : NetworkPolicy
  pub network_policy_backup : NetworkPolicy
