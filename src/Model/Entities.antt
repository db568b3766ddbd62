-- ===== src/Model/Entities.antt =====
-- Administrators, servers, nodes, exits and relay routes (backend/internal/model/model.go).
-- A `time.Time` is the number of nanoseconds since the zero time, so that 0 is the value for which
-- `IsZero` holds. A `float64` is the bit pattern that the panel copies and never computes with.
use yuchen_panel.Common.{ℕ, String, Bool, ℤ}

abbrev pub Time : Type 0
Time = ℕ

abbrev pub Float64 : Type 0
Float64 = ℕ

pub record AdminUser : Type 0 where
  pub id : String
  pub username : String
  pub password_hash : String
  pub role : String
  pub enabled : Bool
  pub last_login_ip : String
  pub last_login_at : Time
  pub created_at : Time

pub record Server : Type 0 where
  pub cpu_cores : ℤ
  pub mem_total_bytes : ℤ
  pub id : String
  pub name : String
  pub ip : String
  pub host : String
  pub region : String
  pub provider : String
  pub status : String
  pub agent_token : String
  pub agent_version : String
  pub xray_version : String
  pub config_hash : String
  pub last_sync_at : Time
  pub last_sync_message : String
  pub cpu_usage : Float64
  pub memory_usage : Float64
  pub disk_usage : Float64
  pub upload_total : ℤ
  pub download_total : ℤ
  pub created_at : Time
  pub updated_at : Time

pub record Node : Type 0 where
  pub id : String
  pub server_id : String
  pub name : String
  pub protocol : String
  pub host : String
  pub port : ℤ
  pub transport : String
  pub security : String
  pub sni : String
  pub path : String
  pub fingerprint : String
  pub reality_dest : String
  pub reality_private_key : String
  pub reality_public_key : String
  pub reality_short_id : String
  pub reality_spider_x : String
  pub socks_username : String
  pub socks_password : String
  pub socks_udp : Bool
  pub ss_method : String
  pub ss_password : String
  pub remark : String
  pub enabled : Bool
  pub created_at : Time
  pub updated_at : Time

pub record LandingExit : Type 0 where
  pub id : String
  pub name : String
  pub host : String
  pub port : ℤ
  pub username : String
  pub password : String
  pub udp : Bool
  pub region : String
  pub provider : String
  pub bandwidth_mbps : ℤ
  pub remark : String
  pub enabled : Bool
  pub last_test_ip : String
  pub last_test_msg : String
  pub last_test_at : Time
  pub created_at : Time
  pub updated_at : Time

pub record RelayRoute : Type 0 where
  pub id : String
  pub name : String
  pub relay_server_id : String
  pub landing_node_id : String
  pub relay_host : String
  pub relay_port : ℤ
  pub landing_mode : String
  pub manual_socks_host : String
  pub manual_socks_port : ℤ
  pub manual_socks_username : String
  pub manual_socks_password : String
  pub manual_socks_udp : Bool
  pub route_mode : String
  pub relay_network : String
  pub relay_sni : String
  pub relay_fingerprint : String
  pub relay_reality_dest : String
  pub relay_reality_private_key : String
  pub relay_reality_public_key : String
  pub relay_reality_short_id : String
  pub relay_reality_spider_x : String
  pub remark : String
  pub enabled : Bool
  pub created_at : Time
  pub updated_at : Time
