-- ===== src/Store/Policy.antt =====
-- The store's own normalisation of network policies
-- (backend/internal/store/store.go, `defaultNetworkPolicy` and `normalizeNetworkPolicy`).
use yuchen_panel.Common.{
  String, Bool, true, false, ◌&&◌, List, [], ◌∷◌, ◌==◌, if◌then◌else◌, contains,
}
use yuchen_panel.Model.{NetworkPolicy}

abbrev pub default_dns : List String
default_dns = "1.1.1.1" ∷ "8.8.8.8" ∷ "9.9.9.9" ∷ []

abbrev pub allowed_modes : List String
allowed_modes = "compat" ∷ "public_dns" ∷ "dns_leak_guard" ∷ "strict" ∷ "custom" ∷ []

abbrev pub allowed_query : List String
allowed_query = "AsIs" ∷ "UseIPv4" ∷ "UseIPv6" ∷ "UseIP" ∷ []

abbrev pub allowed_ipv6 : List String
allowed_ipv6 = "keep" ∷ "warn" ∷ "disable_hint" ∷ []

-- `if !allowed[v] { v = fallback }`
unfoldable pub or_default : List String → String → String → String
unfolding contains
or_default allowed fallback v = if contains allowed v then v else fallback

abbrev pub is_empty : List String → Bool
is_empty [] = true
is_empty (x ∷ xs) = false

unfoldable pub default_network_policy : NetworkPolicy
default_network_policy = record {
  mode = "compat";
  public_dns = false;
  dns_servers = [];
  query_strategy = "AsIs";
  disable_fallback = false;
  disable_fallback_if_match = false;
  block_dns_53 = false;
  block_china_dns = false;
  block_quic = false;
  ipv6_strategy = "keep";
  clash_include_quad9 = false;
  sing_box_include_quad9 = false;
  updated_at = 0;
  updated_by = "";
}

unfoldable pub normalize_network_policy : NetworkPolicy → NetworkPolicy
unfolding default_network_policy or_default
normalize_network_policy p = if p.mode == "" then default_network_policy else record p {
  mode = or_default allowed_modes "compat" p.mode;
  query_strategy =
      or_default allowed_query "AsIs" (if p.query_strategy == "" then "AsIs" else p.query_strategy);
  ipv6_strategy =
      or_default allowed_ipv6 "keep" (if p.ipv6_strategy == "" then "keep" else p.ipv6_strategy);
  dns_servers = if p.public_dns && is_empty p.dns_servers then default_dns else p.dns_servers;
}
