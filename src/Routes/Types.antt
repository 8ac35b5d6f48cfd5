-- ===== src/Routes/Types.antt =====
-- injector.go and talos_injector.go: routes, and the addresses that they are parsed into.
use dockyards_talos.Base.{ℕ, String, Option, Bool}

pub record Node : Type 0 where
  pub address : String
  pub port : ℕ
  pub machine_key : String

pub record Route : Type 0 where
  pub network : String
  pub gateway : String
  pub metric : ℕ
  pub interface : String

-- The package net/netip, as far as the injector calls it. A parsed address or prefix is never the
-- zero value of its type.
pub record Netip : Type 1 where
  pub Addr : Type 0
  pub Prefix : Type 0
  pub parse_addr : String → Option Addr
  pub parse_prefix : String → Option Prefix
  pub addr_string : Addr → String
  pub prefix_string : Prefix → String
  pub prefix_addr : Prefix → Addr
  pub is6 : Addr → Bool
  pub is_multicast : Addr → Bool

-- RouteConfig of the Talos machinery; `none` is the zero value of an address or a prefix.
pub record RouteConfig (net : Netip) : Type 0 where
  pub route_destination : Option net.Prefix
  pub route_gateway : Option net.Addr
  pub route_source : Option net.Addr
  pub route_metric : ℕ
  pub route_mtu : ℕ
  pub route_table : ℕ

-- The errors of the injector; a number is the index of the route at fault.
pub data Error : Type 0 where
  talos_config_empty node_address_empty node_machine_key_empty : Error
  parse_talos_config create_client get_machine_config extract_machine_config : Error
  interface_empty gateway_empty parse_gateway parse_network : ℕ → Error
  parse_machine_config build_machine_config encode_machine_config apply_machine_config : Error
  route_gateway_empty route_interface_empty route_network_unparsed route_gateway_unparsed : Error
  get_route_spec timed_out context_ended : Error
