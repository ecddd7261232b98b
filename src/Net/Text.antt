-- ===== src/Net/Text.antt =====
-- The text syntax of net/netip, which is not part of the repository.
use edge_route_gw.Prelude.{String, Option}
use edge_route_gw.Net.{Addr, Prefix}

pub record NetText : Type 0 where
  pub parse_addr : String → Option Addr
  pub parse_prefix : String → Option Prefix
  pub show_addr : Addr → String
  pub show_prefix : Prefix → String
