-- ===== src/Rulespec/Address.antt =====
-- internal/rulespec/values.go: addresses and prefixes.
use edge_route_gw.Prelude.{String, Option, none, some, if◌then◌else◌}
use edge_route_gw.Text.{trim_space, is_empty}
use edge_route_gw.Net.{Addr, Prefix, bit_len, unmap, masked}
use edge_route_gw.Net.Text.{NetText}

module _ (net : NetText) where
  abbrev of_addr : Option Addr → Option String
  of_addr none = none
  of_addr (some a) = some (net.show_prefix (record { addr = unmap a; bits = bit_len (unmap a) }))

  abbrev of_prefix : Option Prefix → String → Option String
  of_prefix (some p) s = some (net.show_prefix (masked p))
  of_prefix none s = of_addr (net.parse_addr s)

  -- NormalizeIPOrCIDR; `none` is an error
  unfoldable pub normalize_ip_or_cidr : String → Option String
  normalize_ip_or_cidr v =
      let s = trim_space v in if is_empty s then none else of_prefix (net.parse_prefix s) s
