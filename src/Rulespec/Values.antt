-- ===== src/Rulespec/Values.antt =====
-- MosdnsValue, IsIPv6Prefix and NormalizeMAC of internal/rulespec. net.ParseMAC is a parameter: how
-- many bytes the address has, and its text.
use Prim.Native.Char.{code}
use Prim.Native.String.{[] as nil_text, ◌∷◌ as cons_text}
use edge_route_gw.Prelude.{ℕ, String, Bool, false, not, Option, none, some, ◌==◌, if◌then◌else◌}
use edge_route_gw.Text.{concat, to_lower, trim_space}
use edge_route_gw.Net.{Prefix, is4}
use edge_route_gw.Net.Text.{NetText}
use edge_route_gw.Rulespec.Domain.{DomainKind, full, suffix, single_level}

-- strings.ReplaceAll(s, ".", `\.`)
unfoldable pub escape_dots : String → String
escape_dots nil_text = nil_text
escape_dots (cons_text c s) =
    let rest = escape_dots s in if code c == b'.' then concat "\\." rest else cons_text c rest

-- `MosdnsValue`
unfoldable pub mosdns_value : DomainKind → String → String
unfolding escape_dots
mosdns_value suffix base = concat "domain:" base
mosdns_value single_level base = concat "regexp:^([^.]+\\.)?" (concat (escape_dots base) "$")
mosdns_value full base = concat "full:" base

abbrev pub is6_prefix : Option Prefix → Bool
is6_prefix none = false
is6_prefix (some p) = not (is4 p.addr)

-- `IsIPv6Prefix`
abbrev pub is_ipv6_prefix : NetText → String → Bool
is_ipv6_prefix net p = is6_prefix (net.parse_prefix p)

abbrev pub mac_of : Option (ℕ × String) → Option String
mac_of none = none
mac_of (some (bytes, text)) = if bytes == 6 then some (to_lower text) else none

-- `NormalizeMAC`
unfoldable pub normalize_mac : (String → Option (ℕ × String)) → String → Option String
unfolding to_lower trim_space
normalize_mac parse_mac v = mac_of (parse_mac (trim_space v))
