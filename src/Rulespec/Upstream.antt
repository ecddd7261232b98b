-- ===== src/Rulespec/Upstream.antt =====
-- `NormalizeUpstream`, `UpstreamHost` and `IsPublicAddr` of internal/rulespec/values.go. net.SplitHostPort
-- is a parameter: the host, or `none` for an error.
use Prim.Native.Char.{code}
use edge_route_gw.Prelude.{
  ℕ, String, Bool, true, not, ◌&&◌, ◌||◌, Option, none, some, leb, ◌==◌, if◌then◌else◌,
}
use edge_route_gw.Text.{trim_space, cut, cut_prefix, is_empty}
use edge_route_gw.Net.{
  Addr, is_private, is_loopback, is_link_local_unicast, is_link_local_multicast, is_multicast,
  is_unspecified,
}
use edge_route_gw.Net.Text.{NetText}
use edge_route_gw.Rulespec.Domain.{is_alnum}

-- a letter, a digit, or one of . : / - [ ] _
abbrev pub is_upstream_char : ℕ → Bool
is_upstream_char c =
    is_alnum c
    || ((leb b'A' c && leb c b'Z')
        || (c == b'.'
            || (c == b':'
                || (c == b'/' || (c == b'-' || (c == b'[' || (c == b']' || c == b'_')))))))

unfoldable pub all_upstream_chars : String → Bool
all_upstream_chars String.[] = true
all_upstream_chars (String.◌∷◌ c s) = is_upstream_char (code c) && all_upstream_chars s

-- `none` is the error
unfoldable pub normalize_upstream : String → Option String
unfolding all_upstream_chars trim_space
normalize_upstream v =
    let s = trim_space v in
    if is_empty s then none else if all_upstream_chars s then some s else none

abbrev pub after_or : Option (String × String) → String → String
after_or none s = s
after_or (some (before, after)) s = after

abbrev pub before_or : Option (String × String) → String → String
before_or none s = s
before_or (some (before, after)) s = before

-- the host in brackets, if there is one
abbrev in_brackets : Option String → Option String
in_brackets none = none
in_brackets (some rest) = elim (cut "]" rest) [ none ↦ none | some p ↦ some p.0 ]

abbrev host_or : Option String → Option String → String → String
host_or (some host) split s = host
host_or none (some host) s = host
host_or none none s = s

unfoldable pub upstream_host : (String → Option String) → String → String
unfolding cut
upstream_host split_host_port up =
    let rest = after_or (cut "://" up) up in
    let s = before_or (cut "/" rest) rest in
    host_or (in_brackets (cut_prefix "[" s)) (split_host_port s) s

abbrev pub is_public : Option Addr → Bool
is_public none = true
is_public (some a) = not (
    is_private a
    || (is_loopback a
        || (is_link_local_unicast a
            || (is_link_local_multicast a || (is_multicast a || is_unspecified a)))))

unfoldable pub is_public_addr : NetText → String → Bool
is_public_addr net host = is_public (net.parse_addr host)
