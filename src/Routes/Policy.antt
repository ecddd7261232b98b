-- ===== src/Routes/Policy.antt =====
-- The policy of engine.go: which candidates may be published.
pub mod Safety
pub mod Endpoints
use edge_route_gw.Prelude.{
  is_nil, ℕ, String, Bool, true, false, not, ◌&&◌, ◌||◌, ◌/◌, List, [], ◌∷◌, ◌++◌, Option, none,
  some, any, leb, ◌==◌, str_eq, if◌then◌else◌,
}
use Prim.Native.String
use edge_route_gw.Text.{to_lower}
pub use edge_route_gw.Text.{concat}
use edge_route_gw.Net.{
  Addr, v4, v6, Prefix, is4, value, byte0, byte1, is_unspecified, is_loopback,
  is_link_local_unicast, contains, masked, host_route, prefix_eq,
}
use edge_route_gw.Net.Text.{NetText}
use edge_route_gw.Model.{Node}
use edge_route_gw.Desired.{Snapshot, ResolvedEntry}
use edge_route_gw.Routes.{Route, State, pending, failed, protected}

pub data Refusal : Type 0 where
  not_ipv4 default_route unspecified_address loopback link_local multicast_or_reserved : Refusal
  private_or_reserved_space private_space cgnat_space : Refusal

-- the text of the error
abbrev pub message : Refusal → String
message not_ipv4 = "not IPv4"
message default_route = "default route"
message unspecified_address = "unspecified address"
message loopback = "loopback"
message link_local = "link-local"
message multicast_or_reserved = "multicast or reserved"
message private_or_reserved_space = "private or reserved address space"
message private_space = "private address space"
message cgnat_space = "CGNAT address space"

-- the `switch` on the first two bytes
unfoldable pub refuse_space : ℕ → ℕ → Option Refusal
refuse_space b0 b1 =
    if b0 == 10 || b0 == 0
    then some private_or_reserved_space
    else if b0 == 172 && (leb 16 b1 && leb b1 31)
    then some private_space
    else if b0 == 192 && b1 == 168
    then some private_space
    else if b0 == 100 && (leb 64 b1 && leb b1 127)
    then some cgnat_space
    else none

-- `validate`; `none` is no error
unfoldable pub validate : Prefix → Option Refusal
unfolding refuse_space
validate p =
    if not (is4 p.addr)
    then some not_ipv4
    else if p.bits == 0
    then some default_route
    else if is_unspecified p.addr
    then some unspecified_address
    else if is_loopback p.addr
    then some loopback
    else if is_link_local_unicast p.addr
    then some link_local
    else if leb 224 (byte0 (value p.addr))
    then some multicast_or_reserved
    else refuse_space (byte0 (value p.addr)) (byte1 (value p.addr))

-- The protected prefixes, in the order of discovery, and the map of their names.
pub record Protected : Type 0 where
  pub prefixes : List Prefix
  pub names : List (Prefix × String)

-- `out = append(out, p); names[p] = name`: the newest name of a prefix stands first
abbrev protect : Prefix → String → Protected → Protected
protect p name g = record { prefixes = g.prefixes ++ p ∷ []; names = (p, name) ∷ g.names }

unfoldable pub name_of : List (Prefix × String) → Prefix → String
name_of [] p = ""
name_of ((q, name) ∷ names) p = if prefix_eq q p then name else name_of names p

-- a.Is4() of an address that parsed
abbrev pub ipv4 : Option Addr → Option Addr
ipv4 (some (v4 n)) = some (v4 n)
ipv4 (some (v6 n)) = none
ipv4 none = none

abbrev pub refused : Route → State → String → Route
refused r state why = record r { state = state; detail = concat r.detail (concat ": " why) }

abbrev pub sort_out : Option Route → Route → List Route × List Route → List Route × List Route
sort_out none r (ok, rejected) = (record r { state = pending } ∷ ok, rejected)
sort_out (some r') r (ok, rejected) = (ok, r' ∷ rejected)

module _ (net : NetText) where
  protect_if : Option Addr → String → Protected → Protected
  protect_if none name g = g
  protect_if (some a) name g = protect (host_route a) name g

  protect_ips : List String → String → Protected → Protected
  unfolding protect_if
  protect_ips [] name g = g
  protect_ips (ip ∷ ips) name g =
      protect_ips ips name (protect_if (ipv4 (net.parse_addr ip)) name g)

  protect_resolved : List ResolvedEntry → String → String → Protected → Protected
  unfolding protect_ips
  protect_resolved [] host name g = g
  protect_resolved (e ∷ es) host name g =
      protect_resolved es host name
        (if str_eq e.domain (to_lower host) then protect_ips e.ips name g else g)

  add_host : Option Addr → List ResolvedEntry → String → String → Protected → Protected
  unfolding protect_resolved
  add_host (some a) resolved host name g = protect (host_route a) name g
  add_host none resolved host name g = protect_resolved resolved host name g

  -- `addAddr`: a literal IPv4 address, or else the cached answers for the name
  unfoldable pub add_addr : List ResolvedEntry → String → String → Protected → Protected
  unfolding add_host
  add_addr resolved host name g = add_host (ipv4 (net.parse_addr host)) resolved host name g

  protect_nodes : List ResolvedEntry → List Node → Protected → Protected
  unfolding add_addr
  protect_nodes resolved [] g = g
  protect_nodes resolved (n ∷ ns) g =
      protect_nodes resolved ns (add_addr resolved n.address (concat "node " n.name) g)

  protect_hosts : List ResolvedEntry → List String → Protected → Protected
  unfolding add_addr
  protect_hosts resolved [] g = g
  protect_hosts resolved (h ∷ hs) g =
      protect_hosts resolved hs (add_addr resolved h (concat "host " h) g)

  -- `protectedPrefixes`
  unfoldable pub protected_prefixes : Snapshot → Protected
  unfolding protect_nodes protect_hosts
  protected_prefixes s =
      protect_hosts s.resolved s.protected_hosts
        (protect_nodes s.resolved s.nodes (record { prefixes = []; names = [] }))

  -- `coveredBy`; the text that the code returns is never empty, so that "" is `none`
  unfoldable pub covered_by : Prefix → List Prefix → List (Prefix × String) → Option String
  unfolding name_of contains
  covered_by p [] names = none
  covered_by p (q ∷ qs) names =
      if contains p q.addr
      then some (concat (name_of names q) (concat " " (net.show_addr q.addr)))
      else covered_by p qs names

  allow_of : Option Prefix → List Prefix → List Prefix
  allow_of none rest = rest
  allow_of (some p) rest = if is4 p.addr then masked p ∷ rest else rest

  -- `allowlist`
  unfoldable pub allowlist : List String → List Prefix
  unfolding allow_of masked
  allowlist [] = []
  allowlist (s ∷ ss) = allow_of (net.parse_prefix s) (allowlist ss)

  -- `inAllowlist`
  unfoldable pub in_allowlist : Prefix → List Prefix → Bool
  unfolding contains
  in_allowlist p allow = any (λ a. leb a.bits p.bits && contains a p.addr) allow

  -- The three checks of one candidate, in their order: the refused route, or `none`.
  unfoldable pub check_candidate : Protected → List Prefix → Route → Option Route
  unfolding validate covered_by in_allowlist
  check_candidate guarded allow r = elim (validate r.prefix) [
    | some why ↦ some (refused r failed (message why))
    | none ↦ elim (covered_by r.prefix guarded.prefixes guarded.names) [
      | some name ↦ some (refused r protected (concat "contains endpoint " name))
      | none ↦
          if not (is_nil allow) && not (in_allowlist r.prefix allow)
          then some (refused r failed "outside publish allowlist")
          else none
    ]
  ]

  -- The policy pass: the routes that pass, and those that are rejected.
  unfoldable pub policy : Protected → List Prefix → List Route → List Route × List Route
  policy guarded allow [] = ([], [])
  policy guarded allow (r ∷ rs) =
      sort_out (check_candidate guarded allow r) r (policy guarded allow rs)
