-- ===== src/Routes/Policy/Endpoints.antt =====
-- Which addresses are protected: those of the nodes and of the managed hosts.
use edge_route_gw.Prelude.{
  ℕ, String, Bool, false, ◌&&◌, ◌||◌, List, [], ◌∷◌, Option, none, some, any, str_eq, if◌then◌else◌,
  ◌≡◌, ap, ◌∙◌, arith, any-append,
}
use edge_route_gw.Text.{to_lower}
use edge_route_gw.Net.{Addr, v4, Prefix, addr_eq, host_route}
use edge_route_gw.Net.Text.{NetText}
use edge_route_gw.Model.{Node}
use edge_route_gw.Desired.{Snapshot, ResolvedEntry}
use edge_route_gw.Routes.Policy.{
  Protected, ipv4, concat, protect, protect_if, protect_ips, protect_resolved, add_host, add_addr,
  protect_nodes, protect_hosts, protected_prefixes,
}

-- The address is that of a protected prefix.
abbrev pub guards : ℕ → Protected → Bool
guards a g = any (λ q. addr_eq q.addr (v4 a)) g.prefixes

abbrev pub has_addr : ℕ → Option Addr → Bool
has_addr a none = false
has_addr a (some b) = addr_eq b (v4 a)

abbrev literal_or : Option Addr → ℕ → Bool → Bool
literal_or (some b) a found = addr_eq b (v4 a)
literal_or none a found = found

module _ (net : NetText) where
  abbrev pub among_ips : ℕ → List String → Bool
  among_ips a ips = any (λ ip. has_addr a (ipv4 (net.parse_addr ip))) ips

  abbrev pub among_resolved : ℕ → String → List ResolvedEntry → Bool
  among_resolved a host es = any (λ e. str_eq e.domain (to_lower host) && among_ips a e.ips) es

  -- The host is the address in text, or a row of the resolve cache whose domain is the lower-case text
  -- of the host has the address.
  abbrev pub is_known_at : List ResolvedEntry → ℕ → String → Bool
  is_known_at resolved a host =
      literal_or (ipv4 (net.parse_addr host)) a (among_resolved a host resolved)

  module _ (a : ℕ) where
    guards-protect :
        (p : Prefix) (name : String) (g : Protected)
        → guards a (protect p name g) ≡ (guards a g || addr_eq p.addr (v4 a))
    guards-protect p name g =
        ground (arith, any-append (λ q. addr_eq q.addr (v4 a)) g.prefixes (p ∷ []))

    guards-protect_if :
        (o : Option Addr) (name : String) (g : Protected)
        → guards a (protect_if net o name g) ≡ (guards a g || has_addr a o)
    unfolding protect_if
    guards-protect_if none name g = ground arith
    guards-protect_if (some b) name g = guards-protect (host_route b) name g

    guards-protect_ips :
        (ips : List String) (name : String) (g : Protected)
        → guards a (protect_ips net ips name g) ≡ (guards a g || among_ips a ips)
    unfolding protect_ips
    guards-protect_ips [] name g = ground arith
    guards-protect_ips (ip ∷ ips) name g =
        let o = ipv4 (net.parse_addr ip) in
        guards-protect_ips ips name (protect_if net o name g)
        ∙ ground (arith, guards-protect_if o name g)

    guards-protect_resolved :
        (es : List ResolvedEntry) (host name : String) (g : Protected)
        → guards a (protect_resolved net es host name g) ≡ (guards a g || among_resolved a host es)
    unfolding protect_resolved
    guards-protect_resolved [] host name g = ground arith
    guards-protect_resolved (e ∷ es) host name g =
        guards-protect_resolved es host name
          (if str_eq e.domain (to_lower host) then protect_ips net e.ips name g else g)
        ∙ ground (arith, guards-protect_ips e.ips name g)

    guards-add_host :
        (o : Option Addr) (resolved : List ResolvedEntry) (host name : String) (g : Protected)
        → guards a (add_host net o resolved host name g)
          ≡ (guards a g || literal_or o a (among_resolved a host resolved))
    unfolding add_host
    guards-add_host (some b) resolved host name g = guards-protect (host_route b) name g
    guards-add_host none resolved host name g = guards-protect_resolved resolved host name g

    guards-add_addr :
        (resolved : List ResolvedEntry) (host name : String) (g : Protected)
        → guards a (add_addr net resolved host name g) ≡ (guards a g || is_known_at resolved a host)
    unfolding add_addr
    guards-add_addr resolved host name g =
        guards-add_host (ipv4 (net.parse_addr host)) resolved host name g

    guards-protect_nodes :
        (resolved : List ResolvedEntry) (ns : List Node) (g : Protected)
        → guards a (protect_nodes net resolved ns g)
          ≡ (guards a g || any (λ n. is_known_at resolved a n.address) ns)
    unfolding protect_nodes
    guards-protect_nodes resolved [] g = ground arith
    guards-protect_nodes resolved (n ∷ ns) g =
        guards-protect_nodes resolved ns (add_addr net resolved n.address (concat "node " n.name) g)
        ∙ ground (arith, guards-add_addr resolved n.address (concat "node " n.name) g)

    guards-protect_hosts :
        (resolved : List ResolvedEntry) (hs : List String) (g : Protected)
        → guards a (protect_hosts net resolved hs g)
          ≡ (guards a g || any (is_known_at resolved a) hs)
    unfolding protect_hosts
    guards-protect_hosts resolved [] g = ground arith
    guards-protect_hosts resolved (h ∷ hs) g =
        guards-protect_hosts resolved hs (add_addr net resolved h (concat "host " h) g)
        ∙ ground (arith, guards-add_addr resolved h (concat "host " h) g)

    -- An address is protected exactly if a node or a managed host is known at it.
    pub guards-protected_prefixes :
        (s : Snapshot)
        → guards a (protected_prefixes net s) ≡ (
            any (λ n. is_known_at s.resolved a n.address) s.nodes
            || any (is_known_at s.resolved a) s.protected_hosts)
    unfolding protected_prefixes
    guards-protected_prefixes s =
        guards-protect_hosts s.resolved s.protected_hosts _
        ∙ ap (λ b. b || any (is_known_at s.resolved a) s.protected_hosts)
            (guards-protect_nodes s.resolved s.nodes _)
