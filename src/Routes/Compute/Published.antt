-- ===== src/Routes/Compute/Published.antt =====
-- What `compute` publishes.
use edge_route_gw.Prelude.{
  ℕ, Bool, true, false, not, ◌&&◌, ◌||◌, List, [], ◌∷◌, any, all, all_mono, any-count_if, leb, ◌≡◌,
  ◌≢◌, refl, ap, ◌∙◌, arith, Bool-cases, inl, inr,
}
use edge_route_gw.Prelude.Sorting.{SortSlice}
use edge_route_gw.Net.{Addr, v4, v6, Prefix, contains, addr_eq}
use edge_route_gw.Net.Text.{NetText}
use edge_route_gw.Model.{Mode, mode_a}
use edge_route_gw.Desired.{Snapshot}
use edge_route_gw.Routes.{Route, Result}
use edge_route_gw.Routes.Policy.{protected_prefixes, allowlist, policy, Protected}
use edge_route_gw.Routes.Policy.Safety.{
  permitted, policy-any, policy-permitted, policy-avoids_protected, validate_no_special, is_special,
}
use edge_route_gw.Routes.Policy.Endpoints.{is_known_at, guards-protected_prefixes}
use edge_route_gw.Routes.Prune.{prune}
use edge_route_gw.Routes.Prune.Coverage.{prune-all, count-prune}
use edge_route_gw.Routes.Compute.{Sources, Gathered, gather, result_of, compute, unless_mode_a}

unless_mode_a-all :
    (p : Route → Bool) (m : Mode) (r : Result)
    → all p r.publish ≡ true
    → all p (unless_mode_a m r).publish ≡ true
unless_mode_a-all p mode_a r h = refl
unless_mode_a-all p m r h = h

unless_mode_a-other : (m : Mode) (r : Result) → m ≢ mode_a → unless_mode_a m r ≡ r
unless_mode_a-other mode_a r h = absurd (h refl)
unless_mode_a-other m r h = refl

addr_eq-eq : (a b : Addr) → addr_eq a b ≡ true → a ≡ b
addr_eq-eq (v4 a) (v4 b) h = ground arith
addr_eq-eq (v6 a) (v6 b) h = ground arith
addr_eq-eq (v4 a) (v6 b) h = cc
addr_eq-eq (v6 a) (v4 b) h = cc

-- An address that no protected prefix may contain is not in a prefix that contains none of them.
not-contains :
    (a : ℕ) (p : Prefix) (qs : List Prefix)
    → any (λ q. addr_eq q.addr (v4 a)) qs ≡ true
    → all (λ q. not (contains p q.addr)) qs ≡ true
    → contains p (v4 a) ≡ false
not-contains a p [] h k = cc
not-contains a p (q ∷ qs) h k = elim (Bool-cases (addr_eq q.addr (v4 a))) [
  | inl same ↦ rw (← addr_eq-eq q.addr (v4 a) same) (ground arith)
  | inr other ↦ not-contains a p qs (ground arith) (ground arith)
]

any_of_all-not :
    {A : Type 0} (p : A → Bool) (xs : List A) → all (λ x. not (p x)) xs ≡ true → any p xs ≡ false
any_of_all-not p [] h = refl
any_of_all-not p (x ∷ xs) h = ground (arith, any_of_all-not p xs)

module _ (net : NetText) (sorting : SortSlice Route) (s : Snapshot) (src : Sources) where
  abbrev guarded : Protected
  guarded = protected_prefixes net s

  abbrev allowed : List Prefix
  allowed = allowlist net s.network.ospf_publish_allow

  result_of-permitted :
      (g : Gathered)
      → all (λ r. permitted net guarded allowed r.prefix) (result_of net sorting s g).publish ≡ true
  unfolding result_of
  result_of-permitted g =
      prune-all sorting (λ r. permitted net guarded allowed r.prefix) _
        (policy-permitted net guarded allowed g.cands)

  -- Every published route is permitted.
  compute-permitted :
      all (λ r. permitted net guarded allowed r.prefix) (compute net sorting s src).publish ≡ true
  unfolding compute
  compute-permitted = unless_mode_a-all _ s.network.mode _ (result_of-permitted (gather net s src))

  -- No published route contains the address of a node or of a managed host, given as text or
  -- found in the resolve cache under the lower-case text of the host: traffic to it never comes back
  -- to the gateway.
  pub publish-avoids_endpoints :
      (a : ℕ)
      → (any (λ n. is_known_at net s.resolved a n.address) s.nodes
          || any (is_known_at net s.resolved a) s.protected_hosts)
        ≡ true
      → any (λ r. contains r.prefix (v4 a)) (compute net sorting s src).publish ≡ false
  publish-avoids_endpoints a h =
      any_of_all-not (λ r. contains r.prefix (v4 a)) (compute net sorting s src).publish
        (all_mono (λ r. permitted net guarded allowed r.prefix)
          (λ r. not (contains r.prefix (v4 a))) _
          (λ r e. ap not (
            not-contains a r.prefix guarded.prefixes (guards-protected_prefixes net a s ∙ h)
              (policy-avoids_protected net guarded allowed r.prefix e)))
          compute-permitted)

  special_refused :
      (x : ℕ) (p : Prefix)
      → is_special x ≡ true
      → permitted net guarded allowed p ≡ true
      → not (leb 16 p.bits && contains p (v4 x)) ≡ true
  special_refused x p h e = ground (arith, validate_no_special p x)

  -- No published route of at least 16 bits contains an address of special use: private, loopback,
  -- link-local, CGNAT, "this network", multicast or reserved.
  pub publish-avoids_special :
      (x : ℕ)
      → is_special x ≡ true
      → any
          (λ r. leb 16 r.prefix.bits && contains r.prefix (v4 x))
          (compute net sorting s src).publish
        ≡ false
  publish-avoids_special x h = any_of_all-not _ (compute net sorting s src).publish (
      all_mono (λ r. permitted net guarded allowed r.prefix)
        (λ r. not (leb 16 r.prefix.bits && contains r.prefix (v4 x))) _
        (λ r. special_refused x r.prefix h) compute-permitted)

  any_of_count :
      (x : Addr) (rs : List Route)
      → any (λ r. contains r.prefix x) (prune sorting rs) ≡ any (λ r. contains r.prefix x) rs
  any_of_count x rs =
      ground (
        arith,
        count-prune sorting rs x,
        any-count_if (λ r. contains r.prefix x) (prune sorting rs),
      )

  result_of-any :
      (x : Addr) (g : Gathered)
      → any (λ r. contains r.prefix x) (result_of net sorting s g).publish
        ≡ any (λ r. permitted net guarded allowed r.prefix && contains r.prefix x) g.cands
  unfolding result_of
  result_of-any x g =
      any_of_count x (policy net guarded allowed g.cands).0
      ∙ policy-any net guarded allowed (λ p. contains p x) g.cands

  compute-result_of :
      s.network.mode ≢ mode_a
      → compute net sorting s src ≡ result_of net sorting s (gather net s src)
  unfolding compute
  compute-result_of h = unless_mode_a-other s.network.mode _ h

  -- Outside Mode A, the published routes announce just the addresses of the permitted candidates.
  pub publish-announces :
      (x : Addr)
      → s.network.mode ≢ mode_a
      → any (λ r. contains r.prefix x) (compute net sorting s src).publish
        ≡ any
            (λ r. permitted net guarded allowed r.prefix && contains r.prefix x)
            (gather net s src).cands
  publish-announces x h = rw (compute-result_of h) (result_of-any x (gather net s src))
