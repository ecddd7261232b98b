-- ===== src/Routes/Preflight/Verdict.antt =====
-- When a mode switch is allowed.
use edge_route_gw.Prelude.{
  String, Bool, true, false, not, ◌&&◌, List, [], ◌∷◌, ◌++◌, Option, any, is_some, ◌≡◌, ◌≢◌, refl,
  ◌∙◌, arith,
}
use edge_route_gw.Text.{is_empty}
use edge_route_gw.Prelude.Sorting.{SortSlice}
use edge_route_gw.Net.Text.{NetText}
use edge_route_gw.Model.{Mode, mode_a, mode_b, Rule, Node}
use edge_route_gw.Desired.{Snapshot, enabled_nodes}
use edge_route_gw.Routes.{Route}
use edge_route_gw.Routes.Compute.{Sources}
use edge_route_gw.Routes.Preflight.{
  Problem, has_wildcard, wildcard_problems, no_problem, node_problem, iface_problem, pool_problem,
  all_problems, checked, preflight,
}

no_problem-append :
    (xs ys : List Problem) → no_problem (xs ++ ys) ≡ (no_problem xs && no_problem ys)
no_problem-append [] ys = refl
no_problem-append (x ∷ xs) ys = refl

abbrev pub some_node : List Node → Bool
some_node [] = false
some_node (_ ∷ _) = true

no_problem-nodes : (ns : List Node) → no_problem (node_problem ns) ≡ some_node ns
no_problem-nodes [] = refl
no_problem-nodes (n ∷ ns) = refl

no_problem-wildcards :
    (rs : List Rule)
    → no_problem (wildcard_problems rs)
      ≡ not (any (λ r. has_wildcard r.match_kind r.match_value) rs)
unfolding wildcard_problems
no_problem-wildcards [] = refl
no_problem-wildcards (r ∷ rs) = ground (arith, no_problem-wildcards rs)

abbrev pub pool_fits : Mode → Bool → Bool
pool_fits mode_b parses = parses
pool_fits _ parses = true

no_problem-pool :
    (m : Mode) (o : Option edge_route_gw.Net.Prefix) (pool : String)
    → no_problem (pool_problem m o pool) ≡ pool_fits m (is_some o)
no_problem-pool m o pool = ground arith

no_problem-iface :
    (service default : String)
    → no_problem (iface_problem service default) ≡ not (is_empty service && is_empty default)
no_problem-iface service default = ground arith

module _ (net : NetText) (sorting : SortSlice Route) (s : Snapshot) (src : Sources) where
  no_problem-all :
      (m : Mode)
      → no_problem (all_problems net sorting s src m) ≡ (
          some_node (enabled_nodes s)
          && (not (is_empty s.network.service_iface && is_empty src.default_iface)
              && (not (any (λ r. has_wildcard r.match_kind r.match_value) s.rules)
                  && pool_fits m (is_some (net.parse_prefix s.network.fakeip_pool)))))
  no_problem-all m = simp (
    no_problem-append,
    no_problem-nodes (enabled_nodes s),
    no_problem-iface s.network.service_iface src.default_iface,
    no_problem-wildcards s.rules,
    no_problem-pool m (net.parse_prefix s.network.fakeip_pool) s.network.fakeip_pool,
  )

  preflight-checked :
      (m : Mode) → m ≢ mode_a → preflight net sorting s src m ≡ checked net sorting s src m
  unfolding preflight
  preflight-checked mode_a h = absurd (h refl)
  preflight-checked m h = refl

  checked-is_ok :
      (m : Mode)
      → (checked net sorting s src m).is_ok ≡ no_problem (all_problems net sorting s src m)
  unfolding checked
  checked-is_ok m = refl

  -- A switch to a mode other than A is allowed exactly if there is an enabled node and an
  -- interface, no rule, enabled or not, is a wildcard domain, and in Mode B the pool is a prefix.
  pub preflight-is_ok :
      (m : Mode)
      → m ≢ mode_a
      → (preflight net sorting s src m).is_ok ≡ (
          some_node (enabled_nodes s)
          && (not (is_empty s.network.service_iface && is_empty src.default_iface)
              && (not (any (λ r. has_wildcard r.match_kind r.match_value) s.rules)
                  && pool_fits m (is_some (net.parse_prefix s.network.fakeip_pool)))))
  preflight-is_ok m h = rw (preflight-checked m h) (checked-is_ok m ∙ no_problem-all m)
