-- ===== src/Tests/Routing.antt =====
-- The route engine on the sample.
use edge_route_gw.Prelude.{
  length, true, false, ◌||◌, ◌&&◌, List, [], ◌∷◌, none, some, any, map, leb, count_if,
  if◌then◌else◌, ◌≡◌, refl,
}
use edge_route_gw.Prelude.Sorting.{insertion, insertion_sort}
use edge_route_gw.Net.{v4, contains}
use edge_route_gw.Model.{mode_b, mode_c}
use edge_route_gw.Desired.{Snapshot, active_rules}
use edge_route_gw.Text.{to_lower, trim_dot, trim_space, has_char, cut_prefix, split}
use edge_route_gw.Rulespec.Domain.{parse_domain}
use edge_route_gw.Routes.{Route, pending}
use edge_route_gw.Routes.Policy.{validate, policy, check_candidate, protected_prefixes, allowlist}
use edge_route_gw.Routes.Policy.Safety.{permitted, is_special}
use edge_route_gw.Routes.Prune.{prune}
use edge_route_gw.Routes.Prune.Coverage.{count-prune}
use edge_route_gw.Routes.Compute.{gather, compute}
use edge_route_gw.Routes.Compute.Published.{
  publish-avoids_endpoints, publish-avoids_special, publish-announces,
}
use edge_route_gw.Routes.Compute.Meaning.{in_pool, asks, offers-gather}
use edge_route_gw.Routes.Compute.Candidates.{offers}
use edge_route_gw.Routes.Rows.{to_published}
use edge_route_gw.Reconcile.Pass.{marked_rows}
use edge_route_gw.Reconcile.Pass.Claims.{is_published, claimed, count-marked_rows}
use edge_route_gw.Tests.Sample.{ip, cidr, sample_net, sample, no_geodata}

-- A line that opens what the engine computes with.
engine : Unit {0}
unfolding compute prune policy check_candidate validate insertion_sort parse_domain to_lower
    trim_dot trim_space has_char cut_prefix split
engine = tt

abbrev steered : Snapshot
steered = sample mode_c

-- Of the candidates, those that hold the two nodes and the private one are rejected.
published :
    map (λ r. r.prefix) (compute sample_net insertion steered no_geodata).publish
    ≡ cidr (ip 192 0 2 1) 32 ∷ []
unfolding engine
published = refl

-- A supernet of private space whose own address is public passes `validate`, and holds private
-- addresses.
supernet_accepted :
    (validate (cidr (ip 8 0 0 0) 5) ≡ none)
    × (contains (cidr (ip 8 0 0 0) 5) (v4 (ip 10 0 0 1)) ≡ true)
    × (is_special (ip 10 0 0 1) ≡ true)
unfolding engine contains
supernet_accepted = (refl, refl, refl)

publish-avoids_endpoints_example :
    any
      (λ r. contains r.prefix (v4 (ip 198 51 100 9)))
      (compute sample_net insertion steered no_geodata).publish
    ≡ false
unfolding engine
publish-avoids_endpoints_example =
    publish-avoids_endpoints sample_net insertion steered no_geodata (ip 198 51 100 9) refl

publish-avoids_special_example :
    any
      (λ r. leb 16 r.prefix.bits && contains r.prefix (v4 (ip 10 1 2 3)))
      (compute sample_net insertion steered no_geodata).publish
    ≡ false
publish-avoids_special_example =
    publish-avoids_special sample_net insertion steered no_geodata (ip 10 1 2 3) refl

publish-announces_example :
    any
      (λ r. contains r.prefix (v4 (ip 192 0 2 1)))
      (compute sample_net insertion steered no_geodata).publish
    ≡ any
        (λ r.
          permitted sample_net
            (protected_prefixes sample_net steered)
            (allowlist sample_net steered.network.ospf_publish_allow)
            r.prefix
          && contains r.prefix (v4 (ip 192 0 2 1)))
        (gather sample_net steered no_geodata).cands
publish-announces_example =
    publish-announces sample_net insertion steered no_geodata (v4 (ip 192 0 2 1)) (λ e. cc)

offers-gather_example :
    offers (v4 (ip 198 18 3 4)) (gather sample_net (sample mode_b) no_geodata) ≡ (
      in_pool sample_net (v4 (ip 198 18 3 4)) mode_b (some (cidr (ip 198 18 0 0) 16))
      || any
          (asks sample_net (v4 (ip 198 18 3 4)) (sample mode_b) no_geodata)
          (active_rules (sample mode_b)))
offers-gather_example = offers-gather sample_net (v4 (ip 198 18 3 4)) (sample mode_b) no_geodata

abbrev two_candidates : List Route
two_candidates =
    record {
      prefix = cidr (ip 10 0 0 0) 8;
      source = "rule";
      rule_id = "a";
      state = pending;
      detail = "";
    }
    ∷ record {
      prefix = cidr (ip 9 9 0 0) 16;
      source = "rule";
      rule_id = "b";
      state = pending;
      detail = "";
    }
    ∷ []

count-prune_example :
    count_if (λ r. contains r.prefix (v4 (ip 9 9 1 1))) (prune insertion two_candidates)
    ≡ (if any (λ r. contains r.prefix (v4 (ip 9 9 1 1))) two_candidates then 1 else 0)
count-prune_example = count-prune insertion two_candidates (v4 (ip 9 9 1 1))

count-marked_rows_example :
    count_if
      (λ q. is_published q.state)
      (marked_rows true (to_published sample_net (compute sample_net insertion steered no_geodata)))
    ≡ claimed true (length (compute sample_net insertion steered no_geodata).publish)
count-marked_rows_example = count-marked_rows sample_net insertion steered no_geodata true
