-- ===== src/Tests/Tracing.antt =====
-- The trace and the rendered rules on the sample.
use edge_route_gw.Prelude.{
  String, Bool, true, false, [], ◌∷◌, Option, none, some, ◌≡◌, refl, all, str_eq, is_some,
}
use edge_route_gw.Text.{
  trim_space, trim_dot, to_lower, cut_prefix, cut_suffix, has_suffix, has_char, split,
}
use edge_route_gw.Model.{OutboundGroup, load_balance, Rule, mode_c, match_domain, block, group}
use edge_route_gw.Desired.{Snapshot, active_rules}
use edge_route_gw.Rulespec.Domain.{parse_domain, matches}
use edge_route_gw.Render.{XrayRule}
use edge_route_gw.Render.Targets.{resolve_action}
use edge_route_gw.Render.Rules.{RenderDeps, condition_of, xray_rules, live_tags}
use edge_route_gw.Render.Complete.{has_target, xray_rules-has_target}
use edge_route_gw.Render.References.{is_sound}
use edge_route_gw.Trace.{Sources, hit, resolve, run_at, run}
use edge_route_gw.Trace.Matching.{IsFirst, run_at-some}
use edge_route_gw.Trace.Agreement.{first_met, run-first_met}
use edge_route_gw.Tests.Sample.{sample_net, sample, rule}

tracing : Unit {0}
unfolding run xray_rules resolve_action hit condition_of first_met parse_domain matches trim_space
    trim_dot to_lower cut_prefix cut_suffix has_suffix has_char split
tracing = tt

abbrev both : OutboundGroup
both = record {
  id = "g1";
  name = "both";
  kind = load_balance;
  member_ids = "n1" ∷ "n2" ∷ "n3" ∷ [];
  strategy = "";
}

abbrev blocked : Rule
blocked = rule "r1" match_domain "ads.example.com" block

abbrev shared : Rule
shared = record (rule "r2" match_domain "**.example.com" group) { action_ref = "g1" }

abbrev traced_sample : Snapshot
traced_sample = record (sample mode_c) { groups = both ∷ []; rules = blocked ∷ shared ∷ [] }

abbrev no_sources : Sources
no_sources = record { site = none; ip = none }

abbrev no_regex : String → String → Bool
no_regex r s = false

abbrev sample_deps : RenderDeps
sample_deps = record {
  net = sample_net;
  quote_meta = λ s. s;
  split_host_port = λ s. none;
  show_nat = λ n. "0";
  strategy_of = λ s. none;
  build = λ n. none;
}

abbrev visited : String
visited = "www.example.com"

-- A matcher that knows the one name.
abbrev meets_domain : Option String → Bool
meets_domain none = false
meets_domain (some d) = str_eq d "domain:example.com"

abbrev meets_lan : Option String → Option String → Option String → Bool
meets_lan (some i) network domain = false
meets_lan none (some n) domain = true
meets_lan none none domain = meets_domain domain

abbrev meets : XrayRule → Bool
meets x = meets_lan x.inbound x.network x.domain

meets_lan-inbound :
    (i network domain : Option String) → is_some i ≡ true → meets_lan i network domain ≡ false
meets_lan-inbound (some i) network domain h = refl
meets_lan-inbound none network domain h = absurd (cc)

meets-inbound : (x : XrayRule) → is_some x.inbound ≡ true → meets x ≡ false
meets-inbound x h = meets_lan-inbound x.inbound x.network x.domain h

run-first_met_example :
    first_met meets (xray_rules sample_deps [] traced_sample).0 ≡ some "group-g1"
unfolding tracing
run-first_met_example =
    run-first_met sample_deps [] no_sources no_regex meets traced_sample visited none
      (refl, (refl, tt)) refl meets-inbound (λ t. refl) ((λ t. refl), ((λ t. refl), tt))

run_at-some_example :
    IsFirst sample_net no_regex no_sources visited none (active_rules traced_sample) shared 2
    × ((run_at sample_net no_regex no_sources traced_sample visited none).sent
        ≡ resolve traced_sample shared)
unfolding tracing
run_at-some_example =
    run_at-some sample_net no_regex no_sources visited none traced_sample shared refl

xray_rules-has_target_example :
    (all
        (has_target traced_sample
          (live_tags sample_deps.build traced_sample)
          (xray_rules sample_deps [] traced_sample).1)
        (xray_rules sample_deps [] traced_sample).0
      ≡ true)
    × (is_sound traced_sample
          (live_tags sample_deps.build traced_sample)
          (xray_rules sample_deps [] traced_sample).1
        ≡ true)
xray_rules-has_target_example = xray_rules-has_target sample_deps [] traced_sample (λ n found. refl)
