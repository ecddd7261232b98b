-- ===== src/Trace/Agreement.antt =====
-- The trace against the routing rules that `renderXray` builds: `Run` of internal/trace/trace.go and
-- the rules of internal/render/xray.go. How Xray tests a rule object is a parameter.
use edge_route_gw.Prelude.{
  ℕ, suc, String, Bool, true, false, List, [], ◌∷◌, ◌++◌, Option, none, some, ◌≡◌, refl, ◌∙◌, arith,
  all, keep, is_some, is_none, inl, inr, Bool-cases, if◌then◌else◌,
}
use edge_route_gw.Net.{Addr}
use edge_route_gw.Model.{Node, Rule}
use edge_route_gw.Desired.{Snapshot, enabled_nodes, active_rules}
use edge_route_gw.Render.{
  to_outbound, tag_direct, rule_tag, Target, tag_of, XrayRule, bare_rule, Rendering,
}
use edge_route_gw.Render.Targets.{resolve_action, catch_all}
use edge_route_gw.Render.Rules.{
  RenderDeps, Condition, on_domain, on_ip, skipped, unknown_kind, condition_of, conditioned,
  live_tags, with_condition, xray_rule, user_rules, cons_rule, upstream_rules, system_rules,
  catch_rule, rules_with, xray_rules, no_rendering,
}
use edge_route_gw.Trace.{
  Sources, Note, hit, add_note, walk, conclude, without_rule, resolve, run_at,
}
use edge_route_gw.Trace.Outbounds.{HasUniqueIds, node_tags, resolve-tag, without_rule-tag}
use edge_route_gw.Trace.Inbound.{system_rules-inbound, upstream_rules-inbound}

-- The target of the first rule that is met.
unfoldable pub first_met : (XrayRule → Bool) → List XrayRule → Option String
first_met met [] = none
first_met met (x ∷ xs) =
    let rest = first_met met xs in if met x then some (tag_of x.target) else rest

abbrev pub is_met : (XrayRule → Bool) → Option XrayRule → Bool
is_met met none = false
is_met met (some x) = met x

first_met_skip :
    (met : XrayRule → Bool) (pre xs : List XrayRule)
    → ((x : XrayRule) → is_some x.inbound ≡ true → met x ≡ false)
    → all (λ x. is_some x.inbound) pre ≡ true
    → first_met met (pre ++ xs) ≡ first_met met xs
unfolding first_met
first_met_skip met [] xs h k = refl
first_met_skip met (x ∷ pre) xs h k = ground (arith, h x, first_met_skip met pre xs h)

module _ (deps : RenderDeps) (src : Sources) (regex_matches : String → String → Bool)
    (met : XrayRule → Bool) (s : Snapshot) (host : String) (ip : Option Addr) where
  -- The object that is rendered for the rule is met just if the trace says that the rule is hit,
  -- and a rule that is left out is not hit.
  abbrev pub IsMetAsHit : Rule → Type 0
  IsMetAsHit rule =
      (target : Target)
      → is_met met (
          conditioned (condition_of deps.net deps.quote_meta rule.match_kind rule.match_value)
            (bare_rule (rule_tag rule.id) target))
        ≡ (hit deps.net regex_matches src rule host ip).0

  abbrev pub AllMetAsHit : List Rule → Type 0
  AllMetAsHit [] = Unit
  AllMetAsHit (rule ∷ rules) = IsMetAsHit rule × AllMetAsHit rules

  module _ (unique : HasUniqueIds s.nodes) where
    -- The outbound that the trace names once the rules up to here have been passed over.
    abbrev traced : List Rule → ℕ → List Note → String
    traced rules count notes =
        (conclude s host (is_some ip)
          (walk deps.net regex_matches src rules host ip count notes)).sent.outbound

    -- The first rule decides if it is met, and else is as good as absent.
    with_condition-first_met :
        (c : Condition) (rule : Rule) (r r' : Rendering) (xs rest : List XrayRule) (yes' : Bool)
        → ((t : Target) → is_met met (conditioned c (bare_rule (rule_tag rule.id) t)) ≡ yes')
        → first_met met (
            (cons_rule s
              (node_tags s)
              deps.strategy_of
              deps.net
              deps.quote_meta
              (with_condition s (node_tags s) deps.strategy_of c rule r).0
              (xs, r')).0
            ++ rest)
          ≡ (if yes' then some (resolve s rule).outbound else first_met met (xs ++ rest))
    unfolding first_met
    with_condition-first_met (on_domain d) rule r r' xs rest yes' h =
        let target = (resolve_action s (node_tags s) deps.strategy_of rule r).0 in
        rw (← h target, resolve-tag s unique deps.strategy_of rule r)
    with_condition-first_met (on_ip ips) rule r r' xs rest yes' h =
        let target = (resolve_action s (node_tags s) deps.strategy_of rule r).0 in
        rw (← h target, resolve-tag s unique deps.strategy_of rule r)
    with_condition-first_met skipped rule r r' xs rest yes' h = rw (← h (to_outbound tag_direct))
    with_condition-first_met unknown_kind rule r r' xs rest yes' h =
        rw (← h (to_outbound tag_direct))

    conclude_if :
        (b : Bool) (rule : Rule) (count : ℕ) (notes : List Note) (p : Option Rule × ℕ × List Note)
        → (conclude s host (is_some ip) (if b then (some rule, count, notes) else p)).sent.outbound
          ≡ (if b
              then (resolve s rule).outbound
              else (conclude s host (is_some ip) p).sent.outbound)
    conclude_if true rule count notes p = refl
    conclude_if false rule count notes p = refl

    traced_cons :
        (rule : Rule) (rules : List Rule) (count : ℕ) (notes : List Note)
        → traced (rule ∷ rules) count notes ≡ (
            if (hit deps.net regex_matches src rule host ip).0
            then (resolve s rule).outbound
            else traced rules
                (suc count)
                (add_note (hit deps.net regex_matches src rule host ip).1 notes))
    unfolding walk
    traced_cons rule rules count notes =
        conclude_if (hit deps.net regex_matches src rule host ip).0 rule (suc count) _ (
          walk deps.net regex_matches src rules host ip (suc count)
            (add_note (hit deps.net regex_matches src rule host ip).1 notes))

    traced_nil : (count : ℕ) (notes : List Note) → traced [] count notes ≡ (without_rule s).outbound
    unfolding walk
    traced_nil count notes = refl

    abbrev rendered : List Rule → Rendering → List XrayRule × Rendering
    rendered rules r = user_rules s (node_tags s) deps.strategy_of deps.net deps.quote_meta rules r

    abbrev after_rule : Rule → Rendering → Rendering
    after_rule rule r =
        (xray_rule s (node_tags s) deps.strategy_of deps.net deps.quote_meta rule r).1

    user_rules-first_met :
        (rules : List Rule) (r : Rendering) (count : ℕ) (notes : List Note) (rest : List XrayRule)
        → AllMetAsHit rules
        → first_met met rest ≡ some (without_rule s).outbound
        → first_met met ((rendered rules r).0 ++ rest) ≡ some (traced rules count notes)
    unfolding user_rules xray_rule
    user_rules-first_met [] r count notes rest h last = rw traced_nil last
    user_rules-first_met (rule ∷ rules) r count notes rest h last =
        elim (Bool-cases (hit deps.net regex_matches src rule host ip).0) [
          | inl yes' ↦ rw (
            with_condition-first_met
                (condition_of deps.net deps.quote_meta rule.match_kind rule.match_value) rule r
                (rendered rules (after_rule rule r)).1 (rendered rules (after_rule rule r)).0 rest
                (hit deps.net regex_matches src rule host ip).0 h.0,
            traced_cons rule rules count notes,
            yes',
          )
          | inr no' ↦
              rw
                (
                  with_condition-first_met
                      (condition_of deps.net deps.quote_meta rule.match_kind rule.match_value) rule
                      r (rendered rules (after_rule rule r)).1
                      (rendered rules (after_rule rule r)).0 rest
                      (hit deps.net regex_matches src rule host ip).0 h.0,
                  traced_cons rule rules count notes,
                  no',
                )
                (user_rules-first_met rules _ (suc count) _ rest h.1 last)
        ]

keep-all : {A : Type 0} (p : A → Bool) (xs : List A) → all p xs ≡ true → keep p xs ≡ xs
keep-all p [] h = refl
keep-all p (x ∷ xs) h = ground (arith, keep-all p xs)

live_tags-all :
    (build : Node → Option String) (s : Snapshot)
    → all (λ n. is_none (build n)) (enabled_nodes s) ≡ true
    → live_tags build s ≡ node_tags s
unfolding live_tags
live_tags-all build s h = rw (keep-all (λ n. is_none (build n)) (enabled_nodes s) h)

catch_rule-first_met :
    (met : XrayRule → Bool) (target : Target) (w : String)
    → met (catch_rule target) ≡ true
    → tag_of target ≡ w
    → first_met met (catch_rule target ∷ []) ≡ some w
unfolding first_met
catch_rule-first_met met target w h e = rw (h, e)

rules_with-first_met :
    (deps : RenderDeps) (upstreams : List String) (src : Sources)
    (regex_matches : String → String → Bool) (met : XrayRule → Bool) (s : Snapshot) (host : String)
    (ip : Option Addr)
    → HasUniqueIds s.nodes
    → ((x : XrayRule) → is_some x.inbound ≡ true → met x ≡ false)
    → ((target : Target) → met (catch_rule target) ≡ true)
    → AllMetAsHit deps src regex_matches met s host ip (active_rules s)
    → first_met met (rules_with deps upstreams s (node_tags s)).0
      ≡ some (run_at deps.net regex_matches src s host ip).sent.outbound
unfolding rules_with
rules_with-first_met deps upstreams src regex_matches met s host ip unique inbound last hits =
    let live = node_tags s in
    let none' = no_rendering deps upstreams s in
    let ups =
      upstream_rules s live deps.strategy_of deps.net deps.split_host_port deps.show_nat upstreams 0
        none' in
    let users =
      user_rules s live deps.strategy_of deps.net deps.quote_meta (active_rules s) ups.1 in
    first_met_skip met (system_rules deps upstreams s) _ inbound
      (system_rules-inbound deps upstreams s)
    ∙ (first_met_skip met ups.0 _ inbound (upstream_rules-inbound deps s live upstreams 0 none')
        ∙ user_rules-first_met deps src regex_matches met s host ip unique (active_rules s) ups.1 0
            [] _ hits
            (catch_rule-first_met met (catch_all s live users.1).0 _ (last _)
              (without_rule-tag s users.1)))

-- If the nodes have distinct ids and the outbounds of all enabled nodes are built, if Xray meets the
-- rule objects of the active rules just where the trace says that the rules are hit, never meets a
-- rule that asks for another inbound and always meets the last rule, then the first rule that
-- Xray meets sends the traffic to the outbound that the trace names.
pub run-first_met :
    (deps : RenderDeps) (upstreams : List String) (src : Sources)
    (regex_matches : String → String → Bool) (met : XrayRule → Bool) (s : Snapshot) (host : String)
    (ip : Option Addr)
    → HasUniqueIds s.nodes
    → all (λ n. is_none (deps.build n)) (enabled_nodes s) ≡ true
    → ((x : XrayRule) → is_some x.inbound ≡ true → met x ≡ false)
    → ((target : Target) → met (catch_rule target) ≡ true)
    → AllMetAsHit deps src regex_matches met s host ip (active_rules s)
    → first_met met (xray_rules deps upstreams s).0
      ≡ some (run_at deps.net regex_matches src s host ip).sent.outbound
unfolding xray_rules
run-first_met deps upstreams src regex_matches met s host ip unique built inbound last hits =
    rw (live_tags-all deps.build s built)
      (rules_with-first_met deps upstreams src regex_matches met s host ip unique inbound last hits)
