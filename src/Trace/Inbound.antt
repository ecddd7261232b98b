-- ===== src/Trace/Inbound.antt =====
-- Which routing rules of internal/render/xray.go are for the gateway's own traffic: they test the
-- inbound that it enters by.
use edge_route_gw.Prelude.{
  ℕ, zero, suc, String, true, List, [], ◌∷◌, Option, none, some, ◌≡◌, refl, arith, all, all-append,
  is_some,
}
use edge_route_gw.Model.{Mode, mode_a, mode_b, mode_c, other_mode}
use edge_route_gw.Desired.{Snapshot}
use edge_route_gw.Render.{XrayRule, Rendering}
use edge_route_gw.Render.Targets.{default_target}
use edge_route_gw.Render.Probes.{slot_rules, id_at, probe_rules_from, probe_slots, probe_slot_count}
use edge_route_gw.Render.Rules.{
  RenderDeps, upstream_rules, cons_upstream, upstream_target, system_rules, dns_rules,
}
use edge_route_gw.Rulespec.Upstream.{normalize_upstream}

slot_rules-inbound :
    (show_nat : ℕ → String) (o : Option String) (slot : ℕ) (rest : List XrayRule)
    → all (λ x. is_some x.inbound) rest ≡ true
    → all (λ x. is_some x.inbound) (slot_rules show_nat o slot rest) ≡ true
slot_rules-inbound show_nat none slot rest h = h
slot_rules-inbound show_nat (some id) slot rest h = ground arith

probe_rules_from-inbound :
    (show_nat : ℕ → String) (left slot : ℕ) (slots : List (String × ℕ))
    → all (λ x. is_some x.inbound) (probe_rules_from show_nat left slot slots) ≡ true
unfolding probe_rules_from
probe_rules_from-inbound show_nat zero slot slots = refl
probe_rules_from-inbound show_nat (suc left) slot slots =
    slot_rules-inbound show_nat (id_at slot slots) slot _
      (probe_rules_from-inbound show_nat left (suc slot) slots)

dns_rules-inbound : (m : Mode) → all (λ x. is_some x.inbound) (dns_rules m) ≡ true
dns_rules-inbound mode_b = refl
dns_rules-inbound mode_a = refl
dns_rules-inbound mode_c = refl
dns_rules-inbound (other_mode m) = refl

pub system_rules-inbound :
    (deps : RenderDeps) (ups : List String) (s : Snapshot)
    → all (λ x. is_some x.inbound) (system_rules deps ups s) ≡ true
system_rules-inbound deps ups s = rw (
  all-append (λ x. is_some x.inbound) (dns_rules s.network.mode) _,
  dns_rules-inbound s.network.mode,
  all-append (λ x. is_some x.inbound)
      (probe_rules_from deps.show_nat probe_slot_count 0 (probe_slots s.nodes)) _,
  probe_rules_from-inbound deps.show_nat probe_slot_count 0 (probe_slots s.nodes),
)

module _ (deps : RenderDeps) (s : Snapshot) (live : List String) where
  cons_upstream-inbound :
      (o : Option String) (i : ℕ) (r : Rendering) (rest : Rendering → List XrayRule × Rendering)
      → ((r' : Rendering) → all (λ x. is_some x.inbound) (rest r').0 ≡ true)
      → all
          (λ x. is_some x.inbound)
          (cons_upstream s live deps.strategy_of deps.net deps.split_host_port deps.show_nat o i r
            rest).0
        ≡ true
  cons_upstream-inbound none i r rest h = h r
  cons_upstream-inbound (some host) i r rest h = ground (arith, h (default_target s live r).1)

  pub upstream_rules-inbound :
      (ups : List String) (i : ℕ) (r : Rendering)
      → all
          (λ x. is_some x.inbound)
          (upstream_rules s live deps.strategy_of deps.net deps.split_host_port deps.show_nat ups i
            r).0
        ≡ true
  unfolding upstream_rules
  upstream_rules-inbound [] i r = refl
  upstream_rules-inbound (up ∷ ups) i r =
      cons_upstream-inbound
        (upstream_target s live deps.strategy_of deps.net deps.split_host_port deps.show_nat
          (normalize_upstream up))
        i r _ (upstream_rules-inbound ups (suc i))
