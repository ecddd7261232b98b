-- ===== src/Render/Complete.antt =====
-- No routing rule of internal/render/xray.go points at a balancer or an outbound that is not there.
-- The rules of the probe channel are left out: they name nodes whose outbound may not be built.
use mathlib.Core.List.{Memᴰ}
use edge_route_gw.Prelude.{
  ℕ, zero, suc, String, Bool, true, false, ◌||◌, List, [], ◌∷◌, ◌++◌, Option, none, some, ◌≡◌, refl,
  sym, ap, ◌∙◌, arith, any, all, all-append, all_mono, keep, map, is_none, str_eq, inl, inr,
  Bool-cases, eq_refl,
}
use edge_route_gw.Model.{Node, Rule, Mode, mode_a, mode_b, mode_c, other_mode}
use edge_route_gw.Desired.{Snapshot, default_node, active_rules, enabled_nodes}
use edge_route_gw.Render.{
  node_tag, Target, to_outbound, to_balancer, Rendering, XrayRule, bare_rule, rule_tag,
}
use edge_route_gw.Rulespec.Upstream.{normalize_upstream}
use edge_route_gw.Render.Probes.{slot_rules, id_at, probe_rules_from, probe_slots, probe_slot_count}
use edge_route_gw.Render.Rules.{
  RenderDeps, Condition, on_domain, on_ip, skipped, unknown_kind, condition_of, live_tags,
  with_condition, xray_rule, user_rules, cons_rule, upstream_rules, cons_upstream, upstream_target,
  upstream_rule, system_rules, dns_rules, catch_rule, rules_with, xray_rules, no_rendering,
}
use edge_route_gw.Render.Targets.{is_live, default_target, catch_all, resolve_action}
use edge_route_gw.Desired.Lookup.{default_node_sound}
use edge_route_gw.Render.References.{
  is_known, is_sound, Grows, Resolves, default_target-Resolves, catch_all-Resolves,
  resolve_action-Resolves,
}

module _ (s : Snapshot) (live : List String) where
  known_mono :
      (r r' : Rendering) (t : Target)
      → Grows s live r r'
      → is_known s live r t ≡ true
      → is_known s live r' t ≡ true
  known_mono r r' (to_outbound tag) g h = h
  known_mono r r' (to_balancer tag) g h = g tag h

  -- Every rule has a known target, and what was rendered before still stands.
  abbrev Renders : Rendering → List XrayRule × Rendering → Type 0
  Renders r out =
      (is_sound s live out.1 ≡ true)
      × Grows s live r out.1
      × (all (λ x. is_known s live out.1 x.target) out.0 ≡ true)

  Renders-cons :
      (r r1 : Rendering) (t : Target) (x : XrayRule) (out : List XrayRule × Rendering)
      → x.target ≡ t
      → Resolves s live r (t, r1)
      → Renders r1 out
      → Renders r (x ∷ out.0, out.1)
  Renders-cons r r1 t x out e (a, g, k) (b, g', ks) =
      (b, (λ tag found. g' tag (g tag found)), rw (e, known_mono r1 out.1 t g' k) ks)

  module _ (deps : RenderDeps)
      (default_live : (n : Node)
        → default_node s ≡ some n
        → is_live s live (node_tag n.id) ≡ true) where
    abbrev resolved : Rule → Rendering → Target × Rendering
    resolved rule r = resolve_action s live deps.strategy_of rule r

    xray_rule-Renders :
        (c : Condition) (rule : Rule) (r : Rendering) (tail : Rendering → List XrayRule × Rendering)
        → is_sound s live r ≡ true
        → ((r' : Rendering) → is_sound s live r' ≡ true → Renders r' (tail r'))
        → Renders r (
            cons_rule s live deps.strategy_of deps.net deps.quote_meta
              (with_condition s live deps.strategy_of c rule r).0
              (tail (with_condition s live deps.strategy_of c rule r).1))
    xray_rule-Renders skipped rule r tail h k = k _ h
    xray_rule-Renders unknown_kind rule r tail h k = k _ h
    xray_rule-Renders (on_domain d) rule r tail h k =
        let a = resolve_action-Resolves s live default_live deps.strategy_of rule r h in
        Renders-cons r (resolved rule r).1 (resolved rule r).0
          (record (bare_rule (rule_tag rule.id) (resolved rule r).0) { domain = some d })
          (tail (resolved rule r).1) refl a (k (resolved rule r).1 a.0)
    xray_rule-Renders (on_ip ips) rule r tail h k =
        let a = resolve_action-Resolves s live default_live deps.strategy_of rule r h in
        Renders-cons r (resolved rule r).1 (resolved rule r).0
          (record (bare_rule (rule_tag rule.id) (resolved rule r).0) { ip = ips })
          (tail (resolved rule r).1) refl a (k (resolved rule r).1 a.0)

    user_rules-Renders :
        (rules : List Rule) (r : Rendering)
        → is_sound s live r ≡ true
        → Renders r (user_rules s live deps.strategy_of deps.net deps.quote_meta rules r)
    unfolding user_rules xray_rule
    user_rules-Renders [] r h = (h, (λ tag found. found), refl)
    user_rules-Renders (rule ∷ rules) r h =
        xray_rule-Renders (condition_of deps.net deps.quote_meta rule.match_kind rule.match_value)
          rule r (user_rules s live deps.strategy_of deps.net deps.quote_meta rules) h
          (user_rules-Renders rules)

    upstream_rule-target :
        (i : ℕ) (host : String) (t : Target)
        → (upstream_rule s live deps.strategy_of deps.net deps.split_host_port deps.show_nat i host
            t).target
          ≡ t
    upstream_rule-target i host t = elim (Bool-cases (is_none (deps.net.parse_addr host))) [
      | inl name ↦ rw name
      | inr addr ↦ rw addr
    ]

    cons_upstream-Renders :
        (o : Option String) (i : ℕ) (r : Rendering) (rest : Rendering → List XrayRule × Rendering)
        → is_sound s live r ≡ true
        → ((r' : Rendering) → is_sound s live r' ≡ true → Renders r' (rest r'))
        → Renders r (
            cons_upstream s live deps.strategy_of deps.net deps.split_host_port deps.show_nat o i r
              rest)
    cons_upstream-Renders none i r rest h k = k r h
    cons_upstream-Renders (some host) i r rest h k =
        let (t, r1) = default_target s live r in
        let a = default_target-Resolves s live default_live r h in
        Renders-cons r r1 t
          (upstream_rule s live deps.strategy_of deps.net deps.split_host_port deps.show_nat i host
            t)
          (rest r1) (upstream_rule-target i host t) a (k r1 a.0)

    upstream_rules-Renders :
        (ups : List String) (i : ℕ) (r : Rendering)
        → is_sound s live r ≡ true
        → Renders r (
            upstream_rules s live deps.strategy_of deps.net deps.split_host_port deps.show_nat ups i
              r)
    unfolding upstream_rules
    upstream_rules-Renders [] i r h = (h, (λ tag found. found), refl)
    upstream_rules-Renders (up ∷ ups) i r h =
        cons_upstream-Renders
          (upstream_target s live deps.strategy_of deps.net deps.split_host_port deps.show_nat
            (normalize_upstream up))
          i r _ h (upstream_rules-Renders ups (suc i))

abbrev pub is_probe : XrayRule → Bool
is_probe x = elim x.inbound [ none ↦ false | some i ↦ str_eq i "probe_in" ]

-- the outbounds that `renderXray` adds for itself
abbrev pub is_own : Mode → Target → Bool
is_own mode_b (to_outbound tag) = str_eq tag "api" || str_eq tag "dns-out"
is_own m (to_outbound tag) = str_eq tag "api"
is_own m (to_balancer tag) = false

abbrev pub has_target : Snapshot → List String → Rendering → XrayRule → Bool
has_target s live r x = is_probe x || (is_own s.network.mode x.target || is_known s live r x.target)

module _ (s : Snapshot) (live : List String) (r : Rendering) where
  slot_rules-has_target :
      (show_nat : ℕ → String) (o : Option String) (slot : ℕ) (rest : List XrayRule)
      → all (has_target s live r) rest ≡ true
      → all (has_target s live r) (slot_rules show_nat o slot rest) ≡ true
  slot_rules-has_target show_nat none slot rest h = h
  slot_rules-has_target show_nat (some id) slot rest h = ground arith

  probe_rules_from-has_target :
      (show_nat : ℕ → String) (left slot : ℕ) (slots : List (String × ℕ))
      → all (has_target s live r) (probe_rules_from show_nat left slot slots) ≡ true
  unfolding probe_rules_from
  probe_rules_from-has_target show_nat zero slot slots = refl
  probe_rules_from-has_target show_nat (suc left) slot slots =
      slot_rules-has_target show_nat (id_at slot slots) slot _
        (probe_rules_from-has_target show_nat left (suc slot) slots)

  api_rule-has_target : (m : Mode) → is_own m (to_outbound "api") ≡ true
  api_rule-has_target mode_b = refl
  api_rule-has_target mode_a = refl
  api_rule-has_target mode_c = refl
  api_rule-has_target (other_mode m) = refl

  dns_rules-has_target :
      (m : Mode)
      → all (λ x. is_probe x || (is_own m x.target || is_known s live r x.target)) (dns_rules m)
        ≡ true
  dns_rules-has_target mode_b = refl
  dns_rules-has_target mode_a = refl
  dns_rules-has_target mode_c = refl
  dns_rules-has_target (other_mode m) = refl

  system_rules-has_target :
      (deps : RenderDeps) (ups : List String)
      → all (has_target s live r) (system_rules deps ups s) ≡ true
  system_rules-has_target deps ups = rw (
    api_rule-has_target s.network.mode,
    all-append (has_target s live r) (dns_rules s.network.mode) _,
    dns_rules-has_target s.network.mode,
    all-append (has_target s live r)
        (probe_rules_from deps.show_nat probe_slot_count 0 (probe_slots s.nodes)) _,
    probe_rules_from-has_target deps.show_nat probe_slot_count 0 (probe_slots s.nodes),
  )

  known-has_target :
      (r1 : Rendering) (xs : List XrayRule)
      → Grows s live r1 r
      → all (λ x. is_known s live r1 x.target) xs ≡ true
      → all (has_target s live r) xs ≡ true
  known-has_target r1 xs g =
      all_mono (λ x. is_known s live r1 x.target) (has_target s live r) xs
        (λ x h. ground (arith, known_mono s live r1 r x.target g h))

all_parts :
    (p : XrayRule → Bool) (a b c : List XrayRule) (x : XrayRule)
    → all p a ≡ true
    → all p b ≡ true
    → all p c ≡ true
    → p x ≡ true
    → all p (a ++ (b ++ (c ++ x ∷ []))) ≡ true
all_parts p a b c x ha hb hc hx =
    rw (all-append p a _, all-append p b _, all-append p c (x ∷ []), ha, hb, hc, hx)

rules_with-has_target :
    (deps : RenderDeps) (upstreams : List String) (s : Snapshot) (live : List String)
    → ((n : Node) → default_node s ≡ some n → is_live s live (node_tag n.id) ≡ true)
    → (all
          (has_target s live (rules_with deps upstreams s live).1)
          (rules_with deps upstreams s live).0
        ≡ true)
      × (is_sound s live (rules_with deps upstreams s live).1 ≡ true)
unfolding rules_with
rules_with-has_target deps upstreams s live default_live =
    let r0 = no_rendering deps upstreams s in
    let ups =
      upstream_rules s live deps.strategy_of deps.net deps.split_host_port deps.show_nat upstreams 0
        r0 in
    let users =
      user_rules s live deps.strategy_of deps.net deps.quote_meta (active_rules s) ups.1 in
    let last = catch_all s live users.1 in
    let a = upstream_rules-Renders s live deps default_live upstreams 0 r0 refl in
    let b = user_rules-Renders s live deps default_live (active_rules s) ups.1 a.0 in
    let c = catch_all-Resolves s live default_live users.1 b.0 in
    (
      all_parts (has_target s live last.1) (system_rules deps upstreams s) ups.0 users.0
          (catch_rule last.0) (system_rules-has_target s live last.1 deps upstreams)
          (known-has_target s live last.1 ups.1 ups.0 (λ tag found. c.1 tag (b.1 tag found)) a.2)
          (known-has_target s live last.1 users.1 users.0 c.1 b.2) (ground (arith, c.2)),
      c.0,
    )

live_tags-mem :
    (build : Node → Option String) (n : Node) (ns : List Node)
    → Memᴰ n ns
    → n.enabled ≡ true
    → build n ≡ none
    → any
        (str_eq (node_tag n.id))
        (map (λ m. node_tag m.id) (keep (λ m. is_none (build m)) (keep (λ m. m.enabled) ns)))
      ≡ true
live_tags-mem build n [] m e b = elim m [ ]
live_tags-mem build n (m ∷ ns) (Memᴰ.head q) e b =
    let up : m.enabled ≡ true = ap (λ k. k.enabled) (sym q) ∙ e in
    let built : is_none (build m) ≡ true = ap (λ k. is_none (build k)) (sym q) ∙ ap is_none b in
    let same : str_eq (node_tag n.id) (node_tag m.id) ≡ true = rw (← q) (eq_refl (node_tag n.id)) in
    simp (up, built, same)
live_tags-mem build n (m ∷ ns) (Memᴰ.tail t) e b = elim (Bool-cases m.enabled) [
  | inl up ↦ elim (Bool-cases (is_none (build m))) [
    | inl built ↦ simp (up, built) (ground (arith, live_tags-mem build n ns t e b))
    | inr failed ↦ simp (up, failed, live_tags-mem build n ns t e b)
  ]
  | inr down ↦ simp (down, live_tags-mem build n ns t e b)
]

-- If the outbound of the default node is built, every rule that is rendered, but for those of the
-- probe channel, has a target that is there: a balancer that is rendered too, the outbound of a node
-- that is built, or one of the fixed outbounds. The balancers select and fall back on
-- outbounds that are there.
pub xray_rules-has_target :
    (deps : RenderDeps) (upstreams : List String) (s : Snapshot)
    → ((n : Node) → default_node s ≡ some n → deps.build n ≡ none)
    → (all
          (has_target s (live_tags deps.build s) (xray_rules deps upstreams s).1)
          (xray_rules deps upstreams s).0
        ≡ true)
      × (is_sound s (live_tags deps.build s) (xray_rules deps upstreams s).1 ≡ true)
unfolding xray_rules live_tags enabled_nodes
xray_rules-has_target deps upstreams s built =
    rules_with-has_target deps upstreams s (live_tags deps.build s) (λ n found.
      let (m, e, _) = default_node_sound s n found in
      live_tags-mem deps.build n s.nodes m e (built n found))
