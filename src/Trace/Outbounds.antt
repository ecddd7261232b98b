-- ===== src/Trace/Outbounds.antt =====
-- The trace and the renderer name the same outbound for a rule: `resolve` of internal/trace/trace.go
-- against `resolveAction` of internal/render/xray.go.
use text.Mathlib.TextLemmas.{append_cancel_left}
use edge_route_gw.Prelude.{
  String, Bool, true, false, not, List, [], ◌∷◌, Option, none, some, ◌≡◌, refl, sym, ap, arith,
  eq_iff, any, all, keep, map, is_nil, str_eq, inl, inr, Bool-cases, if◌then◌else◌,
}
use edge_route_gw.Model.{
  Node, OutboundGroup, Rule, ActionKind, direct, proxy, block, node, group, other_action,
}
use edge_route_gw.Desired.{Snapshot, find_node, node_of, group_of, default_node, enabled_nodes}
use edge_route_gw.Desired.Lookup.{node_of-id}
use edge_route_gw.Render.{node_tag, Rendering, Missing, tag_of}
use edge_route_gw.Render.Targets.{
  is_live, live_members, to_default, default_target, missing_target, group_target, with_group,
  with_members, resolve_action, by_action, catch_all,
}
use edge_route_gw.Trace.{
  default_via, default_outbound, fallback, cons_enabled, live_nodes, to_members, to_group, to_node,
  resolve, Reason, without_rule, by_kind,
}

-- No two nodes share an id.
abbrev pub HasUniqueIds : List Node → Type 0
HasUniqueIds [] = Unit
HasUniqueIds (n ∷ ns) = (all (λ m. not (str_eq m.id n.id)) ns ≡ true) × HasUniqueIds ns

-- the tags of the enabled nodes
abbrev pub node_tags : Snapshot → List String
node_tags s = map (λ n. node_tag n.id) (enabled_nodes s)

abbrev is_up : Option Node → Bool
is_up none = false
is_up (some n) = n.enabled

str_eq-node_tag : (a b : String) → str_eq (node_tag a) (node_tag b) ≡ str_eq a b
str_eq-node_tag a b = ground (
  arith,
  eq_iff (node_tag a) (node_tag b),
  eq_iff a b,
  append_cancel_left "node-" a b,
  λ (e : a ≡ b). ap node_tag e,
)

not_named :
    (id : String) (n : Node) (ns : List Node)
    → str_eq n.id id ≡ true
    → all (λ m. not (str_eq m.id n.id)) ns ≡ true
    → any (str_eq (node_tag id)) (map (λ m. node_tag m.id) (keep (λ m. m.enabled) ns)) ≡ false
not_named id n [] same h = refl
not_named id n (m ∷ ns) same h = ground (
  arith,
  not_named id n ns,
  str_eq-node_tag id m.id,
  eq_iff id m.id,
  eq_iff n.id id,
  eq_iff m.id n.id,
)

-- A tag is live if the node that it names is found and enabled.
is_live-tag :
    (id : String) (ns : List Node)
    → HasUniqueIds ns
    → any (str_eq (node_tag id)) (map (λ n. node_tag n.id) (keep (λ n. n.enabled) ns))
      ≡ is_up (find_node id ns)
unfolding find_node
is_live-tag id [] u = refl
is_live-tag id (n ∷ ns) u = elim (Bool-cases (str_eq n.id id)) [
  | inl same ↦ ground (
    arith,
    same,
    not_named id n ns same u.0,
    str_eq-node_tag id n.id,
    eq_iff id n.id,
    eq_iff n.id id,
  )
  | inr other ↦
      ground (
        arith,
        other,
        is_live-tag id ns u.1,
        str_eq-node_tag id n.id,
        eq_iff id n.id,
        eq_iff n.id id,
      )
]

to_default-tag :
    (s : Snapshot) (o : Option Node) (ns : List Node) (r : Rendering)
    → tag_of (to_default s (map (λ n. node_tag n.id) ns) o r).0 ≡ (default_via o (is_nil ns)).0
to_default-tag s (some n) ns r = refl
to_default-tag s none [] r = refl
to_default-tag s none (n ∷ ns) r = refl

default_outbound-tag :
    (s : Snapshot) (r : Rendering)
    → tag_of (default_target s (node_tags s) r).0 ≡ (default_outbound s).0
unfolding default_target default_outbound
default_outbound-tag s r = to_default-tag s (default_node s) (enabled_nodes s) r

fallback-tag :
    (s : Snapshot) (what : Missing) (why : Reason) (r : Rendering)
    → tag_of (missing_target s (node_tags s) what r).0 ≡ (fallback s why).outbound
unfolding missing_target fallback
fallback-tag s what why r = elim (Bool-cases (str_eq s.network.node_failover_mode "strict")) [
  | inl strict ↦ rw strict
  | inr normal ↦ rw normal (default_outbound-tag s _)
]

pub without_rule-tag :
    (s : Snapshot) (r : Rendering)
    → tag_of (catch_all s (node_tags s) r).0 ≡ (without_rule s).outbound
unfolding catch_all
without_rule-tag s r = elim (Bool-cases (str_eq s.network.lan_default_policy "proxy")) [
  | inl proxied ↦ rw proxied (default_outbound-tag s r)
  | inr direct' ↦ rw direct'
]

module _ (s : Snapshot) (unique : HasUniqueIds s.nodes) where
  cons_up :
      (id : String) (o : Option Node) (tags : List String) (rest : List Node)
      → tags ≡ map (λ n. node_tag n.id) rest
      → ((n : Node) → o ≡ some n → n.id ≡ id)
      → (if is_up o then node_tag id ∷ tags else tags)
        ≡ map (λ n. node_tag n.id) (cons_enabled o rest)
  cons_up id none tags rest h k = h
  cons_up id (some n) tags rest h k = ground (arith, h, k n refl, ap node_tag (k n refl))

  -- The live members of a group are its enabled nodes.
  live_members-tags :
      (ids : List String)
      → live_members s (node_tags s) ids ≡ map (λ n. node_tag n.id) (live_nodes s ids)
  unfolding live_nodes node_of enabled_nodes
  live_members-tags [] = refl
  live_members-tags (id ∷ ids) = rw (is_live-tag id s.nodes unique) (
      cons_up id (find_node id s.nodes) _ (live_nodes s ids) (live_members-tags ids)
        (node_of-id s id))

  module _ (strategy_of : String → Option String) where
    to_members-tag :
        (g : OutboundGroup) (ns : List Node) (r : Rendering)
        → tag_of (with_members s (node_tags s) strategy_of g (map (λ n. node_tag n.id) ns) r).0
          ≡ (to_members g ns s).outbound
    to_members-tag g [] r = fallback-tag s _ _ r
    to_members-tag g (n ∷ []) r = refl
    to_members-tag g (n ∷ m ∷ rest) r = refl

    to_group-tag :
        (o : Option OutboundGroup) (rule : Rule) (r : Rendering)
        → tag_of (with_group s (node_tags s) strategy_of o rule r).0 ≡ (to_group o s).outbound
    to_group-tag none rule r = fallback-tag s _ _ r
    to_group-tag (some g) rule r =
        rw (live_members-tags g.member_ids) (to_members-tag g (live_nodes s g.member_ids) r)

    to_node-tag :
        (o : Option Node) (rule : Rule) (r : Rendering)
        → ((n : Node) → o ≡ some n → n.id ≡ rule.action_ref)
        → is_live s (node_tags s) (node_tag rule.action_ref) ≡ is_up o
        → tag_of (by_action s (node_tags s) strategy_of node rule r).0 ≡ (to_node o s).outbound
    to_node-tag none rule r h live = rw live (fallback-tag s _ _ r)
    to_node-tag (some n) rule r h live = elim (Bool-cases n.enabled) [
      | inl up ↦ rw (live, up) (ap node_tag (sym (h n refl)))
      | inr down ↦ rw (live, down) (fallback-tag s _ _ r)
    ]

    by_action-tag :
        (k : ActionKind) (rule : Rule) (r : Rendering)
        → tag_of (by_action s (node_tags s) strategy_of k rule r).0
          ≡ (by_kind k s rule.action_ref).outbound
    unfolding group_target enabled_nodes node_of
    by_action-tag direct rule r = refl
    by_action-tag block rule r = refl
    by_action-tag node rule r =
        to_node-tag (node_of s rule.action_ref) rule r (node_of-id s rule.action_ref)
          (is_live-tag rule.action_ref s.nodes unique)
    by_action-tag group rule r = to_group-tag (group_of s rule.action_ref) rule r
    by_action-tag proxy rule r = default_outbound-tag s r
    by_action-tag (other_action k) rule r = default_outbound-tag s r

    -- Whatever was rendered before, the renderer sends a rule to the outbound that the trace names.
    pub resolve-tag :
        (rule : Rule) (r : Rendering)
        → tag_of (resolve_action s (node_tags s) strategy_of rule r).0 ≡ (resolve s rule).outbound
    unfolding resolve_action resolve
    resolve-tag rule r = by_action-tag rule.action_kind rule r
