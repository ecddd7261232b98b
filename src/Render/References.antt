-- ===== src/Render/References.antt =====
-- `resolveAction` of internal/render/xray.go returns no balancer and no outbound that is not there.
use edge_route_gw.Prelude.{
  String, Bool, true, not, ◌&&◌, ◌||◌, List, [], ◌∷◌, Option, none, some, ◌≡◌, refl, arith, any,
  all, keep, map, is_nil, is_some, length, ltb, str_eq, inl, inr, Bool-cases, eq_refl,
}
use edge_route_gw.Prelude.Dict.{lookup, delete, lookup-insert}
use edge_route_gw.Model.{
  Node, OutboundGroup, GroupKind, failover, load_balance, other_group, Rule, ActionKind, direct,
  proxy, block, node, group, other_action,
}
use edge_route_gw.Desired.{Snapshot, default_node, group_of}
use edge_route_gw.Render.{
  tag_direct, tag_block, tag_auto_proxy, node_tag, group_tag, Target, to_outbound, to_balancer,
  Balancer, Missing, Rendering,
}
use edge_route_gw.Render.Targets.{
  is_live, is_strict, put_balancer, to_default, default_target, missing_target, catch_all,
  spare_node, shared_fallback, group_balancer, with_members, with_group, group_target, by_action,
  resolve_action,
}

module _ (s : Snapshot) (live : List String) where
  abbrev pub is_outbound : String → Bool
  is_outbound tag = str_eq tag tag_direct || (str_eq tag tag_block || is_live s live tag)

  abbrev pub is_known : Rendering → Target → Bool
  is_known r (to_outbound tag) = is_outbound tag
  is_known r (to_balancer tag) = is_some (lookup tag r.balancers)

  abbrev pub knows_fallback : Option String → Bool
  knows_fallback none = true
  knows_fallback (some tag) = is_outbound tag

  -- A balancer selects outbounds by the beginning of their tags, and "node-" begins them all.
  abbrev pub knows_parts : Balancer → Bool
  knows_parts b =
      all (λ tag. str_eq tag "node-" || is_live s live tag) b.selector && knows_fallback b.fallback

  abbrev pub is_sound : Rendering → Bool
  is_sound r = all (λ e. knows_parts e.1) r.balancers

  abbrev pub Grows : Rendering → Rendering → Type 0
  Grows r r' =
      (tag : String)
      → is_some (lookup tag r.balancers) ≡ true
      → is_some (lookup tag r'.balancers) ≡ true

  -- The target is known, and what was rendered before still stands.
  abbrev pub Resolves : Rendering → Target × Rendering → Type 0
  Resolves r out = (is_sound out.1 ≡ true) × Grows r out.1 × (is_known out.1 out.0 ≡ true)

  all-delete :
      (key : String) (table : List (String × Balancer))
      → all (λ e. knows_parts e.1) table ≡ true
      → all (λ e. knows_parts e.1) (delete key table) ≡ true
  unfolding delete
  all-delete key [] h = refl
  all-delete key (e ∷ table) h = ground (arith, all-delete key table)

  put_balancer-Resolves :
      (tag : String) (b : Balancer) (r : Rendering)
      → is_sound r ≡ true
      → knows_parts b ≡ true
      → Resolves r (to_balancer tag, put_balancer tag b r)
  unfolding put_balancer
  put_balancer-Resolves tag b r h k = (
    rw k (all-delete tag r.balancers h),
    (λ other found. rw (lookup-insert tag other b r.balancers) (ground arith)),
    rw (lookup-insert tag tag b r.balancers, eq_refl tag),
  )

  keep-lives : (tags : List String) → all (is_live s live) (keep (is_live s live) tags) ≡ true
  keep-lives [] = refl
  keep-lives (t ∷ ts) = ground (arith, keep-lives ts)

  lives-selects :
      (tags : List String)
      → all (is_live s live) tags ≡ true
      → all (λ tag. str_eq tag "node-" || is_live s live tag) tags ≡ true
  lives-selects [] h = refl
  lives-selects (t ∷ ts) h = ground (arith, lives-selects ts)

  spare_node-known :
      (o : Option Node) (tags : List String) → is_outbound (spare_node s live o tags) ≡ true
  spare_node-known none tags = refl
  spare_node-known (some n) tags =
      elim (Bool-cases
        (is_live s live (node_tag n.id) && not (any (str_eq (node_tag n.id)) tags))) [
          | inl spare ↦ rw spare (ground (arith, spare))
          | inr none' ↦ rw none'
        ]

  shared_fallback-known : (tags : List String) → is_outbound (shared_fallback s live tags) ≡ true
  shared_fallback-known tags = elim (Bool-cases (is_strict s live)) [
    | inl strict ↦ rw strict
    | inr normal ↦ rw normal (spare_node-known (default_node s) tags)
  ]

  module _
      (default_live : (n : Node)
        → default_node s ≡ some n
        → is_live s live (node_tag n.id) ≡ true) where
    to_default-Resolves :
        (o : Option Node) (r : Rendering)
        → ((n : Node) → o ≡ some n → is_live s live (node_tag n.id) ≡ true)
        → is_sound r ≡ true
        → Resolves r (to_default s live o r)
    to_default-Resolves (some n) r k h = (h, (λ tag found. found), ground (arith, k n refl))
    to_default-Resolves none r k h = elim (Bool-cases (is_nil live)) [
      | inl none' ↦ rw none' (h, (λ tag found. found), refl)
      | inr some' ↦ rw some' (put_balancer-Resolves tag_auto_proxy _ r h refl)
    ]

    pub default_target-Resolves :
        (r : Rendering) → is_sound r ≡ true → Resolves r (default_target s live r)
    unfolding default_target
    default_target-Resolves r h = to_default-Resolves (default_node s) r default_live h

    missing_target-Resolves :
        (what : Missing) (r : Rendering)
        → is_sound r ≡ true
        → Resolves r (missing_target s live what r)
    unfolding missing_target
    missing_target-Resolves what r h = elim (Bool-cases (is_strict s live)) [
      | inl strict ↦ rw strict (h, (λ tag found. found), refl)
      | inr normal ↦ rw normal (default_target-Resolves _ h)
    ]

    pub catch_all-Resolves : (r : Rendering) → is_sound r ≡ true → Resolves r (catch_all s live r)
    unfolding catch_all
    catch_all-Resolves r h = elim (Bool-cases (str_eq s.network.lan_default_policy "proxy")) [
      | inl proxied ↦ rw proxied (default_target-Resolves r h)
      | inr direct' ↦ rw direct' (h, (λ tag found. found), refl)
    ]

    module _ (strategy_of : String → Option String) where
      group_balancer-Resolves :
          (k : GroupKind) (g : OutboundGroup) (t u : String) (rest : List String) (r : Rendering)
          → all (is_live s live) (t ∷ u ∷ rest) ≡ true
          → is_sound r ≡ true
          → Resolves r
              (to_balancer (group_tag g.id), group_balancer s live strategy_of k g t u rest r)
      group_balancer-Resolves failover g t u rest r l h = elim (Bool-cases (is_nil rest)) [
        | inl e ↦ rw e (put_balancer-Resolves (group_tag g.id) _ _ h (ground arith))
        | inr e ↦ rw e (put_balancer-Resolves (group_tag g.id) _ _ h (ground arith))
      ]
      group_balancer-Resolves load_balance g t u rest r l h =
          put_balancer-Resolves (group_tag g.id) _ r h
            (ground (arith, lives-selects (t ∷ u ∷ rest), shared_fallback-known (t ∷ u ∷ rest)))
      group_balancer-Resolves (other_group k) g t u rest r l h =
          put_balancer-Resolves (group_tag g.id) _ r h
            (ground (arith, lives-selects (t ∷ u ∷ rest), shared_fallback-known (t ∷ u ∷ rest)))

      with_members-Resolves :
          (g : OutboundGroup) (tags : List String) (r : Rendering)
          → all (is_live s live) tags ≡ true
          → is_sound r ≡ true
          → Resolves r (with_members s live strategy_of g tags r)
      with_members-Resolves g [] r l h = missing_target-Resolves _ r h
      with_members-Resolves g (t ∷ []) r l h = elim (Bool-cases (ltb 1 (length g.member_ids))) [
        | inl e ↦ rw e (h, (λ tag found. found), ground arith)
        | inr e ↦ rw e (h, (λ tag found. found), ground arith)
      ]
      with_members-Resolves g (t ∷ u ∷ rest) r l h =
          elim (Bool-cases (is_some (lookup (group_tag g.id) r.balancers))) [
            | inl done ↦ rw done (h, (λ tag found. found), done)
            | inr new ↦ rw new (group_balancer-Resolves g.kind g t u rest r l h)
          ]

      with_group-Resolves :
          (o : Option OutboundGroup) (rule : Rule) (r : Rendering)
          → is_sound r ≡ true
          → Resolves r (with_group s live strategy_of o rule r)
      with_group-Resolves none rule r h = missing_target-Resolves _ r h
      with_group-Resolves (some g) rule r h =
          with_members-Resolves g _ r (keep-lives (map node_tag g.member_ids)) h

      by_action-Resolves :
          (k : ActionKind) (rule : Rule) (r : Rendering)
          → is_sound r ≡ true
          → Resolves r (by_action s live strategy_of k rule r)
      unfolding group_target
      by_action-Resolves direct rule r h = (h, (λ tag found. found), refl)
      by_action-Resolves block rule r h = (h, (λ tag found. found), refl)
      by_action-Resolves node rule r h =
          elim (Bool-cases (is_live s live (node_tag rule.action_ref))) [
            | inl up ↦ rw up (h, (λ tag found. found), ground (arith, up))
            | inr down ↦ rw down (missing_target-Resolves _ r h)
          ]
      by_action-Resolves group rule r h = with_group-Resolves (group_of s rule.action_ref) rule r h
      by_action-Resolves proxy rule r h = default_target-Resolves r h
      by_action-Resolves (other_action k) rule r h = default_target-Resolves r h

      pub resolve_action-Resolves :
          (rule : Rule) (r : Rendering)
          → is_sound r ≡ true
          → Resolves r (resolve_action s live strategy_of rule r)
      unfolding resolve_action
      resolve_action-Resolves rule r h = by_action-Resolves rule.action_kind rule r h
