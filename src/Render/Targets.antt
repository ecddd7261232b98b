-- ===== src/Render/Targets.antt =====
-- Where a rule sends its traffic: `defaultTarget`, `missingTarget`, `catchAll`, `resolveAction` and
-- `groupTarget` of internal/render/xray.go. `live` are the tags of the node outbounds that were built,
-- and the reading of a group's strategy by encoding/json is a parameter.
use edge_route_gw.Prelude.{
  String, Bool, not, ◌&&◌, List, [], ◌∷◌, ◌++◌, Option, none, some, ltb, any, keep, map, is_nil,
  is_some, length, str_eq, if◌then◌else◌,
}
use edge_route_gw.Prelude.Dict.{lookup, insert}
use edge_route_gw.Text.{is_empty}
use edge_route_gw.Model.{
  Node, OutboundGroup, GroupKind, failover, Rule, ActionKind, direct, block, node, group,
}
use edge_route_gw.Desired.{Snapshot, default_node, group_of}
use edge_route_gw.Render.{
  tag_direct, tag_block, tag_auto_proxy, node_tag, group_tag, Target, to_outbound, to_balancer,
  Balancer, Missing, missing_node, missing_group, empty_group, RenderWarning, sent_to_block,
  sent_to_default, one_member, members_ignored, Rendering,
}

abbrev pub add_warning : RenderWarning → Rendering → Rendering
add_warning w r = record r { warnings = r.warnings ++ w ∷ [] }

unfoldable pub put_balancer : String → Balancer → Rendering → Rendering
unfolding insert
put_balancer tag b r = record r { balancers = insert tag b r.balancers }

abbrev pub auto_balancer : Balancer
auto_balancer = record { selector = "node-" ∷ []; strategy = some "leastPing"; fallback = none }

abbrev pub default_strategy : Option String → String
default_strategy none = "leastPing"
default_strategy (some st) = if is_empty st then "leastPing" else st

module _ (s : Snapshot) (live : List String) where
  abbrev pub is_live : String → Bool
  is_live tag = any (str_eq tag) live

  abbrev pub is_strict : Bool
  is_strict = str_eq s.network.node_failover_mode "strict"

  abbrev pub to_default : Option Node → Rendering → Target × Rendering
  to_default (some n) r = (to_outbound (node_tag n.id), r)
  to_default none r =
      if is_nil live
      then (to_outbound tag_direct, r)
      else (to_balancer tag_auto_proxy, put_balancer tag_auto_proxy auto_balancer r)

  unfoldable pub default_target : Rendering → Target × Rendering
  unfolding default_node put_balancer
  default_target r = to_default (default_node s) r

  unfoldable pub missing_target : Missing → Rendering → Target × Rendering
  unfolding default_target
  missing_target what r =
      if is_strict
      then (to_outbound tag_block, add_warning (sent_to_block what) r)
      else default_target (add_warning (sent_to_default what) r)

  unfoldable pub catch_all : Rendering → Target × Rendering
  unfolding default_target
  catch_all r =
      if str_eq s.network.lan_default_policy "proxy"
      then default_target r
      else (to_outbound tag_direct, r)

  -- the loop over the members of a group
  abbrev pub live_members : List String → List String
  live_members ids = keep is_live (map node_tag ids)

  -- the fallback of a group that shares its load, in normal mode
  abbrev pub spare_node : Option Node → List String → String
  spare_node none members = tag_direct
  spare_node (some n) members =
      if is_live (node_tag n.id) && not (any (str_eq (node_tag n.id)) members)
      then node_tag n.id
      else tag_direct

  abbrev pub shared_fallback : List String → String
  shared_fallback members = if is_strict then tag_block else spare_node (default_node s) members

  abbrev pub missing_node_target : Rule → Rendering → Target × Rendering
  missing_node_target rule r = missing_target (missing_node rule.match_value rule.action_ref) r

  module _ (strategy_of : String → Option String) where
    -- the first two members are live, and `rest` are the others
    abbrev pub group_balancer :
        GroupKind → OutboundGroup → String → String → List String → Rendering → Rendering
    group_balancer failover g t u rest r =
        let w = if is_nil rest then r else add_warning (members_ignored g.name (length rest)) r in
        put_balancer (group_tag g.id)
          (record { selector = t ∷ []; strategy = none; fallback = some u }) w
    group_balancer _ g t u rest r =
        put_balancer (group_tag g.id)
          (record {
            selector = t ∷ u ∷ rest;
            strategy = some (default_strategy (strategy_of g.strategy));
            fallback = some (shared_fallback (t ∷ u ∷ rest));
          })
          r

    abbrev pub with_members : OutboundGroup → List String → Rendering → Target × Rendering
    with_members g [] r = missing_target (empty_group g.name) r
    with_members g (t ∷ []) r = (
      to_outbound t,
      if ltb 1 (length g.member_ids) then add_warning (one_member g.name) r else r,
    )
    with_members g (t ∷ u ∷ rest) r = (
      to_balancer (group_tag g.id),
      if is_some (lookup (group_tag g.id) r.balancers)
          then r
          else group_balancer g.kind g t u rest r,
    )

    abbrev pub with_group : Option OutboundGroup → Rule → Rendering → Target × Rendering
    with_group none rule r = missing_target (missing_group rule.match_value rule.action_ref) r
    with_group (some g) rule r = with_members g (live_members g.member_ids) r

    unfoldable pub group_target : Rule → Rendering → Target × Rendering
    unfolding missing_target put_balancer default_node group_of lookup
    group_target rule r = with_group (group_of s rule.action_ref) rule r

    abbrev pub by_action : ActionKind → Rule → Rendering → Target × Rendering
    by_action direct rule r = (to_outbound tag_direct, r)
    by_action block rule r = (to_outbound tag_block, r)
    by_action node rule r =
        if is_live (node_tag rule.action_ref)
        then (to_outbound (node_tag rule.action_ref), r)
        else missing_node_target rule r
    by_action group rule r = group_target rule r
    by_action _ rule r = default_target r

    unfoldable pub resolve_action : Rule → Rendering → Target × Rendering
    unfolding group_target missing_target default_target
    resolve_action rule r = by_action rule.action_kind rule r
