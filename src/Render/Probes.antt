-- ===== src/Render/Probes.antt =====
-- `ProbeSlots` and the rules of the probe channel in internal/render/xray.go. `%d` is a parameter.
use edge_route_gw.Prelude.{
  ℕ, zero, suc, String, List, [], ◌∷◌, Option, none, some, keep, map, leb, ◌==◌, if◌then◌else◌,
}
use edge_route_gw.Prelude.Dict.{insert}
use edge_route_gw.Text.{concat, is_empty}
use edge_route_gw.Model.{Node}
use edge_route_gw.Routes.Compute.{sort_names}
use edge_route_gw.Render.{node_tag, to_outbound, XrayRule, bare_rule}

abbrev pub probe_slot_count : ℕ
probe_slot_count = 64

-- the loop over the sorted ids
unfoldable pub assign_slots : List String → ℕ → List (String × ℕ) → List (String × ℕ)
unfolding insert
assign_slots [] i out = out
assign_slots (id ∷ ids) i out =
    let rest = assign_slots ids (suc i) (insert id i out) in
    if leb probe_slot_count i then out else rest

unfoldable pub probe_slots : List Node → List (String × ℕ)
unfolding assign_slots sort_names
probe_slots nodes = assign_slots (sort_names (map (λ n. n.id) (keep (λ n. n.enabled) nodes))) 0 []

-- `bySlot[slot]`
unfoldable pub id_at : ℕ → List (String × ℕ) → Option String
id_at slot [] = none
id_at slot ((id, i) ∷ rest) = if i == slot then some id else id_at slot rest

module _ (show_nat : ℕ → String) where
  abbrev pub probe_rule : ℕ → String → XrayRule
  probe_rule slot id = record (bare_rule (concat "probe-" id) (to_outbound (node_tag id))) {
    inbound = some "probe_in";
    user = some (concat "probe-" (show_nat slot));
  }

  abbrev pub slot_rules : Option String → ℕ → List XrayRule → List XrayRule
  slot_rules none slot rest = rest
  slot_rules (some id) slot rest = if is_empty id then rest else probe_rule slot id ∷ rest

  -- the loop over the slots: the first number is how many are left
  unfoldable pub probe_rules_from : ℕ → ℕ → List (String × ℕ) → List XrayRule
  unfolding id_at
  probe_rules_from zero slot slots = []
  probe_rules_from (suc left) slot slots =
      slot_rules (id_at slot slots) slot (probe_rules_from left (suc slot) slots)
