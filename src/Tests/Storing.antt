-- ===== src/Tests/Storing.antt =====
-- Changes of the tables of rules, and the theorems at concrete tables.
use edge_route_gw.Prelude.{
  ℕ, ◌+◌, String, true, false, List, [], ◌∷◌, none, some, length, map, ◌≡◌, refl,
}
use edge_route_gw.Model.{RuleSet, Rule, match_domain, proxy, other_action}
use edge_route_gw.RuleStore.{Tables, ok, err, constraint, insert_rule, reorder_rule_sets}
use edge_route_gw.RuleStore.Positions.{
  position_of, without_position, IsBuiltinFirst, reorder_rule_sets-ok,
}
use edge_route_gw.RuleStore.Integrity.{drop_set, IsConsistent, run_change}
use edge_route_gw.RuleStore.Kept.{run_change-IsConsistent}
use edge_route_gw.RuleStore.History.{
  Changeset, Database, state, capture_desired, find_changeset, revert_to,
}
use edge_route_gw.RuleStore.Ordered.{in_order}
use edge_route_gw.RuleStore.Reverted.{unmarked, revert_to-restored}

abbrev default_set : RuleSet
default_set = record { id = "s0"; name = "default"; position = 0; enabled = true; builtin = true }

abbrev work_set : RuleSet
work_set = record { id = "s1"; name = "work"; position = 1; enabled = true; builtin = false }

abbrev home_set : RuleSet
home_set = record { id = "s2"; name = "home"; position = 2; enabled = true; builtin = false }

abbrev work_rule : Rule
work_rule = record {
  id = "r1";
  set_id = "s1";
  position = 0;
  match_kind = match_domain;
  match_value = "example.com";
  action_kind = proxy;
  action_ref = "";
  enabled = true;
  remark = "";
}

abbrev tables : Tables
tables = record { rule_sets = default_set ∷ work_set ∷ home_set ∷ []; rules = work_rule ∷ [] }

tables-IsConsistent : IsConsistent tables
tables-IsConsistent = record { set_keys = refl; rule_keys = refl; references = refl; checks = refl }

-- A rule whose action the schema does not know is refused, with no reference as well.
unknown_refused :
    insert_rule (record work_rule { id = "r2"; action_kind = other_action "teleport" }) tables
    ≡ err constraint
unfolding insert_rule
unknown_refused = refl

abbrev without_work : Tables
without_work = record { rule_sets = default_set ∷ home_set ∷ []; rules = [] }

run_change-IsConsistent_example : IsConsistent without_work
unfolding run_change
run_change-IsConsistent_example =
    run_change-IsConsistent (drop_set "s1") tables without_work refl tables-IsConsistent

abbrev reordered : Tables
reordered = record {
  rule_sets =
      default_set ∷ (record work_set { position = 2 }) ∷ (record home_set { position = 1 }) ∷ [];
  rules = work_rule ∷ [];
}

abbrev order : List String
order = "s0" ∷ "s2" ∷ "s1" ∷ []

reorder_rule_sets-ok_example :
    (length tables.rule_sets ≡ length order)
    × IsBuiltinFirst tables.rule_sets reordered
    × (position_of "s2" reordered.rule_sets ≡ some 1)
    × (map without_position reordered.rule_sets ≡ map without_position tables.rule_sets)
    × (reordered.rules ≡ tables.rules)
unfolding reorder_rule_sets
reorder_rule_sets-ok_example =
    reorder_rule_sets-ok ("s0" ∷ []) ("s1" ∷ []) "s2" tables reordered refl refl

-- A list that names one set twice is taken, and moves the built-in set.
named_twice : Tables
named_twice = record {
  rule_sets = (record default_set { position = 2 }) ∷ work_set ∷ home_set ∷ [];
  rules = work_rule ∷ [];
}

reorder_named_twice : reorder_rule_sets ("s0" ∷ "s1" ∷ "s0" ∷ []) tables ≡ ok named_twice
unfolding reorder_rule_sets named_twice
reorder_named_twice = refl

abbrev kept : Changeset
kept = record {
  id = "c1";
  generation = 1;
  actor = "admin";
  summary = "";
  diff = state (capture_desired tables);
  reverted_by = none;
}

abbrev database : Database
database = record { tables = without_work; generation = 1; changesets = kept ∷ [] }

abbrev show : ℕ → String
show n = "1"

revert_to-restored_example :
    ((revert_to show "c2" "c1" "admin" database).1 ≡ ok (database.generation + 1))
    × ((revert_to show "c2" "c1" "admin" database).0.generation ≡ database.generation + 1)
    × ((revert_to show "c2" "c1" "admin" database).0.tables ≡ record {
      rule_sets = map unmarked (in_order tables).rule_sets;
      rules = (in_order tables).rules;
    })
unfolding find_changeset
revert_to-restored_example =
    revert_to-restored show "c2" "c1" "admin" database kept tables refl refl tables-IsConsistent
