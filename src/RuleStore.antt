-- ===== src/RuleStore.antt =====
-- internal/store/rules.go, mutate.go and snapshot.go: the tables of rule sets and rules, and the changes
-- to them. A table is the list of its rows, the oldest first. SQLite is what the schema in
-- internal/store/migrations says of these tables: keys, references and checks. Other failures of the
-- database, the other tables and the time of a change are left out.
pub mod Results
pub mod Positions
pub mod Integrity
pub mod Kept
pub mod History
pub mod Ordered
pub mod Reverted
use edge_route_gw.Prelude.{
  ℕ, zero, suc, ◌+◌, ◌-◌, String, Bool, true, false, not, ◌&&◌, ◌||◌, List, [], ◌∷◌, ◌++◌, Option,
  none, some, any, all, keep, map, length, max, leb, ◌==◌, str_eq, if◌then◌else◌,
}
use edge_route_gw.Text.{is_empty}
use edge_route_gw.Model.{
  RuleSet, Rule, MatchKind, ActionKind, node, group, other_action, other_match,
}

pub record Tables : Type 0 where
  pub rule_sets : List RuleSet
  pub rules : List Rule

pub data StoreError : Type 0 where
  constraint not_found builtin_rule_set wrong_count no_snapshot : StoreError

pub data Result {ℓ} (A : Type ℓ) : Type ℓ where
  ok : A → Result A
  err : StoreError → Result A

infixl 5 ◌>>=◌
abbrev pub ◌>>=◌ {ℓ κ} : {A : Type ℓ} {B : Type κ} → Result A → (A → Result B) → Result B
ok a >>= f = f a
err e >>= f = err e

abbrev pub is_set : String → RuleSet → Bool
is_set id rs = str_eq rs.id id

abbrev pub is_rule : String → Rule → Bool
is_rule id r = str_eq r.id id

abbrev pub in_set : String → Rule → Bool
in_set id r = str_eq r.set_id id

-- COALESCE((SELECT MAX(position)+1 ...), 0)
unfoldable pub next_position : List ℕ → ℕ
next_position [] = 0
next_position (p ∷ rest) = max (p + 1) (next_position rest)

-- `affectedOne`
abbrev pub affected_one : Bool → Tables → Result Tables
affected_one true t = ok t
affected_one false t = err not_found

-- A row of rule_sets is inserted: the key must be new.
abbrev pub put_rule_set : RuleSet → Tables → Result Tables
put_rule_set rs t =
    if any (is_set rs.id) t.rule_sets
    then err constraint
    else ok (record t { rule_sets = t.rule_sets ++ rs ∷ [] })

abbrev pub wants_ref : ActionKind → Bool
wants_ref node = true
wants_ref group = true
wants_ref _ = false

abbrev pub is_known_match : MatchKind → Bool
is_known_match (other_match _) = false
is_known_match _ = true

abbrev pub is_known_action : ActionKind → Bool
is_known_action (other_action _) = false
is_known_action _ = true

-- the checks of the schema on a row of rules
abbrev pub passes : Rule → Bool
passes r =
    is_known_match r.match_kind
    && (is_known_action r.action_kind
        && ((wants_ref r.action_kind && not (is_empty r.action_ref))
            || (not (wants_ref r.action_kind) && is_empty r.action_ref)))

-- A row of rules is inserted: the key must be new, the set must be there, and the checks hold.
abbrev pub put_rule : Rule → Tables → Result Tables
put_rule r t =
    if any (is_rule r.id) t.rules || (not (any (is_set r.set_id) t.rule_sets) || not (passes r))
    then err constraint
    else ok (record t { rules = t.rules ++ r ∷ [] })

-- `InsertRuleSet`
unfoldable pub insert_rule_set : String → String → Tables → Result Tables
unfolding next_position
insert_rule_set id name t =
    put_rule_set
      (record {
        id = id;
        name = name;
        position = next_position (map (λ rs. rs.position) t.rule_sets);
        enabled = true;
        builtin = false;
      })
      t

abbrev pub change_set : String → (RuleSet → RuleSet) → List RuleSet → List RuleSet
change_set id f sets = map (λ rs. if is_set id rs then f rs else rs) sets

abbrev pub change_rule : (Rule → Bool) → (Rule → Rule) → List Rule → List Rule
change_rule test f rules = map (λ r. if test r then f r else r) rules

-- `UpdateRuleSet`
unfoldable pub update_rule_set : String → String → Bool → Tables → Result Tables
update_rule_set id name enabled t = affected_one (any (is_set id) t.rule_sets) (record t {
  rule_sets = change_set id (λ rs. record rs { name = name; enabled = enabled }) t.rule_sets;
})

-- `DeleteRuleSet`; the rules of the set go with it
unfoldable pub delete_rule_set : String → Tables → Result Tables
delete_rule_set id t =
    if any (λ rs. is_set id rs && rs.builtin) t.rule_sets
    then err builtin_rule_set
    else affected_one (any (is_set id) t.rule_sets) (record t {
      rule_sets = keep (λ rs. not (is_set id rs)) t.rule_sets;
      rules = keep (λ r. not (in_set id r)) t.rules;
    })

abbrev pub place_set : ℕ → String → Tables → Result Tables
place_set i id t =
    affected_one (any (is_set id) t.rule_sets)
      (record t { rule_sets = change_set id (λ rs. record rs { position = i }) t.rule_sets })

-- the loop of `ReorderRuleSets`
unfoldable pub place_sets : ℕ → List String → Tables → Result Tables
place_sets i [] t = ok t
place_sets i (id ∷ rest) t = place_set i id t >>= place_sets (suc i) rest

-- the set with the builtin mark that a query for one finds
unfoldable pub builtin_id : List RuleSet → Option String
builtin_id [] = none
builtin_id (rs ∷ rest) = let later = builtin_id rest in if rs.builtin then some rs.id else later

abbrev pub is_moved : Option String → List String → Bool
is_moved none ids = false
is_moved (some b) [] = false
is_moved (some b) (id ∷ rest) = not (str_eq id b)

-- `ReorderRuleSets`
unfoldable pub reorder_rule_sets : List String → Tables → Result Tables
unfolding place_sets builtin_id
reorder_rule_sets ids t =
    if not (length t.rule_sets == length ids)
    then err wrong_count
    else if is_moved (builtin_id t.rule_sets) ids
    then err builtin_rule_set
    else place_sets 0 ids t

abbrev pub positions_in : String → List Rule → List ℕ
positions_in set rules = map (λ r. r.position) (keep (in_set set) rules)

-- `InsertRule`
unfoldable pub insert_rule : Rule → Tables → Result Tables
unfolding next_position
insert_rule r t = put_rule (record r { position = next_position (positions_in r.set_id t.rules) }) t

abbrev pub edited : Rule → Rule → Rule
edited new old = record old {
  match_kind = new.match_kind;
  match_value = new.match_value;
  action_kind = new.action_kind;
  action_ref = new.action_ref;
  enabled = new.enabled;
  remark = new.remark;
}

-- `UpdateRule`
unfoldable pub update_rule : Rule → Tables → Result Tables
update_rule r t =
    if any (is_rule r.id) t.rules && not (passes r)
    then err constraint
    else affected_one (any (is_rule r.id) t.rules)
        (record t { rules = change_rule (is_rule r.id) (edited r) t.rules })

-- `DeleteRule`
unfoldable pub delete_rule : String → Tables → Result Tables
delete_rule id t =
    affected_one (any (is_rule id) t.rules)
      (record t { rules = keep (λ r. not (is_rule id r)) t.rules })

abbrev pub is_rule_of : String → String → Rule → Bool
is_rule_of set id r = is_rule id r && in_set set r

abbrev pub place_rule : String → ℕ → String → Tables → Result Tables
place_rule set i id t =
    affected_one (any (is_rule_of set id) t.rules) (record t {
      rules = change_rule (is_rule_of set id) (λ r. record r { position = i }) t.rules;
    })

-- the loop of `ReorderRules`
unfoldable pub place_rules : String → ℕ → List String → Tables → Result Tables
place_rules set i [] t = ok t
place_rules set i (id ∷ rest) t = place_rule set i id t >>= place_rules set (suc i) rest

-- `ReorderRules`
unfoldable pub reorder_rules : String → List String → Tables → Result Tables
unfolding place_rules
reorder_rules set ids t =
    if not (length (keep (in_set set) t.rules) == length ids)
    then err wrong_count
    else place_rules set 0 ids t

-- `MoveRule`
unfoldable pub move_rule : String → String → Tables → Result Tables
unfolding next_position
move_rule id to_set t =
    if any (is_rule id) t.rules && not (any (is_set to_set) t.rule_sets)
    then err constraint
    else affected_one (any (is_rule id) t.rules) (record t {
      rules =
          change_rule (is_rule id)
            (λ r. record r {
              set_id = to_set;
              position = next_position (positions_in to_set t.rules);
            })
            t.rules;
    })
