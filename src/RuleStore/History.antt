-- ===== src/RuleStore/History.antt =====
-- internal/store/mutate.go, meta.go and snapshot.go: a change runs in a transaction, raises the generation
-- and leaves a changeset with the state after it, which RevertTo restores. Of the state that is captured
-- these are the rule sets and the rules.
use Prim.Native.Nat.{Ordering}
use Prim.Native.String
use edge_route_gw.Prelude.{
  ℕ, ◌+◌, String, Bool, false, true, ◌&&◌, ◌||◌, List, [], ◌∷◌, ◌++◌, Option, none, some, map, max,
  ltb, leb, str_eq, if◌then◌else◌,
}
use edge_route_gw.Prelude.Sorting.{insertion_sort}
use edge_route_gw.Text.{concat}
use edge_route_gw.Model.{RuleSet, Rule}
use edge_route_gw.RuleStore.{
  Tables, not_found, no_snapshot, Result, ok, err, ◌>>=◌, put_rule_set, put_rule,
}

pub record SnapRuleSet : Type 0 where
  pub id : String
  pub name : String
  pub position : ℕ
  pub enabled : Bool

pub record DesiredSnapshot : Type 0 where
  pub rule_sets : List SnapRuleSet
  pub rules : List Rule

-- What a changeset keeps: nothing, what the caller gave, or the state.
pub data Diff : Type 0 where
  no_diff : Diff
  given : String → Diff
  state : DesiredSnapshot → Diff

pub record Changeset : Type 0 where
  pub id : String
  pub generation : ℕ
  pub actor : String
  pub summary : String
  pub diff : Diff
  pub reverted_by : Option String

pub record Database : Type 0 where
  pub tables : Tables
  pub generation : ℕ
  pub changesets : List Changeset

abbrev pub snap_rule_set : RuleSet → SnapRuleSet
snap_rule_set rs = record {
  id = rs.id;
  name = rs.name;
  position = rs.position;
  enabled = rs.enabled;
}

-- ORDER BY position, created_at: the rows come by age, and the sort keeps the order of ties.
abbrev pub set_before : RuleSet → RuleSet → Bool
set_before a b = ltb a.position b.position

-- the order of texts by bytes
abbrev pub text_before : String → String → Bool
text_before s t = elim (String.compare s t) [ Ordering.lt ↦ true | _ ↦ false ]

-- ORDER BY set_id, position; rows that tie keep their order.
abbrev pub rule_before : Rule → Rule → Bool
rule_before a b =
    text_before a.set_id b.set_id || (str_eq a.set_id b.set_id && ltb a.position b.position)

-- `captureDesired`
unfoldable pub capture_desired : Tables → DesiredSnapshot
unfolding insertion_sort
capture_desired t = record {
  rule_sets = map snap_rule_set (insertion_sort set_before t.rule_sets);
  rules = insertion_sort rule_before t.rules;
}

-- A row of rule_sets from a snapshot; the column builtin has its default.
abbrev pub row_of : SnapRuleSet → RuleSet
row_of s = record {
  id = s.id;
  name = s.name;
  position = s.position;
  enabled = s.enabled;
  builtin = false;
}

unfoldable pub restore_sets : List SnapRuleSet → Tables → Result Tables
restore_sets [] t = ok t
restore_sets (s ∷ rest) t = put_rule_set (row_of s) t >>= restore_sets rest

unfoldable pub restore_rules : List Rule → Tables → Result Tables
restore_rules [] t = ok t
restore_rules (r ∷ rest) t = put_rule r t >>= restore_rules rest

-- `restoreDesired`: the tables are emptied first
unfoldable pub restore_desired : DesiredSnapshot → Result Tables
unfolding restore_sets restore_rules
restore_desired s =
    restore_sets s.rule_sets (record { rule_sets = []; rules = [] }) >>= restore_rules s.rules

abbrev pub end_tx : {A : Type 0} → Database → Result (Database × A) → Database × Result A
end_tx db (ok (db', a)) = (db', ok a)
end_tx db (err e) = (db, err e)

-- `WithTx`: committed if the function succeeds, and rolled back if not
abbrev pub with_tx :
    {A : Type 0} → (Database → Result (Database × A)) → Database → Database × Result A
with_tx fn db = end_tx db (fn db)

abbrev pub snapshot_retention : ℕ
snapshot_retention = 200

unfoldable pub last_generation : List Changeset → ℕ
last_generation [] = 0
last_generation (c ∷ rest) = max c.generation (last_generation rest)

-- `pruneSnapshots`
unfoldable pub prune_snapshots : List Changeset → List Changeset
unfolding last_generation
prune_snapshots cs =
    map
      (λ c.
        if leb (c.generation + snapshot_retention) (last_generation cs)
        then record c { diff = no_diff }
        else c)
      cs

abbrev pub diff_of : Option String → Tables → Diff
diff_of none t = state (capture_desired t)
diff_of (some text) t = given text

-- The row that `Mutate` adds; its id is a new one.
abbrev pub changeset_for : String → ℕ → String → String → Option String → Tables → Changeset
changeset_for id gen actor summary diff t = record {
  id = id;
  generation = gen;
  actor = actor;
  summary = summary;
  diff = diff_of diff t;
  reverted_by = none;
}

-- the steps of `Mutate` inside the transaction; the generation is raised as `BumpGeneration` does
abbrev pub mutation :
    String
    → String
    → String
    → Option String
    → (Tables → Result Tables)
    → Database
    → Result (Database × ℕ)
mutation id actor summary diff fn db = fn db.tables >>= λ t. ok (
  record {
    tables = t;
    generation = db.generation + 1;
    changesets =
        prune_snapshots
          (db.changesets ++ changeset_for id (db.generation + 1) actor summary diff t ∷ []);
  },
  db.generation + 1,
)

-- `Mutate`
unfoldable pub mutate :
    String
    → String
    → String
    → Option String
    → (Tables → Result Tables)
    → Database
    → Database × Result ℕ
unfolding capture_desired prune_snapshots
mutate id actor summary diff fn db = with_tx (mutation id actor summary diff fn) db

unfoldable pub find_changeset : String → List Changeset → Option Changeset
find_changeset id [] = none
find_changeset id (c ∷ rest) =
    let later = find_changeset id rest in if str_eq c.id id then some c else later

abbrev pub mark_reverted : String → ℕ → ℕ → List Changeset → List Changeset
mark_reverted id restored gen cs =
    map
      (λ c.
        if ltb restored c.generation && ltb c.generation gen
        then record c { reverted_by = some id }
        else c)
      cs

-- the update after a revert that succeeded
abbrev pub after_revert : String → ℕ → Database × Result ℕ → Database × Result ℕ
after_revert id restored (db, ok gen) =
    (record db { changesets = mark_reverted id restored gen db.changesets }, ok gen)
after_revert id restored (db, err e) = (db, err e)

abbrev pub revert_diff : (ℕ → String) → String → String → ℕ → Diff → Database → Database × Result ℕ
revert_diff show new_id actor restored (state s) db =
    mutate new_id actor (concat "revert to generation " (show restored)) none
      (λ t. restore_desired s) db
revert_diff show new_id actor restored no_diff db = (db, err no_snapshot)
revert_diff show new_id actor restored (given text) db = (db, err no_snapshot)

abbrev pub revert_found :
    (ℕ → String) → String → String → String → Option Changeset → Database → Database × Result ℕ
revert_found show new_id id actor none db = (db, err not_found)
revert_found show new_id id actor (some c) db =
    after_revert id c.generation (revert_diff show new_id actor c.generation c.diff db)

-- `RevertTo`; `show` writes a number
unfoldable pub revert_to : (ℕ → String) → String → String → String → Database → Database × Result ℕ
unfolding mutate restore_desired find_changeset
revert_to show new_id id actor db =
    revert_found show new_id id actor (find_changeset id db.changesets) db
