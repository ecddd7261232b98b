-- ===== src/RuleStore/Reverted.antt =====
-- What a transaction and a revert leave in the database.
use edge_route_gw.Prelude.{
  ℕ, ◌+◌, String, Bool, true, false, ◌&&◌, List, [], ◌∷◌, ◌++◌, some, any, all, map, eq_iff, ◌≡◌,
  refl, ap, ◌∙◌, arith, append-nil, append_assoc,
}
use edge_route_gw.Model.{RuleSet, Rule}
use edge_route_gw.RuleStore.{Tables, Result, ok, ◌>>=◌, is_set, is_rule, passes, put_rule}
use edge_route_gw.RuleStore.Integrity.{has_id, distinct, IsConsistent, has_id-append}
use edge_route_gw.RuleStore.Kept.{any-set_ids, any-rule_ids, ids-append}
use edge_route_gw.RuleStore.Ordered.{in_order, in_order-IsConsistent}
use edge_route_gw.RuleStore.History.{
  state, Changeset, Database, snap_rule_set, capture_desired, restore_sets, restore_rules,
  restore_desired, mutate, find_changeset, revert_to,
}

-- A set without its mark.
abbrev pub unmarked : RuleSet → RuleSet
unmarked rs = record rs { builtin = false }

distinct-middle :
    (xs ys : List String) (y : String) → distinct (xs ++ y ∷ ys) ≡ true → has_id y xs ≡ false
distinct-middle [] ys y h = refl
distinct-middle (x ∷ xs) ys y h =
    ground (arith, has_id-append x xs (y ∷ ys), distinct-middle xs ys y, eq_iff x y, eq_iff y x)

unmarked_ids :
    (sets : List RuleSet) → map (λ rs. rs.id) (map unmarked sets) ≡ map (λ rs. rs.id) sets
unmarked_ids [] = refl
unmarked_ids (rs ∷ rest) = ap (λ l. rs.id ∷ l) (unmarked_ids rest)

restore_sets-capture :
    (sets acc : List RuleSet)
    → distinct (map (λ rs. rs.id) acc ++ map (λ rs. rs.id) sets) ≡ true
    → restore_sets (map snap_rule_set sets) (record { rule_sets = acc; rules = [] })
      ≡ ok (record { rule_sets = acc ++ map unmarked sets; rules = [] })
unfolding restore_sets
restore_sets-capture [] acc h = rw append-nil
restore_sets-capture (rs ∷ rest) acc h =
    let new : any (is_set rs.id) acc ≡ false =
      any-set_ids rs.id acc
      ∙ distinct-middle (map (λ q. q.id) acc) (map (λ q. q.id) rest) rs.id h in
    let ids : map (λ q. q.id) (acc ++ unmarked rs ∷ []) ++ map (λ q. q.id) rest
        ≡ map (λ q. q.id) acc ++ rs.id ∷ map (λ q. q.id) rest =
      ap (λ l. l ++ map (λ q. q.id) rest) (ids-append (λ q. q.id) acc (unmarked rs))
      ∙ append_assoc (map (λ q. q.id) acc) (rs.id ∷ []) (map (λ q. q.id) rest) in
    rw new (
      restore_sets-capture rest (acc ++ unmarked rs ∷ []) (ap distinct ids ∙ h)
      ∙ ap (λ l. ok (record { rule_sets = l; rules = [] }))
          (append_assoc acc (unmarked rs ∷ []) (map unmarked rest)))

and_left : (a b : Bool) → (a && b) ≡ true → a ≡ true
and_left true b h = refl
and_left false b h = cc

and_right : (a b : Bool) → (a && b) ≡ true → b ≡ true
and_right true b h = h
and_right false b h = cc

put_fits :
    (r : Rule) (acc : List Rule) (sets : List RuleSet)
    → any (is_rule r.id) acc ≡ false
    → any (is_set r.set_id) sets ≡ true
    → passes r ≡ true
    → (f : Tables → Result Tables)
    → (put_rule r (record { rule_sets = sets; rules = acc }) >>= f)
      ≡ f (record { rule_sets = sets; rules = acc ++ r ∷ [] })
put_fits r acc sets new there fits f = rw (new, there, fits)

restore_rules-capture :
    (rules acc : List Rule) (sets : List RuleSet)
    → distinct (map (λ r. r.id) acc ++ map (λ r. r.id) rules) ≡ true
    → all (λ r. has_id r.set_id (map (λ rs. rs.id) sets)) rules ≡ true
    → all passes rules ≡ true
    → restore_rules rules (record { rule_sets = sets; rules = acc })
      ≡ ok (record { rule_sets = sets; rules = acc ++ rules })
unfolding restore_rules
restore_rules-capture [] acc sets h refs good = rw append-nil
restore_rules-capture (r ∷ rest) acc sets h refs good =
    let new : any (is_rule r.id) acc ≡ false =
      any-rule_ids r.id acc ∙ distinct-middle (map (λ q. q.id) acc) (map (λ q. q.id) rest) r.id h in
    let there : any (is_set r.set_id) sets ≡ true = any-set_ids r.set_id sets ∙ and_left _ _ refs in
    let fits : passes r ≡ true = and_left _ _ good in
    let ids : map (λ q. q.id) (acc ++ r ∷ []) ++ map (λ q. q.id) rest
        ≡ map (λ q. q.id) acc ++ r.id ∷ map (λ q. q.id) rest =
      ap (λ l. l ++ map (λ q. q.id) rest) (ids-append (λ q. q.id) acc r)
      ∙ append_assoc (map (λ q. q.id) acc) (r.id ∷ []) (map (λ q. q.id) rest) in
    put_fits r acc sets new there fits (restore_rules rest)
    ∙ restore_rules-capture rest (acc ++ r ∷ []) sets (ap distinct ids ∙ h) (and_right _ _ refs)
        (and_right _ _ good)
    ∙ ap (λ l. ok (record { rule_sets = sets; rules = l })) (append_assoc acc (r ∷ []) rest)

-- The rule sets and the rules of consistent tables are restored in the order in which they were
-- captured, but for the mark of the built-in set.
restore_rows :
    (t : Tables)
    → IsConsistent t
    → (restore_sets (map snap_rule_set t.rule_sets) (record { rule_sets = []; rules = [] })
        >>= restore_rules t.rules)
      ≡ ok (record { rule_sets = map unmarked t.rule_sets; rules = t.rules })
restore_rows t c =
    ap (λ r. r >>= restore_rules t.rules) (restore_sets-capture t.rule_sets [] c.set_keys)
    ∙ restore_rules-capture t.rules [] (map unmarked t.rule_sets) c.rule_keys
        (ap (λ ids. all (λ r. has_id r.set_id ids) t.rules) (unmarked_ids t.rule_sets)
          ∙ c.references)
        c.checks

restore_desired-capture_desired :
    (t : Tables)
    → IsConsistent t
    → restore_desired (capture_desired t)
      ≡ ok (record { rule_sets = map unmarked (in_order t).rule_sets; rules = (in_order t).rules })
unfolding restore_desired capture_desired
restore_desired-capture_desired t c = restore_rows (in_order t) (in_order-IsConsistent t c)

-- Reverting to a changeset that holds the state of consistent tables succeeds: it raises the generation by
-- one, and brings back the rule sets by position and the rules by set and position, but no set is
-- built-in any more.
pub revert_to-restored :
    (show : ℕ → String) (new_id id actor : String) (db : Database) (c : Changeset) (t : Tables)
    → find_changeset id db.changesets ≡ some c
    → c.diff ≡ state (capture_desired t)
    → IsConsistent t
    → ((revert_to show new_id id actor db).1 ≡ ok (db.generation + 1))
      × ((revert_to show new_id id actor db).0.generation ≡ db.generation + 1)
      × ((revert_to show new_id id actor db).0.tables
          ≡ record { rule_sets = map unmarked (in_order t).rule_sets; rules = (in_order t).rules })
unfolding revert_to mutate
revert_to-restored show new_id id actor db c t h k con =
    let restored = restore_desired-capture_desired t con in rw (h, k, restored) (refl, refl, refl)
