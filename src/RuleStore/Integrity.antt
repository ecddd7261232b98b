-- ===== src/RuleStore/Integrity.antt =====
-- The keys, references and checks that every change keeps.
use edge_route_gw.Prelude.{
  String, Bool, true, false, not, ◌&&◌, ◌||◌, List, [], ◌∷◌, ◌++◌, any, all, keep, map, str_eq,
  eq_iff, if◌then◌else◌, ◌≡◌, refl, ap, ◌∙◌, arith, Bool-cases, inl, inr, any-append,
}
use edge_route_gw.Model.{Rule}
use edge_route_gw.RuleStore.{
  Tables, Result, passes, insert_rule_set, update_rule_set, delete_rule_set, reorder_rule_sets,
  insert_rule, update_rule, delete_rule, reorder_rules, move_rule,
}

-- One change of the tables.
pub data Change : Type 0 where
  add_set : String → String → Change
  edit_set : String → String → Bool → Change
  drop_set : String → Change
  order_sets : List String → Change
  add_rule edit_rule : Rule → Change
  drop_rule : String → Change
  order_rules : String → List String → Change
  relocate : String → String → Change

unfoldable pub run_change : Change → Tables → Result Tables
unfolding insert_rule_set update_rule_set delete_rule_set reorder_rule_sets insert_rule update_rule
    delete_rule reorder_rules move_rule
run_change (add_set id name) = insert_rule_set id name
run_change (edit_set id name enabled) = update_rule_set id name enabled
run_change (drop_set id) = delete_rule_set id
run_change (order_sets ids) = reorder_rule_sets ids
run_change (add_rule r) = insert_rule r
run_change (edit_rule r) = update_rule r
run_change (drop_rule id) = delete_rule id
run_change (order_rules set ids) = reorder_rules set ids
run_change (relocate id to_set) = move_rule id to_set

abbrev pub has_id : String → List String → Bool
has_id id ids = any (λ x. str_eq x id) ids

-- No id stands twice.
abbrev pub distinct : List String → Bool
distinct [] = true
distinct (x ∷ xs) = not (has_id x xs) && distinct xs

abbrev pub set_ids : Tables → List String
set_ids t = map (λ rs. rs.id) t.rule_sets

abbrev pub rule_ids : Tables → List String
rule_ids t = map (λ r. r.id) t.rules

-- The ids are keys, the set of each rule is there, and the rules pass the checks.
pub record IsConsistent (t : Tables) : Type 0 where
  pub set_keys : distinct (set_ids t) ≡ true
  pub rule_keys : distinct (rule_ids t) ≡ true
  pub references : all (λ r. has_id r.set_id (set_ids t)) t.rules ≡ true
  pub checks : all passes t.rules ≡ true

pub has_id-append :
    (id : String) (xs ys : List String) → has_id id (xs ++ ys) ≡ (has_id id xs || has_id id ys)
has_id-append id xs ys = any-append (λ x. str_eq x id) xs ys

pub distinct-append :
    (xs : List String) (y : String)
    → distinct xs ≡ true
    → has_id y xs ≡ false
    → distinct (xs ++ y ∷ []) ≡ true
distinct-append [] y h k = refl
distinct-append (x ∷ xs) y h k =
    ground (arith, has_id-append x xs (y ∷ []), distinct-append xs y, eq_iff x y, eq_iff y x)

-- Keeping some of the rows.
module _ {A : Type 0} (id_of : A → String) (test : A → Bool) where
  pub keep-has_id :
      (id : String) (xs : List A)
      → has_id id (map id_of xs) ≡ false
      → has_id id (map id_of (keep test xs)) ≡ false
  keep-has_id id [] h = refl
  keep-has_id id (x ∷ xs) h = ground (arith, keep-has_id id xs)

  pub keep-distinct :
      (xs : List A) → distinct (map id_of xs) ≡ true → distinct (map id_of (keep test xs)) ≡ true
  keep-distinct [] h = refl
  keep-distinct (x ∷ xs) h = ground (arith, keep-has_id (id_of x) xs, keep-distinct xs)

  pub keep-all :
      (good : A → Bool) (xs : List A) → all good xs ≡ true → all good (keep test xs) ≡ true
  keep-all good [] h = refl
  keep-all good (x ∷ xs) h = ground (arith, keep-all good xs)

-- Changing some of the rows, and not their ids.
module _ {A : Type 0} (id_of : A → String) (test : A → Bool) (f : A → A)
    (same_id : (a : A) → id_of (f a) ≡ id_of a) where
  pub change_ids :
      (xs : List A) → map id_of (map (λ x. if test x then f x else x) xs) ≡ map id_of xs
  change_ids [] = refl
  change_ids (x ∷ xs) = elim (Bool-cases (test x)) [
    | inl e ↦ rw e (
        ap (λ i. i ∷ map id_of (map (λ y. if test y then f y else y) xs)) (same_id x)
        ∙ ap (λ l. id_of x ∷ l) (change_ids xs))
    | inr e ↦ rw e (ap (λ l. id_of x ∷ l) (change_ids xs))
  ]

pub change-all :
    {A : Type 0} (good : A → Bool) (test : A → Bool) (f : A → A)
    → ((a : A) → test a ≡ true → good a ≡ true → good (f a) ≡ true)
    → (xs : List A) → all good xs ≡ true
    → all good (map (λ x. if test x then f x else x) xs) ≡ true
change-all good test f still [] h = refl
change-all good test f still (x ∷ xs) h = elim (Bool-cases (test x)) [
  | inl e ↦ rw e (ground (arith, still x e, change-all good test f still xs))
  | inr e ↦ rw e (ground (arith, change-all good test f still xs))
]
