-- ===== src/RuleStore/Ordered.antt =====
-- The tables with their rows in the order in which captureDesired of internal/store/snapshot.go reads them.
use edge_route_gw.Prelude.{
  String, Bool, true, false, ◌||◌, List, [], ◌∷◌, all, map, str_eq, eq_iff, ◌≡◌, refl, ap, ◌∙◌,
  arith,
}
use edge_route_gw.Prelude.Sorting.{insert_by, insertion_sort}
use edge_route_gw.Model.{Rule}
use edge_route_gw.RuleStore.{Tables, passes}
use edge_route_gw.RuleStore.Integrity.{has_id, distinct, IsConsistent}
use edge_route_gw.RuleStore.History.{set_before, rule_before}

-- Sorting rows keeps what is true of all of them, and their keys.
module _ {A : Type 0} (less : A → A → Bool) where
  insert_by-all :
      (good : A → Bool) (a : A) (xs : List A)
      → all good xs ≡ true
      → good a ≡ true
      → all good (insert_by less a xs) ≡ true
  unfolding insert_by
  insert_by-all good a [] h k = ground (arith, k)
  insert_by-all good a (x ∷ xs) h k = ground (arith, insert_by-all good a xs)

  sort-all :
      (good : A → Bool) (xs : List A)
      → all good xs ≡ true
      → all good (insertion_sort less xs) ≡ true
  unfolding insertion_sort
  sort-all good [] h = h
  sort-all good (x ∷ xs) h =
      insert_by-all good x (insertion_sort less xs) (sort-all good xs (ground arith)) (ground arith)

  module _ (id_of : A → String) where
    insert_by-has_id :
        (id : String) (a : A) (xs : List A)
        → has_id id (map id_of (insert_by less a xs)) ≡ has_id id (map id_of (a ∷ xs))
    unfolding insert_by
    insert_by-has_id id a [] = refl
    insert_by-has_id id a (x ∷ xs) = ground (arith, insert_by-has_id id a xs)

    sort-has_id :
        (id : String) (xs : List A)
        → has_id id (map id_of (insertion_sort less xs)) ≡ has_id id (map id_of xs)
    unfolding insertion_sort
    sort-has_id id [] = refl
    sort-has_id id (x ∷ xs) =
        insert_by-has_id id x (insertion_sort less xs)
        ∙ ap (λ b. str_eq (id_of x) id || b) (sort-has_id id xs)

    insert_by-distinct :
        (a : A) (xs : List A)
        → distinct (map id_of xs) ≡ true
        → has_id (id_of a) (map id_of xs) ≡ false
        → distinct (map id_of (insert_by less a xs)) ≡ true
    unfolding insert_by
    insert_by-distinct a [] h k = refl
    insert_by-distinct a (x ∷ xs) h k = ground (
      arith,
      insert_by-distinct a xs,
      insert_by-has_id (id_of x) a xs,
      eq_iff (id_of x) (id_of a),
      eq_iff (id_of a) (id_of x),
    )

    sort-distinct :
        (xs : List A)
        → distinct (map id_of xs) ≡ true
        → distinct (map id_of (insertion_sort less xs)) ≡ true
    unfolding insertion_sort
    sort-distinct [] h = h
    sort-distinct (x ∷ xs) h =
        insert_by-distinct x (insertion_sort less xs) (sort-distinct xs (ground arith))
          (sort-has_id (id_of x) xs ∙ ground arith)

-- The rule sets by position, and the rules by set and position.
abbrev pub in_order : Tables → Tables
in_order t = record {
  rule_sets = insertion_sort set_before t.rule_sets;
  rules = insertion_sort rule_before t.rules;
}

has_ids-all :
    (ids ids' : List String) (rules : List Rule)
    → ((id : String) → has_id id ids' ≡ has_id id ids)
    → all (λ r. has_id r.set_id ids) rules ≡ true
    → all (λ r. has_id r.set_id ids') rules ≡ true
has_ids-all ids ids' [] same h = refl
has_ids-all ids ids' (r ∷ rest) same h =
    ground (arith, same r.set_id, has_ids-all ids ids' rest same)

pub in_order-IsConsistent : (t : Tables) → IsConsistent t → IsConsistent (in_order t)
in_order-IsConsistent t c = record {
  set_keys = sort-distinct set_before (λ rs. rs.id) t.rule_sets c.set_keys;
  rule_keys = sort-distinct rule_before (λ r. r.id) t.rules c.rule_keys;
  references =
      has_ids-all _ _ _ (λ id. sort-has_id set_before (λ rs. rs.id) id t.rule_sets)
        (sort-all rule_before (λ r. has_id r.set_id (map (λ rs. rs.id) t.rule_sets)) t.rules
          c.references);
  checks = sort-all rule_before passes t.rules c.checks;
}
