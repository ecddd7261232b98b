-- ===== src/RuleStore/Kept.antt =====
-- Every change of the tables keeps them consistent.
use edge_route_gw.Prelude.{
  ℕ, suc, String, Bool, true, false, not, ◌||◌, List, [], ◌∷◌, ◌++◌, any, all, keep, map, str_eq,
  eq_iff, ◌≡◌, refl, sym, ap, ◌∙◌, arith, Bool-cases, inl, inr, all-append, all_mono,
}
use mathlib.Core.Path.{subst}
use edge_route_gw.Model.{RuleSet, Rule}
use edge_route_gw.RuleStore.{
  Tables, ok, constraint, builtin_rule_set, wrong_count, is_set, is_rule, in_set, is_rule_of,
  change_rule, passes, put_rule_set, put_rule, insert_rule_set, update_rule_set, delete_rule_set,
  reorder_rule_sets, place_sets, place_set, insert_rule, update_rule, delete_rule, reorder_rules,
  place_rules, place_rule, move_rule, edited, next_position, positions_in,
}
use edge_route_gw.RuleStore.Results.{
  affected_one-ok, two_steps-ok, unless-ok, not-false, ok-eq, and_not,
}
use edge_route_gw.RuleStore.Integrity.{
  Change, add_set, edit_set, drop_set, order_sets, add_rule, edit_rule, drop_rule, order_rules,
  relocate, run_change, has_id, distinct, set_ids, rule_ids, IsConsistent, has_id-append,
  distinct-append, keep-distinct, keep-all, change_ids, change-all,
}

pub any-set_ids :
    (id : String) (sets : List RuleSet) → any (is_set id) sets ≡ has_id id (map (λ rs. rs.id) sets)
any-set_ids id [] = refl
any-set_ids id (rs ∷ rest) = ap (λ b. is_set id rs || b) (any-set_ids id rest)

pub any-rule_ids :
    (id : String) (rules : List Rule) → any (is_rule id) rules ≡ has_id id (map (λ r. r.id) rules)
any-rule_ids id [] = refl
any-rule_ids id (r ∷ rest) = ap (λ b. is_rule id r || b) (any-rule_ids id rest)

pub ids-append :
    {A : Type 0} (id_of : A → String) (xs : List A) (y : A)
    → map id_of (xs ++ y ∷ []) ≡ map id_of xs ++ id_of y ∷ []
ids-append id_of [] y = refl
ids-append id_of (x ∷ xs) y = ap (λ l. id_of x ∷ l) (ids-append id_of xs y)

-- Other sets with the same ids.
sets_changed :
    (t : Tables) (sets : List RuleSet)
    → map (λ rs. rs.id) sets ≡ set_ids t
    → IsConsistent t
    → IsConsistent (record t { rule_sets = sets })
sets_changed t sets e c = record {
  set_keys = ap distinct e ∙ c.set_keys;
  rule_keys = c.rule_keys;
  references = ap (λ ids. all (λ r. has_id r.set_id ids) t.rules) e ∙ c.references;
  checks = c.checks;
}

put_rule_set-IsConsistent :
    (rs : RuleSet) (t u : Tables) → put_rule_set rs t ≡ ok u → IsConsistent t → IsConsistent u
put_rule_set-IsConsistent rs t u h c =
    let (new, e) = unless-ok _ constraint _ h in
    let same : record t { rule_sets = t.rule_sets ++ rs ∷ [] } ≡ u = ok-eq e in
    subst IsConsistent same (record {
      set_keys =
          ap distinct (ids-append (λ s. s.id) t.rule_sets rs)
          ∙ distinct-append (set_ids t) rs.id c.set_keys
              (sym (any-set_ids rs.id t.rule_sets) ∙ new);
      rule_keys = c.rule_keys;
      references =
          ap (λ ids. all (λ r. has_id r.set_id ids) t.rules) (ids-append (λ s. s.id) t.rule_sets rs)
          ∙ all_mono _ _ t.rules (λ r k. has_id-append r.set_id (set_ids t) (rs.id ∷ []) ∙ rw k)
              c.references;
      checks = c.checks;
    })

update_rule_set-IsConsistent :
    (id name : String) (enabled : Bool) (t u : Tables)
    → update_rule_set id name enabled t ≡ ok u
    → IsConsistent t
    → IsConsistent u
unfolding update_rule_set
update_rule_set-IsConsistent id name enabled t u h c =
    subst IsConsistent (sym (affected_one-ok _ _ _ h).1) (
      sets_changed t _
        (change_ids (λ rs. rs.id) (is_set id) (λ rs. record rs { name = name; enabled = enabled })
          (λ rs. refl) t.rule_sets)
        c)

place_set-IsConsistent :
    (i : ℕ) (id : String) (t u : Tables) → place_set i id t ≡ ok u → IsConsistent t → IsConsistent u
place_set-IsConsistent i id t u h c = subst IsConsistent (sym (affected_one-ok _ _ _ h).1) (
    sets_changed t _
      (change_ids (λ rs. rs.id) (is_set id) (λ rs. record rs { position = i }) (λ rs. refl)
        t.rule_sets)
      c)

place_sets-IsConsistent :
    (i : ℕ) (ids : List String) (t u : Tables)
    → place_sets i ids t ≡ ok u
    → IsConsistent t
    → IsConsistent u
unfolding place_sets
place_sets-IsConsistent i [] t u h c = let e : t ≡ u = cc in subst IsConsistent e c
place_sets-IsConsistent i (id ∷ rest) t u h c =
    let (v, one, more) = two_steps-ok (place_set i id t) (place_sets (suc i) rest) u h in
    place_sets-IsConsistent (suc i) rest v u more (place_set-IsConsistent i id t v one c)

reorder_rule_sets-IsConsistent :
    (ids : List String) (t u : Tables)
    → reorder_rule_sets ids t ≡ ok u
    → IsConsistent t
    → IsConsistent u
unfolding reorder_rule_sets
reorder_rule_sets-IsConsistent ids t u h c =
    let (count, rest) = unless-ok _ wrong_count _ h in
    let (first, run) = unless-ok _ builtin_rule_set _ rest in
    place_sets-IsConsistent 0 ids t u run c

has_id-keep :
    (s id : String) (sets : List RuleSet)
    → str_eq s id ≡ false
    → has_id s (map (λ rs. rs.id) sets) ≡ true
    → has_id s (map (λ rs. rs.id) (keep (λ rs. not (is_set id rs)) sets)) ≡ true
has_id-keep s id [] k h = h
has_id-keep s id (rs ∷ rest) k h = elim (Bool-cases (is_set id rs)) [
  | inl e ↦
      let same : rs.id ≡ id = (eq_iff rs.id id).0 e in
      let ne : str_eq rs.id s ≡ false = differs same in rw e (has_id-keep s id rest k (rw ne at h))
  | inr e ↦ rw e (ground (arith, has_id-keep s id rest k))
]
  where
    differs : rs.id ≡ id → str_eq rs.id s ≡ false
    differs same = elim (Bool-cases (str_eq rs.id s)) [
      | inl y ↦ let eq : s ≡ id = sym ((eq_iff rs.id s).0 y) ∙ same in cc (k, (eq_iff s id).1 eq)
      | inr n ↦ n
    ]

references-keep :
    (id : String) (sets : List RuleSet) (rules : List Rule)
    → all (λ r. has_id r.set_id (map (λ rs. rs.id) sets)) rules ≡ true
    → all
        (λ r. has_id r.set_id (map (λ rs. rs.id) (keep (λ rs. not (is_set id rs)) sets)))
        (keep (λ r. not (in_set id r)) rules)
      ≡ true
references-keep id sets [] h = refl
references-keep id sets (r ∷ rest) h = elim (Bool-cases (in_set id r)) [
  | inl e ↦ rw e (references-keep id sets rest (ground arith))
  | inr e ↦
      rw (e, has_id-keep r.set_id id sets e (ground arith))
        (references-keep id sets rest (ground arith))
]

delete_rule_set-IsConsistent :
    (id : String) (t u : Tables) → delete_rule_set id t ≡ ok u → IsConsistent t → IsConsistent u
unfolding delete_rule_set
delete_rule_set-IsConsistent id t u h c =
    let (free, rest) = unless-ok _ builtin_rule_set _ h in
    subst IsConsistent (sym (affected_one-ok _ _ _ rest).1) (record {
      set_keys = keep-distinct (λ rs. rs.id) (λ rs. not (is_set id rs)) t.rule_sets c.set_keys;
      rule_keys = keep-distinct (λ r. r.id) (λ r. not (in_set id r)) t.rules c.rule_keys;
      references = references-keep id t.rule_sets t.rules c.references;
      checks = keep-all (λ r. r.id) (λ r. not (in_set id r)) passes t.rules c.checks;
    })

-- Other rules with the same ids, whose sets are there and that pass the checks.
rules_changed :
    (t : Tables) (rules : List Rule)
    → map (λ r. r.id) rules ≡ rule_ids t
    → all (λ r. has_id r.set_id (set_ids t)) rules ≡ true
    → all passes rules ≡ true
    → IsConsistent t
    → IsConsistent (record t { rules = rules })
rules_changed t rules e refs good c = record {
  set_keys = c.set_keys;
  rule_keys = ap distinct e ∙ c.rule_keys;
  references = refs;
  checks = good;
}

put_rule-IsConsistent :
    (r : Rule) (t u : Tables) → put_rule r t ≡ ok u → IsConsistent t → IsConsistent u
put_rule-IsConsistent r t u h c =
    let (fits, e) = unless-ok _ constraint _ h in
    let same : record t { rules = t.rules ++ r ∷ [] } ≡ u = ok-eq e in
    let new : any (is_rule r.id) t.rules ≡ false = ground arith in
    let there : any (is_set r.set_id) t.rule_sets ≡ true = ground arith in
    let good : passes r ≡ true = not-false _ (or_right _ _ (or_right _ _ fits)) in
    let found : has_id r.set_id (set_ids t) ≡ true =
      sym (any-set_ids r.set_id t.rule_sets) ∙ there in
    subst IsConsistent same (record {
      set_keys = c.set_keys;
      rule_keys =
          ap distinct (ids-append (λ q. q.id) t.rules r)
          ∙ distinct-append (rule_ids t) r.id c.rule_keys (sym (any-rule_ids r.id t.rules) ∙ new);
      references =
          all-append (λ q. has_id q.set_id (set_ids t)) t.rules (r ∷ []) ∙ rw (c.references, found);
      checks = all-append passes t.rules (r ∷ []) ∙ rw (c.checks, good);
    })
  where
    or_right : (a b : Bool) → (a || b) ≡ false → b ≡ false
    or_right true b k = cc
    or_right false b k = k

insert_rule-IsConsistent :
    (r : Rule) (t u : Tables) → insert_rule r t ≡ ok u → IsConsistent t → IsConsistent u
unfolding insert_rule
insert_rule-IsConsistent r t u h c = put_rule-IsConsistent _ t u h c

update_rule-IsConsistent :
    (r : Rule) (t u : Tables) → update_rule r t ≡ ok u → IsConsistent t → IsConsistent u
unfolding update_rule
update_rule-IsConsistent r t u h c =
    let (fits, rest) = unless-ok _ constraint _ h in
    let (there, e) = affected_one-ok _ _ _ rest in
    let good : passes r ≡ true = and_not _ _ fits there in
    subst IsConsistent (sym e) (
      rules_changed t (change_rule (is_rule r.id) (edited r) t.rules)
        (change_ids (λ q. q.id) (is_rule r.id) (edited r) (λ q. refl) t.rules)
        (change-all (λ q. has_id q.set_id (set_ids t)) (is_rule r.id) (edited r) (λ q k g. g)
          t.rules c.references)
        (change-all passes (is_rule r.id) (edited r) (λ q k g. good) t.rules c.checks) c)

delete_rule-IsConsistent :
    (id : String) (t u : Tables) → delete_rule id t ≡ ok u → IsConsistent t → IsConsistent u
unfolding delete_rule
delete_rule-IsConsistent id t u h c = subst IsConsistent (sym (affected_one-ok _ _ _ h).1) (record {
  set_keys = c.set_keys;
  rule_keys = keep-distinct (λ r. r.id) (λ r. not (is_rule id r)) t.rules c.rule_keys;
  references =
      keep-all (λ r. r.id) (λ r. not (is_rule id r)) (λ r. has_id r.set_id (set_ids t)) t.rules
        c.references;
  checks = keep-all (λ r. r.id) (λ r. not (is_rule id r)) passes t.rules c.checks;
})

place_rule-IsConsistent :
    (set : String) (i : ℕ) (id : String) (t u : Tables)
    → place_rule set i id t ≡ ok u
    → IsConsistent t
    → IsConsistent u
place_rule-IsConsistent set i id t u h c =
    let f : Rule → Rule = λ r. record r { position = i } in
    subst IsConsistent (sym (affected_one-ok _ _ _ h).1) (
      rules_changed t (change_rule (is_rule_of set id) f t.rules)
        (change_ids (λ q. q.id) (is_rule_of set id) f (λ q. refl) t.rules)
        (change-all (λ q. has_id q.set_id (set_ids t)) (is_rule_of set id) f (λ q k g. g) t.rules
          c.references)
        (change-all passes (is_rule_of set id) f (λ q k g. g) t.rules c.checks) c)

place_rules-IsConsistent :
    (set : String) (i : ℕ) (ids : List String) (t u : Tables)
    → place_rules set i ids t ≡ ok u
    → IsConsistent t
    → IsConsistent u
unfolding place_rules
place_rules-IsConsistent set i [] t u h c = let e : t ≡ u = cc in subst IsConsistent e c
place_rules-IsConsistent set i (id ∷ rest) t u h c =
    let (v, one, more) = two_steps-ok (place_rule set i id t) (place_rules set (suc i) rest) u h in
    place_rules-IsConsistent set (suc i) rest v u more (place_rule-IsConsistent set i id t v one c)

reorder_rules-IsConsistent :
    (set : String) (ids : List String) (t u : Tables)
    → reorder_rules set ids t ≡ ok u
    → IsConsistent t
    → IsConsistent u
unfolding reorder_rules
reorder_rules-IsConsistent set ids t u h c =
    let (count, run) = unless-ok _ wrong_count _ h in place_rules-IsConsistent set 0 ids t u run c

move_rule-IsConsistent :
    (id to_set : String) (t u : Tables)
    → move_rule id to_set t ≡ ok u
    → IsConsistent t
    → IsConsistent u
unfolding move_rule
move_rule-IsConsistent id to_set t u h c =
    let (fits, rest) = unless-ok _ constraint _ h in
    let (there, e) = affected_one-ok _ _ _ rest in
    let set_there : any (is_set to_set) t.rule_sets ≡ true = and_not _ _ fits there in
    let found : has_id to_set (set_ids t) ≡ true =
      sym (any-set_ids to_set t.rule_sets) ∙ set_there in
    let f : Rule → Rule =
      λ r. record r { set_id = to_set; position = next_position (positions_in to_set t.rules) } in
    subst IsConsistent (sym e) (
      rules_changed t (change_rule (is_rule id) f t.rules)
        (change_ids (λ q. q.id) (is_rule id) f (λ q. refl) t.rules)
        (change-all (λ q. has_id q.set_id (set_ids t)) (is_rule id) f (λ q k g. found) t.rules
          c.references)
        (change-all passes (is_rule id) f (λ q k g. g) t.rules c.checks) c)

-- Every change that succeeds keeps the tables consistent: the ids of the sets and of the rules are keys,
-- the set of each rule is there, and each rule passes the checks of the schema.
pub run_change-IsConsistent :
    (change : Change) (t u : Tables) → run_change change t ≡ ok u → IsConsistent t → IsConsistent u
unfolding run_change
run_change-IsConsistent (add_set id name) t u h c =
    put_rule_set-IsConsistent _ t u (unfold insert_rule_set in h) c
run_change-IsConsistent (edit_set id name enabled) t u h c =
    update_rule_set-IsConsistent id name enabled t u h c
run_change-IsConsistent (drop_set id) t u h c = delete_rule_set-IsConsistent id t u h c
run_change-IsConsistent (order_sets ids) t u h c = reorder_rule_sets-IsConsistent ids t u h c
run_change-IsConsistent (add_rule r) t u h c = insert_rule-IsConsistent r t u h c
run_change-IsConsistent (edit_rule r) t u h c = update_rule-IsConsistent r t u h c
run_change-IsConsistent (drop_rule id) t u h c = delete_rule-IsConsistent id t u h c
run_change-IsConsistent (order_rules set ids) t u h c = reorder_rules-IsConsistent set ids t u h c
run_change-IsConsistent (relocate id to_set) t u h c = move_rule-IsConsistent id to_set t u h c
