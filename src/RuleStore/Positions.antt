-- ===== src/RuleStore/Positions.antt =====
-- The positions that a reorder gives.
use mathlib.Core.List.{Memᴰ}
use edge_route_gw.Prelude.{
  ℕ, suc, ◌+◌, String, true, false, List, [], ◌∷◌, ◌++◌, Option, none, some, any, map, length,
  ==_iff, is_nil, ◌⊎◌, str_eq, if◌then◌else◌, ◌≡◌, refl, sym, ap, ◌∙◌, arith, Bool-cases, inl, inr,
  eq_iff,
}
use edge_route_gw.Model.{RuleSet}
use edge_route_gw.RuleStore.Integrity.{has_id, distinct}
use edge_route_gw.RuleStore.Results.{affected_one-ok, two_steps-ok, unless-ok, not-false}
use edge_route_gw.RuleStore.{
  wrong_count, builtin_rule_set, Tables, ok, is_set, change_set, place_set, place_sets, builtin_id,
  is_moved, reorder_rule_sets,
}

-- The position of the set with an id.
abbrev pub position_of : String → List RuleSet → Option ℕ
position_of id [] = none
position_of id (rs ∷ rest) =
    let later = position_of id rest in if is_set id rs then some rs.position else later

-- Every set but its position.
abbrev pub without_position : RuleSet → RuleSet
without_position rs = record rs { position = 0 }

placed_here :
    (i : ℕ) (id : String) (sets : List RuleSet)
    → any (is_set id) sets ≡ true
    → position_of id (change_set id (λ rs. record rs { position = i }) sets) ≡ some i
placed_here i id [] h = cc
placed_here i id (rs ∷ rest) h = elim (Bool-cases (is_set id rs)) [
  | inl e ↦ rw (e, e)
  | inr e ↦ rw (e, e) (placed_here i id rest (ground (arith, e)))
]

placed_elsewhere :
    (i : ℕ) (id other : String) (sets : List RuleSet)
    → str_eq id other ≡ false
    → position_of other (change_set id (λ rs. record rs { position = i }) sets)
      ≡ position_of other sets
placed_elsewhere i id other [] h = refl
placed_elsewhere i id other (rs ∷ rest) h = elim (Bool-cases (is_set id rs)) [
  | inl e ↦
      let same : rs.id ≡ id = (eq_iff rs.id id).0 e in
      let ne : str_eq rs.id other ≡ false = ap (λ x. str_eq x other) same ∙ h in
      rw (e, ne) (placed_elsewhere i id other rest h)
  | inr e ↦ rw (e, placed_elsewhere i id other rest h)
]

change_set-without_position :
    (i : ℕ) (id : String) (sets : List RuleSet)
    → map without_position (change_set id (λ rs. record rs { position = i }) sets)
      ≡ map without_position sets
change_set-without_position i id [] = refl
change_set-without_position i id (rs ∷ rest) = elim (Bool-cases (is_set id rs)) [
  | inl e ↦ rw e (ap (λ l. without_position rs ∷ l) (change_set-without_position i id rest))
  | inr e ↦ rw e (ap (λ l. without_position rs ∷ l) (change_set-without_position i id rest))
]

-- What one step of the loop does.
abbrev pub Placed : ℕ → String → Tables → Tables → Type 0
Placed i id t u =
    (any (is_set id) t.rule_sets ≡ true)
    × (u ≡ record t { rule_sets = change_set id (λ rs. record rs { position = i }) t.rule_sets })

place_sets_step :
    (i : ℕ) (id : String) (rest : List String) (t u : Tables)
    → place_sets i (id ∷ rest) t ≡ ok u
    → (v : Tables) × Placed i id t v × (place_sets (suc i) rest v ≡ ok u)
unfolding place_sets
place_sets_step i id rest t u h =
    let (v, one, more) = two_steps-ok (place_set i id t) (place_sets (suc i) rest) u h in
    (v, affected_one-ok _ _ v one, more)

-- A set that the list does not name keeps its position.
place_sets_elsewhere :
    (i : ℕ) (ids : List String) (id : String) (t u : Tables)
    → place_sets i ids t ≡ ok u
    → any (λ x. str_eq x id) ids ≡ false
    → position_of id u.rule_sets ≡ position_of id t.rule_sets
unfolding place_sets
place_sets_elsewhere i [] id t u h k =
    let e : t ≡ u = cc in ap (λ v. position_of id v.rule_sets) (sym e)
place_sets_elsewhere i (x ∷ rest) id t u h k =
    let (v, (there, e), more) = place_sets_step i x rest t u h in
    place_sets_elsewhere (suc i) rest id v u more (ground arith)
    ∙ ap (λ w. position_of id w.rule_sets) e
    ∙ placed_elsewhere i x id t.rule_sets (ground arith)

-- The last place at which the list names a set is its position.
place_sets_at :
    (i : ℕ) (pre post : List String) (id : String) (t u : Tables)
    → place_sets i (pre ++ id ∷ post) t ≡ ok u
    → any (λ x. str_eq x id) post ≡ false
    → position_of id u.rule_sets ≡ some (i + length pre)
place_sets_at i [] post id t u h k =
    let (v, (there, e), more) = place_sets_step i id post t u h in
    place_sets_elsewhere (suc i) post id v u more k
    ∙ ap (λ w. position_of id w.rule_sets) e
    ∙ placed_here i id t.rule_sets there
    ∙ ap some (omega arith)
place_sets_at i (x ∷ pre) post id t u h k =
    let (v, placed, more) = place_sets_step i x (pre ++ id ∷ post) t u h in
    place_sets_at (suc i) pre post id v u more k ∙ ap some (omega arith)

-- Nothing but positions changes.
place_sets_keep :
    (i : ℕ) (ids : List String) (t u : Tables)
    → place_sets i ids t ≡ ok u
    → (map without_position u.rule_sets ≡ map without_position t.rule_sets) × (u.rules ≡ t.rules)
unfolding place_sets
place_sets_keep i [] t u h =
    let e : u ≡ t = cc in (ap (λ v. map without_position v.rule_sets) e, ap (λ v. v.rules) e)
place_sets_keep i (x ∷ rest) t u h =
    let (v, (there, e), more) = place_sets_step i x rest t u h in
    let (same, rules) = place_sets_keep (suc i) rest v u more in
    (
      same
          ∙ ap (λ w. map without_position w.rule_sets) e
          ∙ change_set-without_position i x t.rule_sets,
      rules ∙ ap (λ w. w.rules) e,
    )

-- A list of ids in which an id stands once.
distinct-last :
    (xs ys : List String) (y : String) → distinct (xs ++ y ∷ ys) ≡ true → has_id y ys ≡ false
distinct-last [] ys y h = ground arith
distinct-last (x ∷ xs) ys y h = ground (arith, distinct-last xs ys y)

-- No set is built-in, or one that is has the first position.
abbrev pub IsBuiltinFirst : List RuleSet → Tables → Type 0
IsBuiltinFirst sets u =
    (any (λ rs. rs.builtin) sets ≡ false)
    ⊎ ((b : RuleSet) × Memᴰ b sets × (b.builtin ≡ true) × (position_of b.id u.rule_sets ≡ some 0))

builtin_id-cases :
    (sets : List RuleSet)
    → (any (λ rs. rs.builtin) sets ≡ false)
      ⊎ ((b : RuleSet) × Memᴰ b sets × (b.builtin ≡ true) × (builtin_id sets ≡ some b.id))
unfolding builtin_id
builtin_id-cases [] = inl refl
builtin_id-cases (rs ∷ rest) = elim (Bool-cases rs.builtin) [
  | inl e ↦ inr (rs, Memᴰ.head refl, e, rw e refl)
  | inr e ↦ elim (builtin_id-cases rest) [
    | inl no' ↦ inl (rw e no')
    | inr (b, m, mark, id) ↦ inr (b, Memᴰ.tail m, mark, rw e id)
  ]
]

placed_first :
    (b : String) (ids : List String) (t u : Tables)
    → place_sets 0 ids t ≡ ok u
    → is_nil ids ≡ false
    → distinct ids ≡ true
    → is_moved (some b) ids ≡ false
    → position_of b u.rule_sets ≡ some 0
placed_first b [] t u run n d first = absurd (cc)
placed_first b (id ∷ rest) t u run n d first =
    let same : id ≡ b = (eq_iff id b).0 (not-false _ first) in
    ap (λ x. position_of x u.rule_sets) (sym same)
    ∙ place_sets_at 0 [] rest id t u run (distinct-last [] rest id d)

is_nil-middle : (xs ys : List String) (y : String) → is_nil (xs ++ y ∷ ys) ≡ false
is_nil-middle [] ys y = refl
is_nil-middle (x ∷ xs) ys y = refl

builtin_first :
    (ids : List String) (t u : Tables)
    → place_sets 0 ids t ≡ ok u
    → is_nil ids ≡ false
    → distinct ids ≡ true
    → is_moved (builtin_id t.rule_sets) ids ≡ false
    → IsBuiltinFirst t.rule_sets u
builtin_first ids t u run n d first = elim (builtin_id-cases t.rule_sets) [
  | inl no' ↦ inl no'
  | inr (b, m, mark, found) ↦
      inr (
        b,
        m,
        mark,
        placed_first b.id ids t u run n d (ap (λ o. is_moved o ids) (sym found) ∙ first),
      )
]

-- A reorder by a list that names no id twice and succeeds was given as many ids as there are sets. It
-- gives each set that is named its place in the list, a built-in set gets the first place if
-- there is one, and nothing but positions changes.
pub reorder_rule_sets-ok :
    (pre post : List String) (id : String) (t u : Tables)
    → reorder_rule_sets (pre ++ id ∷ post) t ≡ ok u
    → distinct (pre ++ id ∷ post) ≡ true
    → (length t.rule_sets ≡ length (pre ++ id ∷ post))
      × IsBuiltinFirst t.rule_sets u
      × (position_of id u.rule_sets ≡ some (length pre))
      × (map without_position u.rule_sets ≡ map without_position t.rule_sets)
      × (u.rules ≡ t.rules)
unfolding reorder_rule_sets
reorder_rule_sets-ok pre post id t u h d =
    let (same_count, rest) = unless-ok _ wrong_count _ h in
    let (first, run) = unless-ok _ builtin_rule_set _ rest in
    let (same, rules) = place_sets_keep 0 (pre ++ id ∷ post) t u run in
    (
      (==_iff _ _).0 (not-false _ same_count),
      builtin_first (pre ++ id ∷ post) t u run (is_nil-middle pre post id) d first,
      place_sets_at 0 pre post id t u run (distinct-last pre post id d) ∙ ap some (omega arith),
      same,
      rules,
    )
