-- ===== src/RouteTable/Converge.antt =====
-- What an apply leaves in the table.
use edge_route_gw.Prelude.{
  ℕ, zero, suc, ◌≤◌, String, Bool, true, false, not, ◌&&◌, ◌||◌, List, [], ◌∷◌, Option, none, some,
  ◌==◌, any, take, drop, any-drop, any-perm, is_nil, length, length-drop, Bool-cases, inl, inr, ◌≡◌,
  refl, sym, ap, ◌∙◌, arith,
}
use edge_route_gw.Prelude.Sorting.{SortSlice}
use edge_route_gw.Net.{Addr, v4, v6, Prefix, addr_eq, prefix_eq}
use edge_route_gw.RouteTable.{
  route_table, listing, Kernel, PlanState, TableDriver, Pace, prefix_less, missing, diff, go_on,
  pause, paced, after_adds, after_dels, batch_size, apply_state,
}

-- Prefixes that the test does not tell apart are the same.
addr_eq_sound : (a b : Addr) → addr_eq a b ≡ true → a ≡ b
addr_eq_sound (v4 m) (v4 n) h = ground arith
addr_eq_sound (v4 m) (v6 n) h = absurd (cc)
addr_eq_sound (v6 m) (v4 n) h = absurd (cc)
addr_eq_sound (v6 m) (v6 n) h = ground arith

prefix_eq_sound : (p q : Prefix) → prefix_eq p q ≡ true → p ≡ q
prefix_eq_sound p q h = ground (arith, addr_eq_sound p.addr q.addr)

-- The prefixes that are missing, as a set.
any-missing_same :
    (p x : Prefix) (xs ys : List Prefix)
    → prefix_eq p x ≡ true
    → p ≡ x
    → any (prefix_eq p) (missing xs ys) ≡ (any (prefix_eq p) xs && not (any (prefix_eq p) ys))
    → any (prefix_eq p) (missing (x ∷ xs) ys)
      ≡ (any (prefix_eq p) (x ∷ xs) && not (any (prefix_eq p) ys))
any-missing_same p x xs ys h e ih =
    let same : any (prefix_eq p) ys ≡ any (prefix_eq x) ys = ap (λ q. any (prefix_eq q) ys) e in
    ground (arith, h, ih, same)

pub any-missing :
    (p : Prefix) (xs ys : List Prefix)
    → any (prefix_eq p) (missing xs ys) ≡ (any (prefix_eq p) xs && not (any (prefix_eq p) ys))
any-missing p [] ys = refl
any-missing p (x ∷ xs) ys = elim (Bool-cases (prefix_eq p x)) [
  | inl yes' ↦
      let e : p ≡ x = prefix_eq_sound p x yes' in
      any-missing_same p x xs ys yes' e (any-missing p xs ys)
  | inr no' ↦ ground (arith, any-missing p xs ys)
]

module _ {W : Type 0} where
  -- What a call that succeeds makes of one observation of the world: `op` of what it was and of
  -- whether the list hits it.
  module _ (op : Bool → Bool → Bool) (op-twice : (o a b : Bool) → op (op o a) b ≡ op o (a || b))
      (op-nothing : (o : Bool) → op o false ≡ o) (look : W → Bool) (hit : Prefix → Bool)
      (fn : List Prefix → W → W × Option String)
      (law : (ps : List Prefix) (w : W)
        → (fn ps w).1 ≡ none
        → look (fn ps w).0 ≡ op (look w) (any hit ps))
      (pace : Pace W) (batch : ℕ) where
    go_on-none :
        (e : Option String) (last : Bool) (nap : Option String) (w : W) (more : W × Option String)
        → (go_on e last nap w more).1 ≡ none
        → (e ≡ none) × (more.1 ≡ none) × (go_on e last nap w more ≡ more)
    go_on-none (some why) last nap w more h = absurd (cc)
    go_on-none none true nap w more h = (refl, h, refl)
    go_on-none none false (some why) w more h = absurd (cc)
    go_on-none none false none w more h = (refl, h, refl)

    -- The batches have together the effect of one call on the whole list.
    pub paced-effect :
        (n : ℕ) (ps : List Prefix) (w : W)
        → (paced fn pace batch n ps w).1 ≡ none
        → look (paced fn pace batch n ps w).0 ≡ op (look w) (any hit ps)
    unfolding paced
    paced-effect n [] w h = sym (op-nothing (look w))
    paced-effect zero (p ∷ ps) w h = absurd (cc)
    paced-effect (suc n) (p ∷ ps) w h =
        let xs = p ∷ ps in
        let (w', e) = fn (take batch xs) w in
        let rest = drop batch xs in
        let more = paced fn pace batch n rest w' in
        let (e_none, more_none, same) = go_on-none e (is_nil rest) (pause pace w') w' more h in
        ap (λ x. look x.0) same
        ∙ paced-effect n rest w' more_none
        ∙ ap (λ o. op o (any hit rest)) (law (take batch xs) w e_none)
        ∙ op-twice (look w) (any hit (take batch xs)) (any hit rest)
        ∙ ap (op (look w)) (any-drop hit batch xs)

  go_on-total :
      (e : Option String) (last : Bool) (nap : Option String) (w : W) (more : W × Option String)
      → e ≡ none
      → nap ≡ none
      → more.1 ≡ none
      → (go_on e last nap w more).1 ≡ none
  go_on-total (some why) last nap w more h k m = absurd (cc)
  go_on-total none true nap w more h k m = m
  go_on-total none false (some why) w more h k m = absurd (cc)
  go_on-total none false none w more h k m = m

  -- If no call and no pause fails, the fuel that is given is enough.
  pub paced-none :
      (fn : List Prefix → W → W × Option String) (pace : Pace W) (batch n : ℕ) (ps : List Prefix)
      (w : W)
      → ((qs : List Prefix) (v : W) → (fn qs v).1 ≡ none)
      → ((t : ℕ) (v : W) → pace.sleep t v ≡ none)
      → 1 ≤ batch
      → length ps ≤ n
      → (paced fn pace batch n ps w).1 ≡ none
  unfolding paced
  paced-none fn pace batch n [] w f g b h = refl
  paced-none fn pace batch zero (p ∷ ps) w f g b h = absurd (omega arith)
  paced-none fn pace batch (suc n) (p ∷ ps) w f g b h =
      let xs = p ∷ ps in
      let w' = (fn (take batch xs) w).0 in
      let rest = drop batch xs in
      go_on-total (fn (take batch xs) w).1 (is_nil rest) (pause pace w') w'
        (paced fn pace batch n rest w') (f (take batch xs) w) (ground (arith, g pace.interval w'))
        (paced-none fn pace batch n rest w' f g b (omega (arith, length-drop batch xs)))

-- What the driver relies on: a table is a set of prefixes, a listing shows it, and a call that
-- succeeds adds or deletes its prefixes there and touches no other table.
pub record IsTable {W : Type 0} (kernel : Kernel W) (holds : W → ℕ → Prefix → Bool) : Type 0 where
  pub listed :
      (t : ℕ) (w : W) (have : List Prefix)
      → kernel.list w t ≡ listing have
      → (p : Prefix) → any (prefix_eq p) have ≡ holds w t p
  pub added :
      (t : ℕ) (ps : List Prefix) (w : W)
      → (kernel.add t ps w).1 ≡ none
      → (u : ℕ) (p : Prefix)
      → holds (kernel.add t ps w).0 u p ≡ (holds w u p || ((t == u) && any (prefix_eq p) ps))
  pub deleted :
      (t : ℕ) (ps : List Prefix) (w : W)
      → (kernel.del t ps w).1 ≡ none
      → (u : ℕ) (p : Prefix)
      → holds (kernel.del t ps w).0 u p ≡ (holds w u p && not ((t == u) && any (prefix_eq p) ps))

module _ {W : Type 0} (kernel : Kernel W) (pace : Pace W) (size : ℕ) where
  after_adds-none :
      (d : TableDriver) (x : W × Option String)
      → (after_adds kernel d x).1 ≡ none
      → (x.1 ≡ none) × ((after_adds kernel d x).0.0 ≡ x.0)
  after_adds-none d (w, some why) h = absurd (cc)
  after_adds-none d (w, none) h = (refl, refl)

  after_dels-none :
      (st : PlanState) (d : TableDriver) (x : W × Option String)
      → (after_dels kernel pace size st d x).1 ≡ none
      → (x.1 ≡ none)
        × ((paced (kernel.add route_table) pace size (length st.add) st.add x.0).1 ≡ none)
        × ((after_dels kernel pace size st d x).0.0
            ≡ (paced (kernel.add route_table) pace size (length st.add) st.add x.0).0)
  after_dels-none st d (w, some why) h = absurd (cc)
  after_dels-none st d (w, none) h =
      let (ok, same) =
        after_adds-none d (paced (kernel.add route_table) pace size (length st.add) st.add w) h in
      (refl, ok, same)

  module _ (holds : W → ℕ → Prefix → Bool) (table : IsTable kernel holds) (p : Prefix) where
    added_in_batches :
        (ps : List Prefix) (w : W)
        → (paced (kernel.add route_table) pace size (length ps) ps w).1 ≡ none
        → holds (paced (kernel.add route_table) pace size (length ps) ps w).0 route_table p
          ≡ (holds w route_table p || any (prefix_eq p) ps)
    added_in_batches ps w h =
        paced-effect (λ o a. o || a) (λ o a b. ground arith) (λ o. ground arith)
          (λ v. holds v route_table p) (prefix_eq p) (kernel.add route_table)
          (λ qs v e. table.added route_table qs v e route_table p) pace size (length ps) ps w h

    deleted_in_batches :
        (ps : List Prefix) (w : W)
        → (paced (kernel.del route_table) pace size (length ps) ps w).1 ≡ none
        → holds (paced (kernel.del route_table) pace size (length ps) ps w).0 route_table p
          ≡ (holds w route_table p && not (any (prefix_eq p) ps))
    deleted_in_batches ps w h =
        paced-effect (λ o a. o && not a) (λ o a b. ground arith) (λ o. ground arith)
          (λ v. holds v route_table p) (prefix_eq p) (kernel.del route_table)
          (λ qs v e. table.deleted route_table qs v e route_table p) pace size (length ps) ps w h

  after_adds-total :
      (d : TableDriver) (x : W × Option String) → x.1 ≡ none → (after_adds kernel d x).1 ≡ none
  after_adds-total d (w, some why) h = absurd (cc)
  after_adds-total d (w, none) h = refl

  after_dels-total :
      (st : PlanState) (d : TableDriver) (x : W × Option String)
      → x.1 ≡ none
      → ((v : W) → (paced (kernel.add route_table) pace size (length st.add) st.add v).1 ≡ none)
      → (after_dels kernel pace size st d x).1 ≡ none
  after_dels-total st d (w, some why) h f = absurd (cc)
  after_dels-total st d (w, none) h f = after_adds-total d _ (f w)

-- The old set without what is not wanted, and with what was missing, is the wanted set.
set_step :
    (old have want adds dels mid : Bool)
    → mid ≡ (old && not dels)
    → have ≡ old
    → adds ≡ (want && not have)
    → dels ≡ (have && not want)
    → (mid || adds) ≡ want
set_step old have want adds dels mid a b c d = ground arith

pub any-sorted :
    (sorting : SortSlice Prefix) (p : Prefix) (xs ys : List Prefix)
    → any (prefix_eq p) (sorting.sort prefix_less (missing xs ys))
      ≡ (any (prefix_eq p) xs && not (any (prefix_eq p) ys))
any-sorted sorting p xs ys =
    any-perm (prefix_eq p) (sorting.same_items prefix_less (missing xs ys)) ∙ any-missing p xs ys

-- Where the calls of the kernel that succeed do what they say: if the table is listed, and applying
-- the difference between it and the wanted prefixes ends without an error, then the table holds the
-- wanted prefixes and no others.
pub apply_state-holds :
    {W : Type 0} (kernel : Kernel W) (holds : W → ℕ → Prefix → Bool) (sorting : SortSlice Prefix)
    (pace : Pace W) (have want : List Prefix) (w : W) (d : TableDriver) (p : Prefix)
    → IsTable kernel holds
    → kernel.list w route_table ≡ listing have
    → (apply_state kernel pace (diff sorting have want) w d).1 ≡ none
    → holds (apply_state kernel pace (diff sorting have want) w d).0.0 route_table p
      ≡ any (prefix_eq p) want
unfolding apply_state diff
apply_state-holds kernel holds sorting pace have want w d p table l h =
    let st = diff sorting have want in
    let size = batch_size pace.batch in
    let x = paced (kernel.del route_table) pace size (length st.del) st.del w in
    let (del_ok, add_ok, same) = after_dels-none kernel pace size st d x h in
    let added = added_in_batches kernel pace size holds table p st.add x.0 add_ok in
    let gone = deleted_in_batches kernel pace size holds table p st.del w del_ok in
    ap (λ v. holds v route_table p) same
    ∙ added
    ∙ set_step (holds w route_table p) (any (prefix_eq p) have) (any (prefix_eq p) want)
        (any (prefix_eq p) st.add) (any (prefix_eq p) st.del) (holds x.0 route_table p) gone
        (table.listed route_table w have l p) (any-sorted sorting p want have)
        (any-sorted sorting p have want)

-- If neither the kernel nor the pause fails, applying the difference ends without an error.
pub apply_state-none :
    {W : Type 0} (kernel : Kernel W) (pace : Pace W) (st : PlanState) (w : W) (d : TableDriver)
    → ((t : ℕ) (ps : List Prefix) (v : W) → (kernel.add t ps v).1 ≡ none)
    → ((t : ℕ) (ps : List Prefix) (v : W) → (kernel.del t ps v).1 ≡ none)
    → ((t : ℕ) (v : W) → pace.sleep t v ≡ none)
    → (apply_state kernel pace st w d).1 ≡ none
unfolding apply_state
apply_state-none kernel pace st w d f g s =
    let size = batch_size pace.batch in
    let some_batch : 1 ≤ batch_size pace.batch = ground arith in
    after_dels-total kernel pace size st d
      (paced (kernel.del route_table) pace size (length st.del) st.del w)
      (paced-none (kernel.del route_table) pace size (length st.del) st.del w (g route_table) s
        some_batch (omega arith))
      (λ v.
        paced-none (kernel.add route_table) pace size (length st.add) st.add v (f route_table) s
          some_batch (omega arith))
