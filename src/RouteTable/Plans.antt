-- ===== src/RouteTable/Plans.antt =====
-- What a plan for the table says.
use edge_route_gw.Prelude.{
  ℕ, String, Bool, true, false, not, ◌&&◌, List, [], ◌∷◌, any, is_nil, length, Bool-cases, inl, inr,
  ◌≡◌, refl, sym, ap, ◌∙◌, arith,
}
use edge_route_gw.Prelude.Sorting.{SortSlice}
use edge_route_gw.Net.{Prefix, prefix_eq}
use edge_route_gw.Driver.{Plan, planned, changes}
use edge_route_gw.RouteTable.{
  route_table, Listed, listing, list_error, Kernel, PlanState, diff, plan_of, plan_listed, plan,
}
use edge_route_gw.RouteTable.Converge.{IsTable, any-sorted}

any-nil : (p : Prefix) (xs : List Prefix) → is_nil xs ≡ true → any (prefix_eq p) xs ≡ false
any-nil p [] h = refl
any-nil p (x ∷ xs) h = absurd (cc)

plan_of-changes :
    (show_prefix : Prefix → String) (show_nat : ℕ → String) (count : ℕ) (st : PlanState)
    → changes (plan_of show_prefix show_nat count st) ≡ not (is_nil st.add && is_nil st.del)
unfolding plan_of changes
plan_of-changes show_prefix show_nat count st = elim (Bool-cases (is_nil st.add && is_nil st.del)) [
  | inl yes' ↦ rw yes' refl
  | inr no' ↦ rw no' refl
]

same_set :
    (have want adds dels : Bool)
    → adds ≡ false
    → dels ≡ false
    → adds ≡ (want && not have)
    → dels ≡ (have && not want)
    → have ≡ want
same_set have want adds dels a b c d = ground arith

plan_listed-unchanged :
    (sorting : SortSlice Prefix) (show_prefix : Prefix → String) (show_nat : ℕ → String)
    (want : List Prefix) (o : Listed) (q : Plan PlanState) (p : Prefix) (old : Bool)
    → plan_listed sorting show_prefix show_nat want o ≡ planned q
    → changes q ≡ false
    → ((have : List Prefix) → o ≡ listing have → any (prefix_eq p) have ≡ old)
    → old ≡ any (prefix_eq p) want
unfolding diff
plan_listed-unchanged sorting show_prefix show_nat want (list_error why) q p old e h f = absurd (cc)
plan_listed-unchanged sorting show_prefix show_nat want (listing have) q p old e h f =
    let st = diff sorting have want in
    let same : plan_of show_prefix show_nat (length have) st ≡ q = cc in
    let nothing : not (is_nil st.add && is_nil st.del) ≡ false =
      sym (plan_of-changes show_prefix show_nat (length have) st) ∙ ap (λ x. changes x) same ∙ h in
    let no_add : is_nil st.add ≡ true = ground (arith, nothing) in
    let no_del : is_nil st.del ≡ true = ground (arith, nothing) in
    sym (f have refl)
    ∙ same_set (any (prefix_eq p) have) (any (prefix_eq p) want) (any (prefix_eq p) st.add)
        (any (prefix_eq p) st.del) (any-nil p st.add no_add) (any-nil p st.del no_del)
        (any-sorted sorting p want have) (any-sorted sorting p have want)

-- Where the kernel lists a table as the set that it holds, a plan that changes nothing is made only
-- if the table already holds the wanted prefixes and no others.
pub plan-unchanged :
    {W : Type 0} (kernel : Kernel W) (holds : W → ℕ → Prefix → Bool) (sorting : SortSlice Prefix)
    (show_prefix : Prefix → String) (show_nat : ℕ → String) (want : List Prefix) (w : W)
    (q : Plan PlanState) (p : Prefix)
    → IsTable kernel holds
    → plan sorting show_prefix show_nat kernel want w ≡ planned q
    → changes q ≡ false
    → holds w route_table p ≡ any (prefix_eq p) want
unfolding plan diff
plan-unchanged kernel holds sorting show_prefix show_nat want w q p table e h =
    plan_listed-unchanged sorting show_prefix show_nat want (kernel.list w route_table) q p
      (holds w route_table p) e h (λ have l. table.listed route_table w have l p)
