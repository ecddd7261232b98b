-- ===== src/Reconcile/Pass/Claims.antt =====
-- Which routes are recorded as published.
use edge_route_gw.Prelude.{
  ℕ, Bool, true, false, not, ◌&&◌, List, [], ◌∷◌, map, Option, none, some, all, count_if,
  count_if-append, length, if◌then◌else◌, ◌≡◌, refl, ◌∙◌, arith,
}
use mathlib.Core.List.{map-append}
use edge_route_gw.Prelude.Sorting.{SortSlice}
use edge_route_gw.Net.Text.{NetText}
use edge_route_gw.Model.{Mode, mode_a}
use edge_route_gw.Desired.{Snapshot}
use edge_route_gw.Net.{Prefix}
use edge_route_gw.Routes.{Route, Result, State, pending, published}
use edge_route_gw.Routes.Policy.{
  Protected, policy, check_candidate, sort_out, protected_prefixes, allowlist,
}
use edge_route_gw.Routes.Prune.Coverage.{prune-all}
use edge_route_gw.Routes.Compute.{Sources, compute, Gathered, result_of, gather, unless_mode_a}
use edge_route_gw.Routes.Rows.{row, to_published}
use edge_route_gw.Reconcile.Pass.{mark_row, marked_rows}

abbrev pub is_published : State → Bool
is_published published = true
is_published _ = false

abbrev is_pending : State → Bool
is_pending pending = true
is_pending _ = false

abbrev is_refused : State → Bool
is_refused s = not (is_pending s) && not (is_published s)

abbrev pub claimed : Bool → ℕ → ℕ
claimed claim n = if claim then n else 0

module _ (net : NetText) where
  check-refused :
      (guarded : Protected) (allow : List Prefix) (r r' : Route)
      → check_candidate net guarded allow r ≡ some r'
      → is_refused r'.state ≡ true
  unfolding check_candidate
  check-refused guarded allow r r' h = ground arith

  sort_out-states :
      (o : Option Route) (r : Route) (ok rejected : List Route)
      → ((r' : Route) → o ≡ some r' → is_refused r'.state ≡ true)
      → all (λ r. is_pending r.state) ok ≡ true
      → all (λ r. is_refused r.state) rejected ≡ true
      → (all (λ r. is_pending r.state) (sort_out o r (ok, rejected)).0 ≡ true)
        × (all (λ r. is_refused r.state) (sort_out o r (ok, rejected)).1 ≡ true)
  sort_out-states none r ok rejected f h k = (h, k)
  sort_out-states (some r') r ok rejected f h k = (h, ground (arith, f r'))

  policy-states :
      (guarded : Protected) (allow : List Prefix) (rs : List Route)
      → (all (λ r. is_pending r.state) (policy net guarded allow rs).0 ≡ true)
        × (all (λ r. is_refused r.state) (policy net guarded allow rs).1 ≡ true)
  unfolding policy
  policy-states guarded allow [] = (refl, refl)
  policy-states guarded allow (r ∷ rs) =
      let (h, k) = policy-states guarded allow rs in
      sort_out-states (check_candidate net guarded allow r) r (policy net guarded allow rs).0
        (policy net guarded allow rs).1 (check-refused guarded allow r) h k

  count-marked_pending :
      (claim : Bool) (rs : List Route)
      → all (λ r. is_pending r.state) rs ≡ true
      → count_if (λ q. is_published q.state) (map (mark_row claim) (map (row net) rs))
        ≡ claimed claim (length rs)
  count-marked_pending claim [] h = ground arith
  count-marked_pending claim (r ∷ rs) h = ground (arith, count-marked_pending claim rs)

  count-marked_refused :
      (claim : Bool) (rs : List Route)
      → all (λ r. is_refused r.state) rs ≡ true
      → count_if (λ q. is_published q.state) (map (mark_row claim) (map (row net) rs)) ≡ 0
  count-marked_refused claim [] h = refl
  count-marked_refused claim (r ∷ rs) h = ground (arith, count-marked_refused claim rs)

  marked_result :
      (claim : Bool) (res : Result)
      → all (λ r. is_pending r.state) res.publish ≡ true
      → all (λ r. is_refused r.state) res.rejected ≡ true
      → count_if (λ q. is_published q.state) (marked_rows claim (to_published net res))
        ≡ claimed claim (length res.publish)
  unfolding marked_rows to_published
  marked_result claim res h k = rw (map-append) (
      count_if-append (λ q. is_published q.state) (map (mark_row claim) (map (row net) res.publish))
        (map (mark_row claim) (map (row net) res.rejected))
      ∙ omega (
        arith,
        count-marked_pending claim res.publish h,
        count-marked_refused claim res.rejected k,
      ))

  module _ (sorting : SortSlice Route) (s : Snapshot) (src : Sources) where
    result_of-states :
        (g : Gathered)
        → (all (λ r. is_pending r.state) (result_of net sorting s g).publish ≡ true)
          × (all (λ r. is_refused r.state) (result_of net sorting s g).rejected ≡ true)
    unfolding result_of
    result_of-states g =
        let guarded = protected_prefixes net s in
        let allow = allowlist net s.network.ospf_publish_allow in
        let (h, k) = policy-states guarded allow g.cands in
        (prune-all sorting (λ r. is_pending r.state) (policy net guarded allow g.cands).0 h, k)

    unless_mode_a-marked :
        (claim : Bool) (m : Mode) (res : Result)
        → (all (λ r. is_pending r.state) res.publish ≡ true)
          × (all (λ r. is_refused r.state) res.rejected ≡ true)
        → count_if
            (λ q. is_published q.state)
            (marked_rows claim (to_published net (unless_mode_a m res)))
          ≡ claimed claim (length (unless_mode_a m res).publish)
    unless_mode_a-marked claim mode_a res h = marked_result claim _ refl refl
    unless_mode_a-marked claim m res (h, k) = marked_result claim res h k

    -- Of the rows that are recorded for the routes of a snapshot, as many say "published" as there
    -- are routes to publish if it is claimed that they are announced, and none of them if not.
    pub count-marked_rows :
        (claim : Bool)
        → count_if
            (λ q. is_published q.state)
            (marked_rows claim (to_published net (compute net sorting s src)))
          ≡ claimed claim (length (compute net sorting s src).publish)
    unfolding compute
    count-marked_rows claim =
        unless_mode_a-marked claim s.network.mode _ (result_of-states (gather net s src))
