-- ===== src/Routes/Prune/Coverage.antt =====
-- Pruning keeps the addresses that are announced, and announces each of them once.
use edge_route_gw.Prelude.{
  ℕ, Bool, true, false, ◌||◌, List, [], ◌∷◌, ◌++◌, leb, any, if◌then◌else◌, ◌≡◌, refl, arith,
  count_if, count_if-append, count_if-perm, all, ◌≤◌, any_eq_of_count_if, any-append, all-perm,
  all-append, all_mono, ◌∙◌,
}
use edge_route_gw.Prelude.Sorting.{SortSlice, IsStrictWeak, IsSorted, IsChainFrom}
use edge_route_gw.Net.{Addr, contains}
use edge_route_gw.Net.Prefixes.{contains-covers, nested}
use edge_route_gw.Routes.{Route}
use edge_route_gw.Routes.Prune.{broader_first, by_address, covered, drop_covered, prune}

broader_first-IsStrictWeak : IsStrictWeak broader_first
broader_first-IsStrictWeak = record {
  asym = λ a b h. ground arith;
  not_less_trans = λ a b c h k. ground arith;
}

by_address-IsStrictWeak : IsStrictWeak by_address
by_address-IsStrictWeak = record {
  asym = λ a b h. ground arith;
  not_less_trans = λ a b c h k. ground arith;
}

-- Whether a route announces an address.
abbrev pub announces : Addr → Route → Bool
announces x r = contains r.prefix x

abbrev pub one_if : Bool → ℕ
one_if true = 1
one_if false = 0

-- No route of the list has more bits.
abbrev IsBroad : ℕ → List Route → Type 0
IsBroad bits out = all (λ o. leb o.prefix.bits bits) out ≡ true

module _ (x : Addr) where
  any_of_covered :
      (out : List Route) (r : Route)
      → covered out r ≡ true
      → contains r.prefix x ≡ true
      → any (announces x) out ≡ true
  any_of_covered [] r h e = cc
  any_of_covered (o ∷ out) r h e =
      ground (arith, contains-covers o.prefix r.prefix x, any_of_covered out r)

  covered_of_any :
      (out : List Route) (r : Route)
      → IsBroad r.prefix.bits out
      → any (announces x) out ≡ true
      → contains r.prefix x ≡ true
      → covered out r ≡ true
  covered_of_any [] r b h e = cc
  covered_of_any (o ∷ out) r b h e =
      ground (arith, nested o.prefix r.prefix x, covered_of_any out r)

  -- What one round keeps.
  abbrev after : List Route → Route → List Route
  after out r = if covered out r then out else out ++ r ∷ []

  any-after :
      (out : List Route) (r : Route)
      → any (announces x) (after out r) ≡ (any (announces x) out || contains r.prefix x)
  any-after out r = ground (arith, any_of_covered out r, any-append (announces x) out (r ∷ []))

  count-after :
      (out : List Route) (r : Route)
      → IsBroad r.prefix.bits out
      → count_if (announces x) out ≡ one_if (any (announces x) out)
      → count_if (announces x) (after out r) ≡ one_if (any (announces x) (after out r))
  count-after out r b h = ground (
    arith,
    covered_of_any out r b,
    any-append (announces x) out (r ∷ []),
    count_if-append (announces x) out (r ∷ []),
  )

  after-IsBroad :
      (out : List Route) (r s : Route)
      → broader_first s r ≡ false
      → IsBroad r.prefix.bits out
      → IsBroad s.prefix.bits (after out r)
  after-IsBroad out r s h b =
      let le : r.prefix.bits ≤ s.prefix.bits = ground arith in
      ground (
        arith,
        all_mono (λ o. leb o.prefix.bits r.prefix.bits) (λ o. leb o.prefix.bits s.prefix.bits) out
            (λ o e. ground arith),
        all-append (λ o. leb o.prefix.bits s.prefix.bits) out (r ∷ []),
      )

  drop_covered_once :
      (out : List Route) (r : Route) (rs : List Route)
      → IsBroad r.prefix.bits out
      → IsChainFrom broader_first r rs
      → count_if (announces x) out ≡ one_if (any (announces x) out)
      → count_if (announces x) (drop_covered out (r ∷ rs))
        ≡ one_if (any (announces x) out || any (announces x) (r ∷ rs))
  unfolding drop_covered
  drop_covered_once out r [] b c h = ground (arith, count-after out r b h, any-after out r)
  drop_covered_once out r (s ∷ rs) b (c, cs) h =
      let ih =
        drop_covered_once (after out r) s rs (after-IsBroad out r s c b) cs
          (count-after out r b h) in
      ground (arith, ih, any-after out r)

  drop_covered_sorted :
      (rs : List Route)
      → IsSorted broader_first rs
      → count_if (announces x) (drop_covered [] rs) ≡ one_if (any (announces x) rs)
  unfolding drop_covered
  drop_covered_sorted [] h = refl
  drop_covered_sorted (r ∷ rs) h = drop_covered_once [] r rs refl h refl

module _ (sorting : SortSlice Route) where
  -- An address that some candidate announces is announced by just one route after pruning, and
  -- any other address by none.
  pub count-prune :
      (rs : List Route) (x : Addr)
      → count_if (λ r. contains r.prefix x) (prune sorting rs)
        ≡ (if any (λ r. contains r.prefix x) rs then 1 else 0)
  unfolding prune
  count-prune rs x =
      let ordered = sorting.sort broader_first rs in
      let same = count_if-perm (announces x) (sorting.same_items broader_first rs) in
      let once =
        drop_covered_sorted x ordered
          (sorting.in_order broader_first rs broader_first-IsStrictWeak) in
      let final =
        count_if-perm (announces x) (sorting.same_items by_address (drop_covered [] ordered)) in
      final ∙ once ∙ ground (arith, any_eq_of_count_if (announces x) ordered rs same)

  -- The published routes stand in the order of their addresses.
  pub prune-IsSorted : (rs : List Route) → IsSorted by_address (prune sorting rs)
  unfolding prune
  prune-IsSorted rs = sorting.in_order by_address _ by_address-IsStrictWeak

  drop_covered-all :
      (p : Route → Bool) (out rs : List Route)
      → all p out ≡ true
      → all p rs ≡ true
      → all p (drop_covered out rs) ≡ true
  unfolding drop_covered
  drop_covered-all p out [] h k = h
  drop_covered-all p out (r ∷ rs) h k =
      drop_covered-all p (if covered out r then out else out ++ r ∷ []) rs
        (ground (arith, all-append p out (r ∷ []))) (ground arith)

  -- What holds of all candidates holds of the routes that are left.
  pub prune-all :
      (p : Route → Bool) (rs : List Route) → all p rs ≡ true → all p (prune sorting rs) ≡ true
  unfolding prune
  prune-all p rs h =
      all-perm p (sorting.same_items by_address _)
      ∙ drop_covered-all p [] (sorting.sort broader_first rs) refl
          (all-perm p (sorting.same_items broader_first rs) ∙ h)
