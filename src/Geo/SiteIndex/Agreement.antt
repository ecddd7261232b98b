-- ===== src/Geo/SiteIndex/Agreement.antt =====
-- The index agrees with the matching of one entry after the other.
use edge_route_gw.Prelude.{
  ℕ, String, Bool, true, not, ◌||◌, List, [], ◌∷◌, all, str_eq, ◌≡◌, refl, arith,
}
use edge_route_gw.Prelude.Sorting.{IsSorted}
use edge_route_gw.Text.{is_empty}
use edge_route_gw.Routes.Compute.{plain, root, exact}
use edge_route_gw.Trace.{entry_hit}
use edge_route_gw.Geo.SiteIndex.{SiteRef, Refs, key_less, matching, parents}
use edge_route_gw.Geo.SiteIndex.Runs.{is_in, has_ref, has_regex, is_one_of, matching_lem}
use edge_route_gw.Geo.SiteIndex.Parents.{parents_lem, str_eq_sym}

-- Some entry of the index with the tag number `i` matches the domain.
abbrev pub entry_matches_any : (String → String → Bool) → String → ℕ → Refs → Bool
entry_matches_any regex_matches domain i refs =
    has_regex domain i refs.regex
    || (has_ref (λ r. entry_hit regex_matches plain r.key domain) i refs.keyword
        || (has_ref (λ r. entry_hit regex_matches root r.key domain) i refs.root
            || has_ref (λ r. entry_hit regex_matches exact r.key domain) i refs.full))

module _ (regex_matches : String → String → Bool) (domain : String) (i : ℕ) where
  root_refs :
      (refs : List SiteRef)
      → all (λ r. not (is_empty r.key)) refs ≡ true
      → has_ref (λ r. is_one_of (parents domain) r.key) i refs
        ≡ has_ref (λ r. entry_hit regex_matches root r.key domain) i refs
  root_refs [] h = refl
  root_refs (r ∷ rest) h =
      rw (parents_lem domain r.key (ground arith), root_refs rest (ground arith))

  full_refs :
      (refs : List SiteRef)
      → has_ref (λ r. str_eq r.key domain) i refs
        ≡ has_ref (λ r. entry_hit regex_matches exact r.key domain) i refs
  full_refs [] = refl
  full_refs (r ∷ rest) = rw (str_eq_sym r.key domain, full_refs rest)

  -- In a sorted index without an empty root key the entries that match decide.
  pub matching-entry_hit :
      (refs : Refs)
      → IsSorted key_less refs.full
      → IsSorted key_less refs.root
      → all (λ r. not (is_empty r.key)) refs.root ≡ true
      → is_in i (matching refs domain) ≡ entry_matches_any regex_matches domain i refs
  matching-entry_hit refs full roots keys =
      rw (matching_lem i refs domain full roots, root_refs refs.root keys, full_refs refs.full)
