-- ===== src/Geo/SiteIndex/Built.antt =====
-- What the index finds that `ensure` has built from the file.
use edge_route_gw.Prelude.{
  ℕ, zero, suc, ◌%◌, ◌^◌, String, Bool, false, ◌&&◌, ◌||◌, List, [], ◌∷◌, Option, none, some, any,
  ◌==◌,
}
use edge_route_gw.Text.{to_lower}
use edge_route_gw.Routes.Compute.{plain, root, exact}
use edge_route_gw.Trace.{entry_hit}
use edge_route_gw.Geo.{Wire}
use edge_route_gw.Geo.Sites.{Entry, DomainKind, plain, regex, root, full, unknown, decode_geosite}
use edge_route_gw.Geo.IpIndex.{Calls}
use edge_route_gw.Geo.Reader.{Answer, found, failed, endless, Reader, items_uncached}
use edge_route_gw.Geo.SiteIndex.{SiteIndex, Refs}
use edge_route_gw.Geo.SiteIndex.Runs.{has_ref, has_regex}
use edge_route_gw.Geo.SiteIndex.Agreement.{entry_matches_any}

abbrev accepted : Option (String → Bool) → String → Bool
accepted none domain = false
accepted (some matches) domain = matches domain

-- What the file gives for each tag, one after the other.
abbrev pub answers : Wire → Calls → List String → Reader Entry → List (Answer (List Entry))
answers w calls [] src = []
answers w calls (tag ∷ rest) src =
    let (src', a) = items_uncached (decode_geosite w) w (calls.tag tag) tag src in
    a ∷ answers w calls rest src'

module _ (compile : String → Option (String → Bool)) (regex_matches : String → String → Bool)
    (domain : String) where
  -- One entry of the file matches the domain: a full, a root or a keyword entry as the trace matches
  -- it once its value is in lower case, and a pattern if it compiles and accepts the domain.
  abbrev kind_hit : DomainKind → String → Bool
  kind_hit full v = entry_hit regex_matches exact (to_lower v) domain
  kind_hit root v = entry_hit regex_matches root (to_lower v) domain
  kind_hit plain v = entry_hit regex_matches plain (to_lower v) domain
  kind_hit regex v = accepted (compile v) domain
  kind_hit unknown v = false

  -- The tag could be read, and one of its entries matches.
  abbrev pub answer_hit : Answer (List Entry) → Bool
  answer_hit (found entries) = any (λ e. kind_hit e.kind e.value) entries
  answer_hit (failed e) = false
  answer_hit endless = false

  -- The tag at that place has an entry that matches.
  abbrev pub hits_at : ℕ → List (Answer (List Entry)) → Bool
  hits_at i [] = false
  hits_at zero (a ∷ rest) = answer_hit a
  hits_at (suc i) (a ∷ rest) = hits_at i rest

  module _ (i : ℕ) where
    abbrev indexed : Refs → Bool
    indexed refs = entry_matches_any regex_matches domain i refs

    -- The four parts of an index.
    abbrev rx : Refs → Bool
    rx refs = has_regex domain i refs.regex

    abbrev kw : Refs → Bool
    kw refs = has_ref (λ r. entry_hit regex_matches plain r.key domain) i refs.keyword

    abbrev rt : Refs → Bool
    rt refs = has_ref (λ r. entry_hit regex_matches root r.key domain) i refs.root

    abbrev fl : Refs → Bool
    fl refs = has_ref (λ r. entry_hit regex_matches exact r.key domain) i refs.full

    -- The tags are numbered from `n` on, in 16 bits.
    abbrev hits_from : ℕ → List (Answer (List Entry)) → Bool
    hits_from n [] = false
    hits_from n (a ∷ rest) = (answer_hit a && n % 2 ^ 16 == i) || hits_from (suc n) rest
