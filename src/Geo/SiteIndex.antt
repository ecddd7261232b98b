-- ===== src/Geo/SiteIndex.antt =====
-- internal/geo/index.go: which tags of geosite.dat match a domain. regexp.Compile is a parameter.
pub mod Runs
pub mod Parents
pub mod Agreement
pub mod Built
use Prim.Native.Char.{code}
use Prim.Native.String.{[] as nil_text, ◌∷◌ as cons_text}
use edge_route_gw.Prelude.{
  ℕ, zero, suc, ◌+◌, ◌%◌, ◌^◌, String, Bool, true, false, not, ◌&&◌, ◌||◌, List, [], ◌∷◌, ◌++◌,
  Option, none, some, map, any, take, is_some, ltb, leb, ◌==◌, str_eq, if◌then◌else◌,
}
use edge_route_gw.Prelude.Sorting.{SortSlice}
use edge_route_gw.Text.{to_lower, trim_space, trim_dot, is_empty, cut}
use edge_route_gw.Routes.Compute.{sort_names}
use edge_route_gw.Geo.{Wire}
use edge_route_gw.Geo.Sites.{Entry, DomainKind, plain, regex, root, full, unknown, decode_geosite}
use edge_route_gw.Geo.Reader.{
  FileId, id_eq, Disk, ReadError, no_stat, Answer, found, failed, endless, Reader, tags,
  items_uncached,
}
use edge_route_gw.Geo.IpIndex.{Calls}

-- A domain, or a keyword, with the number of its tag.
pub record SiteRef : Type 0 where
  pub key : String
  pub tag : ℕ

pub record SiteRegex : Type 0 where
  pub tag : ℕ
  pub accepts : String → Bool

pub record Refs : Type 0 where
  pub full : List SiteRef
  pub root : List SiteRef
  pub keyword : List SiteRef
  pub regex : List SiteRegex

-- The index, with the version of the file that it was made of.
pub record SiteIndex : Type 0 where
  pub version : FileId
  pub names : Option (List String)
  pub refs : Refs

abbrev pub no_refs : Refs
no_refs = record { full = []; root = []; keyword = []; regex = [] }

-- The order of texts, by code points, which is that of their bytes in UTF-8.
unfoldable pub text_less : String → String → Bool
text_less nil_text nil_text = false
text_less nil_text (cons_text d t) = true
text_less (cons_text c s) nil_text = false
text_less (cons_text c s) (cons_text d t) =
    ltb (code c) (code d) || (code c == code d && text_less s t)

unfoldable pub key_less : SiteRef → SiteRef → Bool
unfolding text_less
key_less a b = text_less a.key b.key

abbrev pub add_regex : ℕ → Option (String → Bool) → Refs → Refs
add_regex i none refs = refs
add_regex i (some matches) refs = record refs {
  regex = refs.regex ++ (record { tag = i; accepts = matches }) ∷ [];
}

module _ (compile : String → Option (String → Bool)) where
  abbrev pub add_ref : ℕ → DomainKind → String → Refs → Refs
  add_ref i full v refs = record refs {
    full = refs.full ++ (record { key = to_lower v; tag = i }) ∷ [];
  }
  add_ref i root v refs = record refs {
    root = refs.root ++ (record { key = to_lower v; tag = i }) ∷ [];
  }
  add_ref i plain v refs = record refs {
    keyword = refs.keyword ++ (record { key = to_lower v; tag = i }) ∷ [];
  }
  add_ref i regex v refs = add_regex i (compile v) refs
  add_ref i unknown v refs = refs

  -- the loop over the entries of a tag
  unfoldable pub add_refs : ℕ → List Entry → Refs → Refs
  unfolding to_lower
  add_refs i [] refs = refs
  add_refs i (e ∷ rest) refs = add_refs i rest (add_ref i e.kind e.value refs)

  -- A tag that could not be read is left out.
  abbrev pub add_answer : ℕ → Answer (List Entry) → Refs → Refs
  add_answer i (found entries) refs = add_refs (i % 2 ^ 16) entries refs
  add_answer i (failed e) refs = refs
  add_answer i endless refs = refs

  module _ (w : Wire) where
    -- the loop over the tags
    unfoldable pub index_sites : Calls → ℕ → List String → Reader Entry → Refs → Reader Entry × Refs
    unfolding add_refs items_uncached decode_geosite
    index_sites calls i [] src refs = (src, refs)
    index_sites calls i (tag ∷ rest) src refs =
        let (src', entries) = items_uncached (decode_geosite w) w (calls.tag tag) tag src in
        index_sites calls (suc i) rest src' (add_answer i entries refs)

    abbrev pub set_sites :
        SortSlice SiteRef
        → FileId
        → List String
        → Reader Entry × Refs
        → Reader Entry × SiteIndex × Answer (Unit {0})
    set_sites sorter ver names (src, refs) = (
      src,
      record {
        version = ver;
        names = some names;
        refs = record refs {
          full = sorter.sort key_less refs.full;
          root = sorter.sort key_less refs.root;
        };
      },
      found tt,
    )

    abbrev pub build_sites :
        SortSlice SiteRef
        → Calls
        → FileId
        → SiteIndex
        → Reader Entry × Answer (List String)
        → Reader Entry × SiteIndex × Answer (Unit {0})
    build_sites sorter calls ver x (src, found names) =
        set_sites sorter ver (take 65535 names) (index_sites calls 0 (take 65535 names) src no_refs)
    build_sites sorter calls ver x (src, failed e) = (src, x, failed e)
    build_sites sorter calls ver x (src, endless) = (src, x, endless)

    abbrev pub ensure_sites_version :
        SortSlice SiteRef
        → Calls
        → Option FileId
        → Reader Entry
        → SiteIndex
        → Reader Entry × SiteIndex × Answer (Unit {0})
    ensure_sites_version sorter calls none src x = (src, x, failed no_stat)
    ensure_sites_version sorter calls (some ver) src x =
        if is_some x.names && id_eq ver x.version
        then (src, x, found tt)
        else build_sites sorter calls ver x (tags w calls.tags src)

    -- `ensure` of the index; the text of a version tells as much as the size and the time in it
    unfoldable pub ensure_sites :
        SortSlice SiteRef
        → Calls
        → Reader Entry
        → SiteIndex
        → Reader Entry × SiteIndex × Answer (Unit {0})
    unfolding index_sites key_less
    ensure_sites sorter calls src x = ensure_sites_version sorter calls calls.version.stat src x

-- `set[tag] = true`
abbrev pub add_index : ℕ → List ℕ → List ℕ
add_index i set = if any (λ j. j == i) set then set else i ∷ set

-- from the first key that is not less, as long as the keys are equal
unfoldable pub add_run : String → List SiteRef → List ℕ → List ℕ
add_run k [] set = set
add_run k (r ∷ rest) set =
    let more = add_run k rest (add_index r.tag set) in if str_eq r.key k then more else set

-- `refsFor`; the first key that is not less, which sort.Search finds, since the keys are sorted
unfoldable pub refs_for : List SiteRef → String → List ℕ → List ℕ
unfolding add_run text_less
refs_for [] k set = set
refs_for (r ∷ rest) k set =
    let later = refs_for rest k set in
    let here = add_run k (r ∷ rest) set in if text_less r.key k then later else here

-- what follows each dot, up to the first dot that ends the text
unfoldable pub dot_tails : String → List String
dot_tails nil_text = []
dot_tails (cons_text c s) =
    let rest = dot_tails s in if code c == b'.' then (if is_empty s then [] else s ∷ rest) else rest

-- the domains of the loop of `Lookup`: the domain itself, and those above it
unfoldable pub parents : String → List String
unfolding dot_tails
parents domain = if is_empty domain then [] else domain ∷ dot_tails domain

unfoldable pub refs_for_all : List SiteRef → List String → List ℕ → List ℕ
unfolding refs_for
refs_for_all list [] set = set
refs_for_all list (d ∷ rest) set = refs_for_all list rest (refs_for list d set)

unfoldable pub add_keywords : String → List SiteRef → List ℕ → List ℕ
unfolding cut
add_keywords domain [] set = set
add_keywords domain (kw ∷ rest) set =
    add_keywords domain rest (if is_some (cut kw.key domain) then add_index kw.tag set else set)

unfoldable pub add_regexes : String → List SiteRegex → List ℕ → List ℕ
add_regexes domain [] set = set
add_regexes domain (rx ∷ rest) set =
    add_regexes domain rest (if rx.accepts domain then add_index rx.tag set else set)

-- the numbers of the tags that `Lookup` collects
unfoldable pub matching : Refs → String → List ℕ
unfolding refs_for refs_for_all parents add_keywords add_regexes
matching refs domain = add_regexes domain refs.regex (
    add_keywords domain refs.keyword
      (refs_for_all refs.root (parents domain) (refs_for refs.full domain [])))

-- x.tags[ti]
unfoldable pub name_at : List String → ℕ → String
name_at [] i = ""
name_at (n ∷ rest) zero = n
name_at (n ∷ rest) (suc i) = name_at rest i

abbrev pub names_of : SiteIndex → List String
names_of x = elim x.names [ none ↦ [] | some names ↦ names ]

unfoldable pub tags_matching : String → SiteIndex → List String
unfolding matching name_at sort_names to_lower trim_dot trim_space
tags_matching domain x =
    sort_names
      (map (name_at (names_of x)) (matching x.refs (to_lower (trim_dot (trim_space domain)))))

abbrev pub answer_matching :
    String
    → Reader Entry × SiteIndex × Answer (Unit {0})
    → Reader Entry × SiteIndex × Answer (List String)
answer_matching domain (src, x, found _) = (src, x, found (tags_matching domain x))
answer_matching domain (src, x, failed e) = (src, x, failed e)
answer_matching domain (src, x, endless) = (src, x, endless)

-- `Lookup`
unfoldable pub lookup_site :
    (String → Option (String → Bool))
    → Wire
    → SortSlice SiteRef
    → Calls
    → String
    → Reader Entry
    → SiteIndex
    → Reader Entry × SiteIndex × Answer (List String)
unfolding ensure_sites tags_matching
lookup_site compile w sorter calls domain src x =
    answer_matching domain (ensure_sites compile w sorter calls src x)
