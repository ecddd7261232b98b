-- ===== src/Geo/SiteIndex/Runs.antt =====
-- A search in the sorted keys of the index finds the entries with the key.
use Prim.Native.Char.{code}
use Prim.Native.String.{[] as nil_text, ◌∷◌ as cons_text}
use edge_route_gw.Prelude.{
  ℕ, String, Bool, true, false, ◌&&◌, ◌||◌, List, [], ◌∷◌, any, ◌==◌, ==_iff, str_eq, eq_iff, ◌≡◌,
  refl, ap, ◌∙◌, sym, inl, inr, Bool-cases, arith, is_some,
}
use edge_route_gw.Prelude.Sorting.{IsSorted, IsChainFrom, IsStrictWeak}
use edge_route_gw.Text.{cut}
use edge_route_gw.Geo.SiteIndex.{
  SiteRef, SiteRegex, Refs, text_less, key_less, add_index, add_run, refs_for, refs_for_all,
  add_keywords, add_regexes, matching, parents,
}
use text.Mathlib.TextEquality.{Char-path}

text_less_irrefl : (s : String) → text_less s s ≡ false
unfolding text_less
text_less_irrefl nil_text = refl
text_less_irrefl (cons_text c s) = ground (arith, text_less_irrefl s)

text_less_asym : (s t : String) → text_less s t ≡ true → text_less t s ≡ false
unfolding text_less
text_less_asym nil_text nil_text h = refl
text_less_asym nil_text (cons_text d t) h = refl
text_less_asym (cons_text c s) nil_text h = cc
text_less_asym (cons_text c s) (cons_text d t) h = ground (arith, text_less_asym s t)

-- In terms of "not less", which is an order.
not_less_trans :
    (a b c : String) → text_less b a ≡ false → text_less c b ≡ false → text_less c a ≡ false
unfolding text_less
not_less_trans nil_text nil_text nil_text h k = refl
not_less_trans nil_text nil_text (cons_text z c) h k = refl
not_less_trans nil_text (cons_text y b) nil_text h k = refl
not_less_trans nil_text (cons_text y b) (cons_text z c) h k = refl
not_less_trans (cons_text x a) nil_text c h k = cc
not_less_trans (cons_text x a) (cons_text y b) nil_text h k = cc
not_less_trans (cons_text x a) (cons_text y b) (cons_text z c) h k =
    ground (arith, not_less_trans a b c)

text_antisym : (s t : String) → text_less s t ≡ false → text_less t s ≡ false → s ≡ t
unfolding text_less
text_antisym nil_text nil_text h k = refl
text_antisym nil_text (cons_text d t) h k = cc
text_antisym (cons_text c s) nil_text h k = cc
text_antisym (cons_text c s) (cons_text d t) h k =
    let codes : code c ≡ code d = ground arith in
    let rest : s ≡ t = text_antisym s t (ground arith) (ground arith) in
    ap (λ x. cons_text x s) (Char-path c d codes) ∙ ap (λ r. cons_text d r) rest

-- `sort.Slice` may be used with the order of the keys.
pub key_less-IsStrictWeak : IsStrictWeak key_less
unfolding key_less
key_less-IsStrictWeak = record {
  asym = λ a b. text_less_asym a.key b.key;
  not_less_trans = λ a b c. not_less_trans a.key b.key c.key;
}

abbrev pub is_in : ℕ → List ℕ → Bool
is_in i set = any (λ j. j == i) set

add_index_lem : (i t : ℕ) (set : List ℕ) → is_in i (add_index t set) ≡ ((t == i) || is_in i set)
add_index_lem i t set = elim (Bool-cases (is_in t set)) [
  | inl e ↦ rw e (elim (Bool-cases (t == i)) [
    | inl same ↦ let k : t ≡ i = (==_iff t i).0 same in rw same (ap (λ x. is_in x set) (sym k) ∙ e)
    | inr other ↦ rw other refl
  ])
  | inr e ↦ rw e refl
]

abbrev pub has_ref : (SiteRef → Bool) → ℕ → List SiteRef → Bool
has_ref test i refs = any (λ r. test r && r.tag == i) refs

-- A list that goes on after `r`, sorted.
tail-IsSorted :
    (r : SiteRef) (rest : List SiteRef) → IsChainFrom key_less r rest → IsSorted key_less rest
tail-IsSorted r [] h = tt
tail-IsSorted r (q ∷ rest) (h, t) = t

less_le_trans :
    (k a b : String) → text_less k a ≡ true → text_less b a ≡ false → text_less k b ≡ true
less_le_trans k a b h e = elim (Bool-cases (text_less k b)) [
  | inl y ↦ y
  | inr n ↦ cc (not_less_trans a b k e n)
]

less_ne : (k a : String) → text_less k a ≡ true → str_eq a k ≡ false
less_ne k a h = elim (Bool-cases (str_eq a k)) [
  | inl e ↦ let s : a ≡ k = (eq_iff a k).0 e in cc (text_less_irrefl k, ap (text_less k) s)
  | inr n ↦ n
]

module _ (i : ℕ) (k : String) where
  abbrev has_key : List SiteRef → Bool
  has_key refs = has_ref (λ r. str_eq r.key k) i refs

  above-has_key :
      (r : SiteRef) (rest : List SiteRef)
      → text_less k r.key ≡ true
      → IsChainFrom key_less r rest
      → has_key rest ≡ false
  unfolding key_less
  above-has_key r [] h t = refl
  above-has_key r (q ∷ rest) h (e, t) =
      let up : text_less k q.key ≡ true = less_le_trans k r.key q.key h e in
      rw (less_ne k q.key up) (above-has_key q rest up t)

  -- A key that is neither less nor equal is greater.
  greater : (a : String) → text_less a k ≡ false → str_eq a k ≡ false → text_less k a ≡ true
  greater a h n = elim (Bool-cases (text_less k a)) [
    | inl y ↦ y
    | inr m ↦ cc ((eq_iff a k).1 (text_antisym a k h m))
  ]

  run_ends :
      (r : SiteRef) (rest : List SiteRef) (set : List ℕ)
      → text_less r.key k ≡ false
      → IsChainFrom key_less r rest
      → str_eq r.key k ≡ false
      → is_in i (add_run k (r ∷ rest) set) ≡ (has_key (r ∷ rest) || is_in i set)
  unfolding add_run
  run_ends r rest set h t other = rw (other, above-has_key r rest (greater r.key h other) t)

  run_lem :
      (r : SiteRef) (rest : List SiteRef) (set : List ℕ)
      → text_less r.key k ≡ false
      → IsChainFrom key_less r rest
      → is_in i (add_run k (r ∷ rest) set) ≡ (has_key (r ∷ rest) || is_in i set)
  unfolding add_run key_less
  run_lem r [] set h t = elim (Bool-cases (str_eq r.key k)) [
    | inl same ↦ rw same (ground (arith, add_index_lem i r.tag set))
    | inr other ↦ rw other
  ]
  run_lem r (q ∷ rest) set h (e, t) = elim (Bool-cases (str_eq r.key k)) [
    | inl same ↦
        let k' : r.key ≡ k = (eq_iff r.key k).0 same in
        let ih = run_lem q rest (add_index r.tag set) (ap (text_less q.key) (sym k') ∙ e) t in
        rw same (ih ∙ ground (arith, add_index_lem i r.tag set))
    | inr other ↦ run_ends r (q ∷ rest) set h (e, t) other
  ]

  -- `refsFor` adds the tags of the entries with the key.
  pub refs_for_lem :
      (refs : List SiteRef) (set : List ℕ)
      → IsSorted key_less refs
      → is_in i (refs_for refs k set) ≡ (has_key refs || is_in i set)
  unfolding refs_for
  refs_for_lem [] set h = refl
  refs_for_lem (r ∷ rest) set h = elim (Bool-cases (text_less r.key k)) [
    | inl below ↦
        rw (below, less_not_eq r.key below) (refs_for_lem rest set (tail-IsSorted r rest h))
    | inr reached ↦ rw reached (run_lem r rest set reached h)
  ]
    where
      less_not_eq : (a : String) → text_less a k ≡ true → str_eq a k ≡ false
      less_not_eq a h = elim (Bool-cases (str_eq a k)) [
        | inl e ↦
            let s : a ≡ k = (eq_iff a k).0 e in cc (text_less_irrefl k, ap (λ x. text_less x k) s)
        | inr n ↦ n
      ]

  add_keywords_lem :
      (domain : String) (refs : List SiteRef) (set : List ℕ)
      → is_in i (add_keywords domain refs set)
        ≡ (has_ref (λ r. is_some (cut r.key domain)) i refs || is_in i set)
  unfolding add_keywords
  add_keywords_lem domain [] set = refl
  add_keywords_lem domain (r ∷ rest) set = elim (Bool-cases (is_some (cut r.key domain))) [
    | inl e ↦ rw e (
        add_keywords_lem domain rest (add_index r.tag set)
        ∙ ground (arith, add_index_lem i r.tag set))
    | inr e ↦ rw e (add_keywords_lem domain rest set)
  ]

abbrev pub has_regex : String → ℕ → List SiteRegex → Bool
has_regex domain i refs = any (λ r. r.accepts domain && r.tag == i) refs

add_regexes_lem :
    (i : ℕ) (domain : String) (refs : List SiteRegex) (set : List ℕ)
    → is_in i (add_regexes domain refs set) ≡ (has_regex domain i refs || is_in i set)
unfolding add_regexes
add_regexes_lem i domain [] set = refl
add_regexes_lem i domain (r ∷ rest) set = elim (Bool-cases (r.accepts domain)) [
  | inl e ↦ rw e (
      add_regexes_lem i domain rest (add_index r.tag set)
      ∙ ground (arith, add_index_lem i r.tag set))
  | inr e ↦ rw e (add_regexes_lem i domain rest set)
]

abbrev pub is_one_of : List String → String → Bool
is_one_of domains key = any (λ d. str_eq key d) domains

has_ref-or :
    (test : SiteRef → Bool) (d : String) (ds : List String) (i : ℕ) (refs : List SiteRef)
    → (has_ref (λ r. is_one_of ds r.key) i refs || has_ref (λ r. str_eq r.key d) i refs)
      ≡ has_ref (λ r. is_one_of (d ∷ ds) r.key) i refs
has_ref-or test d ds i [] = refl
has_ref-or test d ds i (r ∷ rest) = ground (arith, has_ref-or test d ds i rest)

none_of : (i : ℕ) (refs : List SiteRef) → has_ref (λ r. is_one_of [] r.key) i refs ≡ false
none_of i [] = refl
none_of i (r ∷ rest) = none_of i rest

refs_for_all_lem :
    (i : ℕ) (refs : List SiteRef) (domains : List String) (set : List ℕ)
    → IsSorted key_less refs
    → is_in i (refs_for_all refs domains set)
      ≡ (has_ref (λ r. is_one_of domains r.key) i refs || is_in i set)
unfolding refs_for_all
refs_for_all_lem i refs [] set h = rw (none_of i refs)
refs_for_all_lem i refs (d ∷ ds) set h =
    refs_for_all_lem i refs ds (refs_for refs d set) h
    ∙ ground (arith, refs_for_lem i d refs set h, has_ref-or (λ r. true) d ds i refs)

-- The tags that `Lookup` collects are those with an entry that matches.
pub matching_lem :
    (i : ℕ) (refs : Refs) (domain : String)
    → IsSorted key_less refs.full
    → IsSorted key_less refs.root
    → is_in i (matching refs domain) ≡ (
        has_regex domain i refs.regex
        || (has_ref (λ r. is_some (cut r.key domain)) i refs.keyword
            || (has_ref (λ r. is_one_of (parents domain) r.key) i refs.root
                || has_ref (λ r. str_eq r.key domain) i refs.full)))
unfolding matching
matching_lem i refs domain full root =
    rw
      (
        add_regexes_lem,
        add_keywords_lem,
        refs_for_all_lem i refs.root (parents domain) (refs_for refs.full domain []) root,
        refs_for_lem i domain refs.full [] full,
      )
      (ground arith)
