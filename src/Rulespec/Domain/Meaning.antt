-- ===== src/Rulespec/Domain/Meaning.antt =====
-- What the patterns mean.
use Prim.Native.String
use edge_route_gw.Prelude.{
  String, Bool, ap, ◌∙◌, ◌≡◌, ◌≢◌, ◌↔◌, ◌⊎◌, inl, inr, refl, true, false, Bool-cases, Option, none,
  some, arith, eq_iff, str_eq, ◌≤◌, all, length, List, [], ◌∷◌, ◌||◌,
}
use edge_route_gw.Text.{cut_prefix, cut_suffix, has_suffix, has_char, split, is_empty}
use edge_route_gw.Text.Suffix.{
  has_suffix_sound, has_suffix-append, cut_suffix_sound, cut_suffix-append, cut_prefix_sound,
}
use edge_route_gw.Rulespec.Domain.{
  parse_domain, matches, ok, DomainPattern, full, suffix, single_level, matches_kind, check_base,
  check_labels, classify, pattern_of, canonical, dotted, domain_label, is_one_label,
}

single_level-suffix :
    (base host : String) (o : Option String)
    → cut_suffix host (dotted base) ≡ o
    → is_one_label o ≡ true
    → has_suffix host (dotted base) ≡ true
single_level-suffix base host none e h = cc
single_level-suffix base host (some r) e h =
    rw (cut_suffix_sound host (dotted base) r e) (has_suffix-append r (dotted base))

matches_kind_wider :
    (base host : String)
    → (matches_kind full base host ≡ true → matches_kind single_level base host ≡ true)
      × (matches_kind single_level base host ≡ true → matches_kind suffix base host ≡ true)
unfolding matches_kind
matches_kind_wider base host =
    (ground arith, λ h. ground (arith, single_level-suffix base host _ refl))

-- Over one base, the full pattern matches only what the one-label pattern matches, and that only
-- what the suffix pattern matches.
pub matches_wider :
    (p q r : DomainPattern) (host : String)
    → p.kind ≡ full
    → q.kind ≡ single_level
    → r.kind ≡ suffix
    → p.base ≡ q.base
    → q.base ≡ r.base
    → (matches p host ≡ true → matches q host ≡ true)
      × (matches q host ≡ true → matches r host ≡ true)
unfolding matches
matches_wider p q r host kp kq kr b c =
    rw (kp, kq, kr, b, c)
      (
        ground (arith, (matches_kind_wider r.base (canonical host)).0),
        ground (arith, (matches_kind_wider r.base (canonical host)).1),
      )

suffix_iff :
    (base host : String)
    → ((str_eq host base || has_suffix host (dotted base)) ≡ true)
      ↔ ((host ≡ base) ⊎ ((pre : String) × (host ≡ String.◌++◌ pre (dotted base))))
suffix_iff base host = (split_or, join)
  where
    split_or :
        (str_eq host base || has_suffix host (dotted base)) ≡ true
        → (host ≡ base) ⊎ ((pre : String) × (host ≡ String.◌++◌ pre (dotted base)))
    split_or h = elim (Bool-cases (str_eq host base)) [
      | inl same ↦ inl ((eq_iff host base).0 same)
      | inr other ↦ inr (has_suffix_sound host (dotted base) (ground arith))
    ]

    join :
        (host ≡ base) ⊎ ((pre : String) × (host ≡ String.◌++◌ pre (dotted base)))
        → (str_eq host base || has_suffix host (dotted base)) ≡ true
    join (inl e) = ground (arith, (eq_iff host base).1 e)
    join (inr (pre, e)) =
        let there : has_suffix host (dotted base) ≡ true =
          rw e (has_suffix-append pre (dotted base)) in
        ground arith

is_empty-ne : (s : String) → s ≢ "" → is_empty s ≡ false
is_empty-ne String.[] n = absurd (n refl)
is_empty-ne (String.◌∷◌ c s) n = refl

-- A pattern of the suffix kind matches the base and every name that ends in a dot and the base,
-- once the name is in lower case and has neither spaces around it nor a dot behind it.
pub matches-suffix_iff :
    (p : DomainPattern) (host : String)
    → p.kind ≡ suffix
    → canonical host ≢ ""
    → (matches p host ≡ true) ↔ (
        (canonical host ≡ p.base)
        ⊎ ((pre : String) × (canonical host ≡ String.◌++◌ pre (dotted p.base))))
unfolding matches
matches-suffix_iff p host k n =
    rw (is_empty-ne (canonical host) n, k) (suffix_iff p.base (canonical host))

check_labels-ok :
    (parts : List String) (p q : DomainPattern)
    → check_labels parts p ≡ ok q
    → (p ≡ q) × (all domain_label parts ≡ true)
unfolding check_labels
check_labels-ok [] p q h = (ground arith, refl)
check_labels-ok (x ∷ xs) p q h =
    (ground (arith, (check_labels-ok xs p q)), ground (arith, (check_labels-ok xs p q)))

check_base-ok :
    (p q : DomainPattern)
    → check_base p ≡ ok q
    → (p ≡ q)
      × (has_char b'*' p.base ≡ false)
      × (2 ≤ length (split b'.' p.base))
      × (all domain_label (split b'.' p.base) ≡ true)
unfolding check_base
check_base-ok p q h =
    let l = check_labels-ok (split b'.' p.base) p q (ground arith) in
    (l.0, ground arith, ground arith, l.1)

-- The host is the base or ends in a dot and the base.
abbrev pub IsBelow : String → String → Type 0
IsBelow base host = (host ≡ base) ⊎ ((pre : String) × (host ≡ String.◌++◌ pre (dotted base)))

-- The host is the base, or one label, a dot and the base.
abbrev pub IsOneBelow : String → String → Type 0
IsOneBelow base host =
    (host ≡ base)
    ⊎ ((label : String) × (host ≡ String.◌++◌ label (dotted base))
        × (is_empty label ≡ false)
        × (has_char b'.' label ≡ false))

single_iff :
    (base host : String) → (matches_kind single_level base host ≡ true) ↔ IsOneBelow base host
unfolding matches_kind
single_iff base host = (split_or, join)
  where
    one_label :
        (o : Option String)
        → cut_suffix host (dotted base) ≡ o
        → is_one_label o ≡ true
        → IsOneBelow base host
    one_label none e h = absurd (cc)
    one_label (some r) e h =
        inr (r, cut_suffix_sound host (dotted base) r e, ground arith, ground arith)

    split_or : matches_kind single_level base host ≡ true → IsOneBelow base host
    split_or h = elim (Bool-cases (str_eq host base)) [
      | inl same ↦ inl ((eq_iff host base).0 same)
      | inr other ↦ one_label (cut_suffix host (dotted base)) refl (rw other at h)
    ]

    join : IsOneBelow base host → matches_kind single_level base host ≡ true
    join (inl e) = rw ((eq_iff host base).1 e) refl
    join (inr (r, e, some', dots)) =
        let cut : cut_suffix host (dotted base) ≡ some r =
          ap (λ x. cut_suffix x (dotted base)) e ∙ cut_suffix-append r (dotted base) in
        elim (Bool-cases (str_eq host base)) [
          | inl same ↦ rw same refl
          | inr other ↦ rw (other, cut) (ground (arith, some', dots))
        ]

-- What a pattern means, by the text that it was read from and its base.
abbrev pub IsMeant : String → String → Bool → String → Type 0
IsMeant raw base hit host =
    ((raw ≡ String.◌++◌ "**." base) × ((hit ≡ true) ↔ IsBelow base host))
    ⊎ (((raw ≡ String.◌++◌ "*." base) × ((hit ≡ true) ↔ IsOneBelow base host))
        ⊎ ((raw ≡ base) × ((hit ≡ true) ↔ (host ≡ base))))

pattern_of-IsMeant :
    (o o' : Option String) (raw host : String)
    → cut_prefix "**." raw ≡ o
    → cut_prefix "*." raw ≡ o'
    → IsMeant raw
        (pattern_of o o' raw).base
        (matches_kind (pattern_of o o' raw).kind (pattern_of o o' raw).base host)
        host
unfolding matches_kind
pattern_of-IsMeant (some b) o' raw host e e' =
    inl (cut_prefix_sound "**." raw b e, suffix_iff b host)
pattern_of-IsMeant none (some b) raw host e e' =
    inr (inl (cut_prefix_sound "*." raw b e', single_iff b host))
pattern_of-IsMeant none none raw host e e' = inr (inr (refl, eq_iff host raw))

-- An accepted domain value has a base of at least two valid labels without a star. The value, in lower
-- case and with neither spaces around it nor a dot behind it, is "**." and the base, and the pattern
-- matches the base and every name that ends in a dot and the base; or it is "*." and the base, and
-- the pattern matches the base and the names of one label more; or it is the base, and the
-- pattern matches just that. The name is in lower case and has neither spaces around it nor a dot
-- behind it when it is compared, and is not empty then.
pub parse_domain-matches :
    (input : String) (p : DomainPattern) (host : String)
    → parse_domain input ≡ ok p
    → canonical host ≢ ""
    → (has_char b'*' p.base ≡ false)
      × (2 ≤ length (split b'.' p.base))
      × (all domain_label (split b'.' p.base) ≡ true)
      × IsMeant (canonical input) p.base (matches p host) (canonical host)
unfolding parse_domain classify matches
parse_domain-matches input p host h n =
    let raw = canonical input in
    let (same, star, two, labels) = check_base-ok (classify raw) p (ground arith) in
    let meant =
      pattern_of-IsMeant (cut_prefix "**." raw) (cut_prefix "*." raw) raw (canonical host) refl
        refl in
    rw (is_empty-ne (canonical host) n, ← same) (star, two, labels, meant)
