-- ===== src/Text/Suffix.antt =====
-- Suffixes of a text.
use Prim.Native.Char.{Char, code}
use Prim.Native.String.{String, [], ◌∷◌, ◌++◌}
use text.Mathlib.TextLemmas.{nil-append, cons-append}
use edge_route_gw.Prelude.{
  ℕ, suc, ◌+◌, ◌==◌, ==_iff, false, ◌≡◌, refl, sym, ap, ◌∙◌, true, Bool-cases, Option, none, some,
  arith, eq_iff, eq_refl, str_eq, inl, inr,
}
use text.Mathlib.TextEquality.{Char-path}
use edge_route_gw.Text.{cut_prefix, cut_suffix, has_suffix, is_empty, push_front}

is_empty-eq : (s : String) → is_empty s ≡ true → s ≡ []
is_empty-eq [] h = refl
is_empty-eq (c ∷ s) h = cc

-- A suffix that is there has something before it.
pub has_suffix_sound : (s t : String) → has_suffix s t ≡ true → (pre : String) × (s ≡ pre ++ t)
unfolding has_suffix
has_suffix_sound [] t h = ([], rw (is_empty-eq t h) (sym (nil-append [])))
has_suffix_sound (c ∷ s) t h = elim (Bool-cases (str_eq (c ∷ s) t)) [
  | inl same ↦ ([], (eq_iff _ _).0 same ∙ sym (nil-append t))
  | inr other ↦
      let (pre, e) = has_suffix_sound s t (ground arith) in
      (c ∷ pre, ap (λ r. c ∷ r) e ∙ sym (cons-append c pre t))
]

has_suffix_self : (t : String) → has_suffix t t ≡ true
unfolding has_suffix
has_suffix_self [] = refl
has_suffix_self (c ∷ t) = rw (eq_refl (c ∷ t))

pub has_suffix-append : (pre t : String) → has_suffix (pre ++ t) t ≡ true
unfolding has_suffix
has_suffix-append [] t = rw nil-append (has_suffix_self t)
has_suffix-append (c ∷ pre) t = rw cons-append (ground (arith, has_suffix-append pre t))

push_front-some :
    (c : Char) (o : Option String) (r : String)
    → push_front c o ≡ some r
    → (q : String) × (o ≡ some q) × (r ≡ c ∷ q)
push_front-some c none r h = cc
push_front-some c (some q) r h = (q, refl, ground arith)

-- What `cut_suffix` returns stands before the suffix.
pub cut_suffix_sound : (s t r : String) → cut_suffix s t ≡ some r → s ≡ r ++ t
unfolding cut_suffix
cut_suffix_sound [] t r h = elim (Bool-cases (is_empty t)) [
  | inl e ↦ let f : r ≡ [] = ground arith in rw (f, is_empty-eq t e) (sym (nil-append []))
  | inr n ↦ ground arith
]
cut_suffix_sound (c ∷ s) t r h = elim (Bool-cases (str_eq (c ∷ s) t)) [
  | inl same ↦ let f : r ≡ [] = ground arith in rw f ((eq_iff _ _).0 same ∙ sym (nil-append t))
  | inr other ↦
      let (q, cut, e) = push_front-some c (cut_suffix s t) r (ground arith) in
      rw e (ap (λ k. c ∷ k) (cut_suffix_sound s t q cut) ∙ sym (cons-append c q t))
]

-- What `cut_prefix` returns stands behind the prefix.
pub cut_prefix_sound : (p s r : String) → cut_prefix p s ≡ some r → s ≡ p ++ r
unfolding cut_prefix
cut_prefix_sound [] s r h = let e : s ≡ r = cc in e ∙ sym (nil-append r)
cut_prefix_sound (d ∷ p) [] r h = cc
cut_prefix_sound (d ∷ p) (c ∷ s) r h = elim (Bool-cases (code c == code d)) [
  | inl same ↦
      let letter : c ≡ d = Char-path c d ((==_iff _ _).0 same) in
      ap (λ x. x ∷ s) letter
      ∙ ap (λ x. d ∷ x) (cut_prefix_sound p s r (rw same at h))
      ∙ sym (cons-append d p r)
  | inr other ↦ ground (arith, other)
]

count : String → ℕ
count [] = 0
count (c ∷ s) = suc (count s)

count-append : (s t : String) → count (s ++ t) ≡ count s + count t
unfolding count
count-append [] t = rw nil-append (omega arith)
count-append (c ∷ s) t = rw cons-append (omega (arith, count-append s t))

longer : (c : Char) (r t : String) → str_eq (c ∷ (r ++ t)) t ≡ false
unfolding count
longer c r t = elim (Bool-cases (str_eq (c ∷ (r ++ t)) t)) [
  | inl same ↦ absurd (omega (arith, ap count ((eq_iff (c ∷ (r ++ t)) t).0 same), count-append r t))
  | inr other ↦ other
]

cut_suffix_self : (t : String) → cut_suffix t t ≡ some []
unfolding cut_suffix
cut_suffix_self [] = refl
cut_suffix_self (c ∷ t) = rw (eq_refl (c ∷ t))

-- The text before a suffix is what `cut_suffix` returns.
pub cut_suffix-append : (r t : String) → cut_suffix (r ++ t) t ≡ some r
unfolding cut_suffix
cut_suffix-append [] t = rw nil-append (cut_suffix_self t)
cut_suffix-append (c ∷ r) t = rw cons-append (rw (longer c r t, cut_suffix-append r t) refl)
