-- ===== src/Geo/SiteIndex/Parents.antt =====
-- The domains above a domain are those that it ends with, behind a dot.
use Prim.Native.Char.{Char, code}
use Prim.Native.String.{[] as nil_text, ◌∷◌ as cons_text}
use text.Mathlib.TextLemmas.{nil-append, cons-append}
use edge_route_gw.Prelude.{
  String, true, false, ◌&&◌, ◌||◌, [], ◌∷◌, ◌==◌, ==_iff, str_eq, eq_iff, if◌then◌else◌, ◌≡◌, refl,
  ap, ◌∙◌, sym, inl, inr, Bool-cases, arith,
}
use edge_route_gw.Text.{is_empty, has_suffix, concat}
use edge_route_gw.Geo.SiteIndex.{dot_tails, parents}
use edge_route_gw.Geo.SiteIndex.Runs.{is_one_of}
use text.Mathlib.TextEquality.{Char-path}

dot-key : (key : String) → concat "." key ≡ cons_text "." key
dot-key key = cons-append "." "" key ∙ ap (λ r. cons_text "." r) (nil-append key)

str_eq-cons :
    (c d : Char) (s t : String)
    → str_eq (cons_text c s) (cons_text d t) ≡ (code c == code d && str_eq s t)
str_eq-cons c d s t = elim (Bool-cases (str_eq (cons_text c s) (cons_text d t))) [
  | inl e ↦ rw e (sym (both_true ((eq_iff _ _).0 e)))
  | inr n ↦ elim (Bool-cases (code c == code d && str_eq s t)) [
    | inl e ↦
        cc (n, (eq_iff (cons_text c s) (cons_text d t)).1 (joined (ground arith) (ground arith)))
    | inr m ↦ rw (n, m)
  ]
]
  where
    both_true : cons_text c s ≡ cons_text d t → (code c == code d && str_eq s t) ≡ true
    both_true p =
        let heads : c ≡ d = cc in
        let tails : s ≡ t = cc in
        let first : (code c == code d) ≡ true = (==_iff _ _).1 (ap code heads) in
        let second : str_eq s t ≡ true = (eq_iff s t).1 tails in rw (first, second)

    joined : code c ≡ code d → str_eq s t ≡ true → cons_text c s ≡ cons_text d t
    joined h k =
        ap (λ x. cons_text x s) (Char-path c d h) ∙ ap (λ r. cons_text d r) ((eq_iff s t).0 k)

pub str_eq_sym : (s t : String) → str_eq s t ≡ str_eq t s
str_eq_sym s t = ground (arith, eq_iff s t, eq_iff t s)

nil_ne : (key : String) → is_empty key ≡ false → str_eq "" key ≡ false
nil_ne nil_text h = cc
nil_ne (cons_text c key) h = elim (Bool-cases (str_eq "" (cons_text c key))) [
  | inl e ↦ cc ((eq_iff "" (cons_text c key)).0 e)
  | inr n ↦ n
]

-- A list of domains that begins with one that is not empty.
first_domain :
    (s key : String)
    → is_empty key ≡ false
    → is_one_of (dot_tails s) key ≡ has_suffix s (cons_text "." key)
    → is_one_of (if is_empty s then [] else s ∷ dot_tails s) key
      ≡ (str_eq s key || has_suffix s (cons_text "." key))
unfolding dot_tails has_suffix
first_domain nil_text key h ih = rw (nil_ne key h)
first_domain (cons_text c s) key h ih = rw (ih, str_eq_sym key (cons_text c s))

dot_tails_lem :
    (s key : String)
    → is_empty key ≡ false
    → is_one_of (dot_tails s) key ≡ has_suffix s (cons_text "." key)
unfolding dot_tails has_suffix
dot_tails_lem nil_text key h = refl
dot_tails_lem (cons_text c s) key h =
    rw (str_eq-cons c "." s key) (elim (Bool-cases (code c == b'.')) [
      | inl dot ↦ rw dot (first_domain s key h (dot_tails_lem s key h))
      | inr other ↦ rw other (dot_tails_lem s key h)
    ])

-- A key is one of the domains that the loop goes through if the domain is the key, or ends with it
-- behind a dot.
pub parents_lem :
    (domain key : String)
    → is_empty key ≡ false
    → is_one_of (parents domain) key ≡ (str_eq domain key || has_suffix domain (concat "." key))
unfolding parents
parents_lem domain key h =
    first_domain domain key h (dot_tails_lem domain key h)
    ∙ ap (λ t. str_eq domain key || has_suffix domain t) (sym (dot-key key))
