-- ===== src/Tests/Messages.antt =====
-- A reader of messages that is simpler than protowire: every number is one byte.
use Prim.Native.Char.{Char, char, code, nul, IsLt, IsScalar}
use Prim.Native.Nat.{Ordering, compare}
use Prim.Native.String.{[] as nil_text, ◌∷◌ as cons_text}
use text.Mathlib.TextEquality.{Char-path}
use edge_route_gw.Prelude.{
  ℕ, ◌≤◌, ◌<◌, String, true, List, [], ◌∷◌, ◌++◌, Option, none, some, ◌≡◌, refl, ap, ◌∙◌, length,
  length-drop, take, drop, leb, ◌==◌, if◌then◌else◌, arith,
}
use edge_route_gw.Geo.{Wire, IsWire, WireType, varint_type, bytes_type, other_type}

abbrev SecondScalar : Ordering → Ordering → Type 0
SecondScalar Ordering.lt o = IsLt o
SecondScalar Ordering.eq _ = ⊥
SecondScalar Ordering.gt _ = ⊥

abbrev Scalar : Ordering → Ordering → Ordering → Type 0
Scalar Ordering.lt _ _ = Unit
Scalar Ordering.eq p q = SecondScalar p q
Scalar Ordering.gt p q = SecondScalar p q

-- The character with a number, or else `nul`.
char_when : (n : ℕ) (o p q : Ordering) → (Scalar o p q → IsScalar n) → Char
char_when n Ordering.lt p q f = char n (f tt)
char_when n Ordering.eq Ordering.lt Ordering.lt f = char n (f tt)
char_when n Ordering.gt Ordering.lt Ordering.lt f = char n (f tt)
char_when n _ _ _ f = nul

char_when-code :
    (n : ℕ) (o p q : Ordering) (f : Scalar o p q → IsScalar n)
    → Scalar o p q
    → code (char_when n o p q f) ≡ n
unfolding char_when
char_when-code n Ordering.lt p q f s = refl
char_when-code n Ordering.eq Ordering.lt Ordering.lt f s = refl
char_when-code n Ordering.gt Ordering.lt Ordering.lt f s = refl
char_when-code n Ordering.eq Ordering.lt Ordering.eq f s = elim s [ ]
char_when-code n Ordering.eq Ordering.lt Ordering.gt f s = elim s [ ]
char_when-code n Ordering.gt Ordering.lt Ordering.eq f s = elim s [ ]
char_when-code n Ordering.gt Ordering.lt Ordering.gt f s = elim s [ ]
char_when-code n Ordering.eq Ordering.eq q f s = elim s [ ]
char_when-code n Ordering.eq Ordering.gt q f s = elim s [ ]
char_when-code n Ordering.gt Ordering.eq q f s = elim s [ ]
char_when-code n Ordering.gt Ordering.gt q f s = elim s [ ]

char_of : ℕ → Char
unfolding char_when
char_of n = char_when n (compare n 55296) (compare 57343 n) (compare n 1114112) (λ s. s)

char_of-code : (c : Char) → char_of (code c) ≡ c
unfolding char_of
char_of-code (char n s) =
    Char-path _ _
      (char_when-code n (compare n 55296) (compare 57343 n) (compare n 1114112) (λ t. t) s)

unfoldable pub text_of : List ℕ → String
unfolding char_of
text_of [] = ""
text_of (n ∷ rest) = cons_text (char_of n) (text_of rest)

unfoldable pub bytes_of : String → List ℕ
bytes_of nil_text = []
bytes_of (cons_text c s) = code c ∷ bytes_of s

text_again : (s : String) → text_of (bytes_of s) ≡ s
unfolding text_of bytes_of
text_again nil_text = refl
text_again (cons_text c s) =
    ap (λ x. cons_text x (text_of (bytes_of s))) (char_of-code c)
    ∙ ap (λ r. cons_text c r) (text_again s)

abbrev type_number : WireType → ℕ
type_number varint_type = 0
type_number bytes_type = 2
type_number other_type = 5

abbrev type_of : ℕ → WireType
type_of n = if n == 0 then varint_type else if n == 2 then bytes_type else other_type

type_again : (t : WireType) → type_of (type_number t) ≡ t
type_again varint_type = refl
type_again bytes_type = refl
type_again other_type = refl

abbrev consume_tag : List ℕ → Option (ℕ × WireType × List ℕ)
consume_tag (num ∷ t ∷ rest) = some (num, type_of t, rest)
consume_tag _ = none

abbrev consume_bytes : List ℕ → Option (List ℕ × List ℕ)
consume_bytes [] = none
consume_bytes (n ∷ rest) = if leb n (length rest) then some (take n rest, drop n rest) else none

abbrev consume_varint : List ℕ → Option (ℕ × List ℕ)
consume_varint [] = none
consume_varint (v ∷ rest) = some (v, rest)

abbrev rest_of : {A : Type 0} → Option (A × List ℕ) → Option (List ℕ)
rest_of none = none
rest_of (some (_, rest)) = some rest

abbrev consume_value : ℕ → WireType → List ℕ → Option (List ℕ)
consume_value num varint_type msg = rest_of (consume_varint msg)
consume_value num bytes_type msg = rest_of (consume_bytes msg)
consume_value num other_type msg = none

abbrev pub plain_wire : Wire
plain_wire = record {
  consume_tag = consume_tag;
  consume_bytes = consume_bytes;
  consume_varint = consume_varint;
  consume_field_value = consume_value;
  append_tag = λ dst num t. dst ++ num ∷ type_number t ∷ [];
  append_bytes = λ dst v. dst ++ length v ∷ v;
  append_varint = λ dst v. dst ++ v ∷ [];
  text_of = text_of;
  bytes_of = bytes_of;
}

tag_shorter :
    (msg : List ℕ) (num : ℕ) (typ : WireType) (rest : List ℕ)
    → consume_tag msg ≡ some (num, typ, rest)
    → length rest < length msg
tag_shorter [] num typ rest e = absurd (let f = e in cc)
tag_shorter (a ∷ []) num typ rest e = absurd (let f = e in cc)
tag_shorter (a ∷ b ∷ more) num typ rest e = let s : more ≡ rest = cc in omega (arith, ap length s)

bytes_shorter :
    (msg v rest : List ℕ) → consume_bytes msg ≡ some (v, rest) → length rest ≤ length msg
bytes_shorter [] v rest e = absurd (let f = e in cc)
bytes_shorter (n ∷ more) v rest e = ground (arith, length-drop n more)

varint_shorter :
    (msg : List ℕ) (v : ℕ) (rest : List ℕ)
    → consume_varint msg ≡ some (v, rest)
    → length rest ≤ length msg
varint_shorter [] v rest e = absurd (let f = e in cc)
varint_shorter (n ∷ more) v rest e = ground arith

value_shorter :
    (num : ℕ) (typ : WireType) (msg rest : List ℕ)
    → consume_value num typ msg ≡ some rest
    → length rest ≤ length msg
value_shorter num varint_type [] rest e = absurd (let f = e in cc)
value_shorter num varint_type (n ∷ more) rest e = ground arith
value_shorter num bytes_type [] rest e = absurd (let f = e in cc)
value_shorter num bytes_type (n ∷ more) rest e = ground (arith, length-drop n more)
value_shorter num other_type msg rest e = absurd (let f = e in cc)

take-length : (v rest : List ℕ) → take (length v) (v ++ rest) ≡ v
take-length [] rest = refl
take-length (x ∷ v) rest = ap (λ r. x ∷ r) (take-length v rest)

drop-length : (v rest : List ℕ) → drop (length v) (v ++ rest) ≡ rest
drop-length [] rest = refl
drop-length (x ∷ v) rest = drop-length v rest

fits : (v rest : List ℕ) → leb (length v) (length (v ++ rest)) ≡ true
fits [] rest = ground arith
fits (x ∷ v) rest = ground (arith, fits v rest)

bytes_again : (v rest : List ℕ) → consume_bytes (length v ∷ v ++ rest) ≡ some (v, rest)
bytes_again v rest = rw (fits v rest, take-length, drop-length)

value_again :
    (num : ℕ) (v rest : List ℕ) → consume_value num bytes_type (length v ∷ v ++ rest) ≡ some rest
value_again num v rest = rw (bytes_again v rest)

pub plain_wire-IsWire : IsWire plain_wire
plain_wire-IsWire = record {
  tag_shorter = tag_shorter;
  bytes_shorter = bytes_shorter;
  varint_shorter = varint_shorter;
  value_shorter = value_shorter;
  tag_behind = λ dst num typ. refl;
  bytes_behind = λ dst v. refl;
  varint_behind = λ dst v. refl;
  tag_again = λ num typ rest h k. ap (λ t. some (num, t, rest)) (type_again typ);
  bytes_again = bytes_again;
  varint_again = λ v rest h. refl;
  value_again = value_again;
  text_again = text_again;
}
