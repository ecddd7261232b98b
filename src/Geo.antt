-- ===== src/Geo.antt =====
-- internal/geo/geo.go: the reader of geosite.dat and geoip.dat, over the low-level reader of protobuf
-- messages (the protowire package), which is a parameter. A byte is a number, a message a list of them.
pub mod Loops
pub mod Sites
pub mod Reader
pub mod Addresses
pub mod IpIndex
pub mod SiteIndex
use edge_route_gw.Prelude.{
  ℕ, zero, suc, ◌+◌, ◌^◌, ◌≤◌, ◌<◌, String, List, [], ◌∷◌, ◌++◌, Option, none, some, length, ◌≡◌,
}

pub data WireType : Type 0 where
  varint_type bytes_type other_type : WireType

-- What the code calls of protowire, and the conversions between bytes and text. `none` stands for a
-- negative length, which ParseError turns to an error.
pub record Wire : Type 0 where
  pub consume_tag : List ℕ → Option (ℕ × WireType × List ℕ)
  pub consume_bytes : List ℕ → Option (List ℕ × List ℕ)
  pub consume_varint : List ℕ → Option (ℕ × List ℕ)
  pub consume_field_value : ℕ → WireType → List ℕ → Option (List ℕ)
  pub append_tag : List ℕ → ℕ → WireType → List ℕ
  pub append_bytes : List ℕ → List ℕ → List ℕ
  pub append_varint : List ℕ → ℕ → List ℕ
  pub text_of : List ℕ → String
  pub bytes_of : String → List ℕ

-- The documented behaviour: what is read is taken off the front, and what was appended is read back.
pub record IsWire (w : Wire) : Type 0 where
  pub tag_shorter :
      (msg : List ℕ) (num : ℕ) (typ : WireType) (rest : List ℕ)
      → w.consume_tag msg ≡ some (num, typ, rest)
      → length rest < length msg
  pub bytes_shorter :
      (msg v rest : List ℕ) → w.consume_bytes msg ≡ some (v, rest) → length rest ≤ length msg
  pub varint_shorter :
      (msg : List ℕ) (v : ℕ) (rest : List ℕ)
      → w.consume_varint msg ≡ some (v, rest)
      → length rest ≤ length msg
  pub value_shorter :
      (num : ℕ) (typ : WireType) (msg rest : List ℕ)
      → w.consume_field_value num typ msg ≡ some rest
      → length rest ≤ length msg
  pub tag_behind :
      (dst : List ℕ) (num : ℕ) (typ : WireType)
      → w.append_tag dst num typ ≡ dst ++ w.append_tag [] num typ
  pub bytes_behind : (dst v : List ℕ) → w.append_bytes dst v ≡ dst ++ w.append_bytes [] v
  pub varint_behind : (dst : List ℕ) (v : ℕ) → w.append_varint dst v ≡ dst ++ w.append_varint [] v
  pub tag_again :
      (num : ℕ) (typ : WireType) (rest : List ℕ)
      → 1 ≤ num
      → num < 2 ^ 29
      → w.consume_tag (w.append_tag [] num typ ++ rest) ≡ some (num, typ, rest)
  pub bytes_again :
      (v rest : List ℕ) → w.consume_bytes (w.append_bytes [] v ++ rest) ≡ some (v, rest)
  pub varint_again :
      (v : ℕ) (rest : List ℕ)
      → v < 2 ^ 64
      → w.consume_varint (w.append_varint [] v ++ rest) ≡ some (v, rest)
  pub value_again :
      (num : ℕ) (v rest : List ℕ)
      → w.consume_field_value num bytes_type (w.append_bytes [] v ++ rest) ≡ some rest
  pub text_again : (s : String) → w.text_of (w.bytes_of s) ≡ s

-- What decoding gives: a value, an error, or nothing because the fuel ran out.
pub data Decoded {ℓ} (A : Type ℓ) : Type ℓ where
  ok : A → Decoded A
  bad : Decoded A
  stuck : Decoded A

-- What one field does to a loop over a message.
pub data Next {ℓ} (S : Type ℓ) : Type ℓ where
  next : S → List ℕ → Next S
  stop : S → Next S

infixl 5 ◌>>=◌
abbrev pub ◌>>=◌ {ℓ κ} : {A : Type ℓ} {B : Type κ} → Decoded A → (A → Decoded B) → Decoded B
ok a >>= f = f a
bad >>= f = bad
stuck >>= f = stuck

abbrev pub or_bad {ℓ} : {A : Type ℓ} → Option A → Decoded A
or_bad none = bad
or_bad (some a) = ok a

abbrev pub Handler {ℓ} : Type ℓ → Type ℓ
Handler S = ℕ → WireType → List ℕ → S → Decoded (Next S)

module _ {ℓ} {S : Type ℓ} where
  abbrev pub read_field : Handler S → S → Option (ℕ × WireType × List ℕ) → Decoded (Next S)
  read_field handle s none = bad
  read_field handle s (some (num, typ, rest)) = handle num typ rest s

  abbrev pub go_on : (List ℕ → S → Decoded S) → Decoded (Next S) → Decoded S
  go_on again (ok (next s rest)) = again rest s
  go_on again (ok (stop s)) = ok s
  go_on again bad = bad
  go_on again stuck = stuck

  -- `for len(msg) > 0`: a tag is read, and the field behind it is handled
  unfoldable pub walk : Wire → Handler S → ℕ → List ℕ → S → Decoded S
  walk w handle fuel [] s = ok s
  walk w handle zero (b ∷ bs) s = stuck
  walk w handle (suc fuel) (b ∷ bs) s =
      go_on (walk w handle fuel) (read_field handle s (w.consume_tag (b ∷ bs)))

  -- A tag takes a byte at least, so there are rounds enough for the bytes of the message.
  unfoldable pub loop : Wire → Handler S → List ℕ → S → Decoded S
  unfolding walk
  loop w handle msg s = walk w handle (length msg) msg s

-- A field that is not asked for.
unfoldable pub skip {ℓ} : {S : Type ℓ} → Wire → Handler S
skip w num typ rest s = or_bad (w.consume_field_value num typ rest) >>= λ rest'. ok (next s rest')

module _ {ℓ} {S : Type ℓ} (w : Wire) where
  -- ConsumeBytes, and what is done with the bytes
  abbrev pub take_bytes : (S → List ℕ → Decoded S) → Handler S
  take_bytes f num typ rest s =
      or_bad (w.consume_bytes rest) >>= λ r. f s r.0 >>= λ s'. ok (next s' r.1)

  -- ConsumeVarint, and what is done with the number
  abbrev pub take_varint : (S → ℕ → S) → Handler S
  take_varint f num typ rest s = or_bad (w.consume_varint rest) >>= λ r. ok (next (f s r.0) r.1)
