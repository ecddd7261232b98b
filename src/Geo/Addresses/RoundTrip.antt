-- ===== src/Geo/Addresses/RoundTrip.antt =====
-- What `EncodeIPList` writes is read back, and the decoder ends on every input.
use edge_route_gw.Prelude.{
  ℕ, ◌+◌, ◌-◌, ◌*◌, ◌%◌, ◌^◌, ◌<◌, length, leb, if◌then◌else◌, String, List, [], ◌∷◌, ◌++◌, ◌≡◌,
  ◌≢◌, refl, sym, ap, ◌∙◌, Option, none, some, append-nil, append_assoc, arith, ◌==◌, ◌&&◌,
  Bool-cases, inl, inr,
}
use edge_route_gw.Prelude.Sorting.{SortSlice}
use edge_route_gw.Geo.{Wire, IsWire, varint_type, ok, stuck, loop, ◌>>=◌}
use edge_route_gw.Geo.Loops.{
  IsHandler, Decoded-cases, loop-nil, loop-ends, loop_field, skip-IsHandler, take_bytes-IsHandler,
  take_varint-IsHandler, choose-IsHandler,
}
use edge_route_gw.Geo.Sites.{is_bytes, is_varint, put_bytes, encode_tag}
use edge_route_gw.Geo.Sites.RoundTrip.{
  put_bytes-append, put_varint-append, varint_field, bytes_field, loop_bytes,
}
use edge_route_gw.Geo.Sites.Lists.{items_bytes, items_given, loop_tag}
use edge_route_gw.Geo.Reader.Cache.{fresh}
use edge_route_gw.Geo.Reader.Encoded.{answer_given, fresh-encode_list}
use native.Mathlib.Nat.{div-add-mod, pow-suc}
use edge_route_gw.Net.{Addr, v4, v6, masked, mask}
use edge_route_gw.Geo.Addresses.{
  Slot, big_endian, addr_from_slice, slot_at, CidrDraft, empty_cidr, slot_of, add_slot, slot_less,
  set_ip, set_bits, cidr_field, add_cidr, geoip_field, decode_geoip, encode_cidr, encode_ip_list,
}

-- The number that bytes write, the first byte with the greatest weight.
abbrev pub weigh : List ℕ → ℕ
weigh [] = 0
weigh (b ∷ rest) = b * 256 ^ length rest + weigh rest

-- The prefix of an address of that many bits: its last `width - bits` bits are cleared. A number of
-- bits that is negative as a signed number of 64 bits gives the invalid prefix.
abbrev pub given_prefix : (ℕ → Addr) → ℕ → ℕ → ℕ → Option Slot
given_prefix addr width n bits =
    if leb (2 ^ 63) bits
    then some none
    else if leb bits width
    then some (some (record { addr = addr (n - n % 2 ^ (width - bits)); bits = bits }))
    else none

-- The prefix that an entry stands for: four bytes are an IPv4 address, sixteen an IPv6 address.
abbrev pub given_slot : List ℕ → ℕ → Option Slot
given_slot ip bits =
    if length ip == 4
    then given_prefix v4 32 (weigh ip) bits
    else if length ip == 16
    then given_prefix v6 128 (weigh ip) bits
    else none

abbrev slot_in_front : Option Slot → List Slot → List Slot
slot_in_front none slots = slots
slot_in_front (some slot) slots = slot ∷ slots

-- The prefixes of the entries that have one, in the order of the entries. A number of bits is
-- written as 64 bits.
abbrev pub slots_of : List CidrDraft → List Slot
slots_of [] = []
slots_of (e ∷ rest) = slot_in_front (given_slot e.ip (e.bits % 2 ^ 64)) (slots_of rest)

big_endian-weigh : (n : ℕ) (bs : List ℕ) → big_endian n bs ≡ n * 256 ^ length bs + weigh bs
unfolding big_endian
big_endian-weigh n [] = omega arith
big_endian-weigh n (b ∷ bs) =
    big_endian-weigh (n * 256 + b) bs
    ∙ shifted n b (256 ^ length bs) (weigh bs)
    ∙ ap (λ p. n * p + (b * 256 ^ length bs + weigh bs)) (sym (pow-suc 256 (length bs)))
  where
    shifted : (n b p v : ℕ) → (n * 256 + b) * p + v ≡ n * (p * 256) + (b * p + v)
    shifted n b p v = grind arith

big_endian_from_zero : (bs : List ℕ) → big_endian 0 bs ≡ weigh bs
big_endian_from_zero bs = big_endian-weigh 0 bs ∙ omega arith

mask-clears : (width bits n : ℕ) → mask width bits n ≡ n - n % 2 ^ (width - bits)
mask-clears width bits n = omega (arith, div-add-mod n (2 ^ (width - bits)))

slot_at-given_v4 : (n bits : ℕ) → slot_at (some (v4 n)) bits ≡ given_prefix v4 32 n bits
unfolding masked
slot_at-given_v4 n bits = ground (arith, mask-clears 32 bits n)

slot_at-given_v6 : (n bits : ℕ) → slot_at (some (v6 n)) bits ≡ given_prefix v6 128 n bits
unfolding masked
slot_at-given_v6 n bits = ground (arith, mask-clears 128 bits n)

slot_of-given : (e : CidrDraft) → slot_of e ≡ given_slot e.ip e.bits
unfolding slot_of addr_from_slice
slot_of-given e =
    let n = big_endian_from_zero e.ip in
    elim (Bool-cases (length e.ip == 4)) [
      | inl four ↦ rw (four, n) (slot_at-given_v4 (weigh e.ip) e.bits)
      | inr other ↦ elim (Bool-cases (length e.ip == 16)) [
        | inl six ↦ rw (other, six, n) (slot_at-given_v6 (weigh e.ip) e.bits)
        | inr none' ↦ rw (other, none')
      ]
    ]

module _ {w : Wire} (wire : IsWire w) where
  cidr_field-IsHandler : IsHandler (cidr_field w)
  cidr_field-IsHandler =
      choose-IsHandler (λ num typ. num == 1 && is_bytes typ)
        (take_bytes-IsHandler wire set_ip (λ d v e. cc))
        (choose-IsHandler (λ num typ. num == 2 && is_varint typ)
          (take_varint-IsHandler wire set_bits) (skip-IsHandler wire))

  add_cidr-ends : (out : List Slot) (cm : List ℕ) → add_cidr w out cm ≢ stuck
  add_cidr-ends out cm e = ground (
    arith,
    loop-ends wire cidr_field-IsHandler cm empty_cidr,
    Decoded-cases (loop w (cidr_field w) cm empty_cidr),
  )

  geoip_field-IsHandler : IsHandler (geoip_field w)
  geoip_field-IsHandler =
      choose-IsHandler (λ num typ. num == 2 && is_bytes typ)
        (take_bytes-IsHandler wire (add_cidr w) add_cidr-ends) (skip-IsHandler wire)

  pub decode_geoip-ends :
      (sorter : SortSlice Slot) (msg : List ℕ) → decode_geoip w sorter msg ≢ stuck
  unfolding decode_geoip
  decode_geoip-ends sorter msg e = ground (
    arith,
    loop-ends wire geoip_field-IsHandler msg [],
    Decoded-cases (loop w (geoip_field w) msg []),
  )

  -- An entry with its number of bits as 64 bits.
  abbrev pub as_written : CidrDraft → CidrDraft
  as_written e = record { ip = e.ip; bits = e.bits % 2 ^ 64 }

  decode-bits :
      (v : ℕ) (rest : List ℕ) (d : CidrDraft)
      → v < 2 ^ 64
      → loop w (cidr_field w) (varint_field wire 2 v rest) d
        ≡ loop w (cidr_field w) rest (set_bits d v)
  decode-bits v rest d h =
      loop_field wire cidr_field-IsHandler d (set_bits d v) 2 varint_type (w.append_varint [] v)
        rest (omega arith) (omega arith) (rw (wire.varint_again v rest h))

  decode-ip :
      (v rest : List ℕ) (d : CidrDraft)
      → loop w (cidr_field w) (bytes_field wire 1 v rest) d
        ≡ loop w (cidr_field w) rest (record d { ip = v })
  decode-ip v rest d =
      loop_bytes wire cidr_field-IsHandler set_ip 1 v rest d (record d { ip = v }) (omega arith)
        (omega arith) (λ r. refl) refl

  cidr_bytes :
      (e : CidrDraft)
      → encode_cidr w e ≡ bytes_field wire 1 e.ip (varint_field wire 2 (e.bits % 2 ^ 64) [])
  unfolding encode_cidr
  cidr_bytes e =
      sym (append-nil _)
      ∙ put_varint-append wire (put_bytes w [] 1 e.ip) 2 (e.bits % 2 ^ 64) []
      ∙ put_bytes-append wire [] 1 e.ip (varint_field wire 2 (e.bits % 2 ^ 64) [])

  decode-cidr :
      (e : CidrDraft) → loop w (cidr_field w) (encode_cidr w e) empty_cidr ≡ ok (as_written e)
  decode-cidr e =
      ap (λ m. loop w (cidr_field w) m empty_cidr) (cidr_bytes e)
      ∙ decode-ip e.ip _ empty_cidr
      ∙ decode-bits (e.bits % 2 ^ 64) [] _ (omega arith)
      ∙ loop-nil w (cidr_field w) _

  added_slot :
      (slot : Option Slot) (out rest : List Slot)
      → add_slot out slot ++ rest ≡ out ++ slot_in_front slot rest
  added_slot none out rest = refl
  added_slot (some slot) out rest = append_assoc out (slot ∷ []) rest

  decode-cidrs :
      (entries : List CidrDraft) (out : List Slot)
      → loop w (geoip_field w) (items_bytes wire (encode_cidr w) entries) out
        ≡ ok (out ++ slots_of entries)
  decode-cidrs [] out = loop-nil w (geoip_field w) out ∙ simp append-nil
  decode-cidrs (e ∷ rest) out =
      let slot = given_slot e.ip (e.bits % 2 ^ 64) in
      let out' : List Slot = add_slot out slot in
      loop_bytes wire geoip_field-IsHandler (add_cidr w) 2 (encode_cidr w e) _ out out'
        (omega arith) (omega arith) (λ r. refl) (rw (decode-cidr e, slot_of-given (as_written e)))
      ∙ decode-cidrs rest out'
      ∙ ap ok (added_slot slot out (slots_of rest))

  decode_geoip-encode_tag :
      (sorter : SortSlice Slot) (tag : String) (entries : List CidrDraft)
      → decode_geoip w sorter (encode_tag w (encode_cidr w) tag entries)
        ≡ ok (sorter.sort slot_less (slots_of entries))
  unfolding decode_geoip
  decode_geoip-encode_tag sorter tag entries =
      ap (λ r. r >>= λ out. ok (sorter.sort slot_less out))
        (loop_tag wire (encode_cidr w) geoip_field-IsHandler tag entries [] (λ r. refl)
          ∙ decode-cidrs entries [])

  -- In a file that EncodeIPList has written, a tag that was not given is not found, and a tag that was
  -- given, in any case of its letters, is answered with the prefixes given for it last, sorted: those
  -- whose address has four or sixteen bytes and whose number of bits, as 64 bits, fits it or is
  -- negative, each with the bits after that number cleared.
  pub fresh-encode_ip_list :
      (sorter : SortSlice Slot) (key : String) (sets : List (String × List CidrDraft))
      → fresh w (decode_geoip w sorter) key (encode_ip_list w sets)
        ≡ answer_given
            (items_given (λ entries. sorter.sort slot_less (slots_of entries)) key sets none)
  unfolding encode_ip_list
  fresh-encode_ip_list sorter key sets =
      fresh-encode_list wire (encode_cidr w) (decode_geoip w sorter)
        (λ entries. sorter.sort slot_less (slots_of entries)) (decode_geoip-encode_tag sorter) key
        sets
