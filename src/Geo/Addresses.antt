-- ===== src/Geo/Addresses.antt =====
-- internal/geo/geo.go and encode_test_helpers.go: geoip.dat, read and written. A prefix of netip may be
-- the invalid one, which is `none` here.
pub mod RoundTrip
use edge_route_gw.Prelude.{
  ℕ, zero, suc, ◌+◌, ◌*◌, ◌%◌, ◌^◌, String, Bool, true, false, not, ◌&&◌, List, [], ◌∷◌, ◌++◌,
  Option, none, some, length, ltb, leb, ◌==◌, if◌then◌else◌,
}
use edge_route_gw.Prelude.Sorting.{SortSlice}
use edge_route_gw.Net.{Addr, v4, v6, Prefix, bit_len, addr_less, addr_eq, masked}
use edge_route_gw.Geo.{Wire, Decoded, ok, Handler, ◌>>=◌, loop, skip, take_bytes, take_varint}
use edge_route_gw.Geo.Sites.{is_bytes, is_varint, put_bytes, put_varint, encode_list}

abbrev pub Slot : Type 0
Slot = Option Prefix

unfoldable pub big_endian : ℕ → List ℕ → ℕ
big_endian n [] = n
big_endian n (b ∷ rest) = big_endian (n * 256 + b) rest

-- netip.AddrFromSlice
unfoldable pub addr_from_slice : List ℕ → Option Addr
unfolding big_endian
addr_from_slice ip =
    if length ip == 4
    then some (v4 (big_endian 0 ip))
    else if length ip == 16
    then some (v6 (big_endian 0 ip))
    else none

-- A CIDR while its fields are read: the bytes of its address, and 64 bits.
pub record CidrDraft : Type 0 where
  pub ip : List ℕ
  pub bits : ℕ

abbrev pub empty_cidr : CidrDraft
empty_cidr = record { ip = []; bits = 0 }

-- netip.PrefixFrom(addr, int(bits)).Masked(), unless int(bits) is more than the address has. From
-- 2 ^ 63 on int(bits) is negative, and the prefix is the invalid one.
abbrev pub slot_at : Option Addr → ℕ → Option Slot
slot_at none bits = none
slot_at (some addr) bits =
    if leb (2 ^ 63) bits
    then some none
    else if ltb (bit_len addr) bits
    then none
    else some (some (masked (record { addr = addr; bits = bits })))

unfoldable pub slot_of : CidrDraft → Option Slot
unfolding addr_from_slice masked
slot_of d = slot_at (addr_from_slice d.ip) d.bits

abbrev pub add_slot : List Slot → Option Slot → List Slot
add_slot out none = out
add_slot out (some slot) = out ++ slot ∷ []

-- out[i].Addr().Less(out[j].Addr()); the invalid prefix has the zero address, which is the least.
unfoldable pub slot_addr_less : Slot → Slot → Bool
slot_addr_less none none = false
slot_addr_less none (some q) = true
slot_addr_less (some p) none = false
slot_addr_less (some p) (some q) = addr_less p.addr q.addr

-- The order of decodeGeoIP: by address, and the shorter prefix first.
unfoldable pub slot_less : Slot → Slot → Bool
slot_less none none = false
slot_less none (some q) = true
slot_less (some p) none = false
slot_less (some p) (some q) =
    if not (addr_eq p.addr q.addr) then addr_less p.addr q.addr else ltb p.bits q.bits

abbrev pub set_ip : CidrDraft → List ℕ → Decoded CidrDraft
set_ip d v = ok (record d { ip = v })

abbrev pub set_bits : CidrDraft → ℕ → CidrDraft
set_bits d v = record d { bits = v }

module _ (w : Wire) where
  abbrev pub cidr_field : Handler CidrDraft
  cidr_field num typ rest d =
      if num == 1 && is_bytes typ
      then take_bytes w set_ip num typ rest d
      else if num == 2 && is_varint typ
      then take_varint w set_bits num typ rest d
      else skip w num typ rest d

  -- the inner loop, and what follows it
  abbrev pub add_cidr : List Slot → List ℕ → Decoded (List Slot)
  add_cidr out cm = loop w cidr_field cm empty_cidr >>= λ d. ok (add_slot out (slot_of d))

  abbrev pub geoip_field : Handler (List Slot)
  geoip_field num typ rest out =
      if num == 2 && is_bytes typ
      then take_bytes w add_cidr num typ rest out
      else skip w num typ rest out

  -- `decodeGeoIP`
  unfoldable pub decode_geoip : SortSlice Slot → List ℕ → Decoded (List Slot)
  unfolding loop skip slot_of slot_less
  decode_geoip sorter msg = loop w geoip_field msg [] >>= λ out. ok (sorter.sort slot_less out)

  -- One entry of `EncodeIPList`; uint64(e.Bits) is a number of 64 bits.
  unfoldable pub encode_cidr : CidrDraft → List ℕ
  encode_cidr e = put_varint w (put_bytes w [] 1 e.ip) 2 (e.bits % 2 ^ 64)

  -- `EncodeIPList`
  unfoldable pub encode_ip_list : List (String × List CidrDraft) → List ℕ
  unfolding encode_list encode_cidr
  encode_ip_list sets = encode_list w encode_cidr [] sets
