-- ===== src/Net.antt =====
-- Go's net/netip as far as the gateway uses it: addresses, prefixes, and their tests.
-- An address is its value, an unsigned integer of 32 or 128 bits; zones are left out. The text
-- syntax (ParseAddr, ParsePrefix, String) is the record `NetText`, a parameter of the modules
-- that read text.
pub mod Prefixes
pub mod Text
use edge_route_gw.Prelude.{
  ℕ, ◌-◌, ◌*◌, ◌/◌, ◌%◌, ◌^◌, String, Bool, true, false, ◌&&◌, ◌||◌, Option, ltb, leb, ◌==◌,
  if◌then◌else◌,
}

pub data Addr : Type 0 where
  v4 v6 : ℕ → Addr

pub record Prefix : Type 0 where
  pub addr : Addr
  pub bits : ℕ

abbrev pub is4 : Addr → Bool
is4 (v4 _) = true
is4 (v6 _) = false

abbrev pub bit_len : Addr → ℕ
bit_len (v4 _) = 32
bit_len (v6 _) = 128

abbrev pub value : Addr → ℕ
value (v4 n) = n
value (v6 n) = n

-- a.As4()[0] and a.As4()[1]
abbrev pub byte0 : ℕ → ℕ
byte0 n = n / 2 ^ 24

abbrev pub byte1 : ℕ → ℕ
byte1 n = n / 2 ^ 16 % 256

-- ::ffff:a.b.c.d is taken to a.b.c.d
abbrev pub unmap : Addr → Addr
unmap (v4 n) = v4 n
unmap (v6 n) = if n / 2 ^ 32 == 0xffff then v4 (n % 2 ^ 32) else v6 n

abbrev pub is_unspecified : Addr → Bool
is_unspecified (v4 n) = n == 0
is_unspecified (v6 n) = n == 0

abbrev pub is_loopback : Addr → Bool
is_loopback (v4 n) = byte0 n == 127
is_loopback (v6 n) = n == 1

abbrev pub is_link_local_unicast : Addr → Bool
is_link_local_unicast (v4 n) = byte0 n == 169 && byte1 n == 254
is_link_local_unicast (v6 n) = n / 2 ^ 118 == 0x3fa

abbrev pub is_private : Addr → Bool
is_private (v4 n) =
    byte0 n == 10 || ((byte0 n == 172 && byte1 n / 16 == 1) || (byte0 n == 192 && byte1 n == 168))
is_private (v6 n) = n / 2 ^ 121 == 0x7e

abbrev pub is_multicast : Addr → Bool
is_multicast (v4 n) = byte0 n / 16 == 14
is_multicast (v6 n) = n / 2 ^ 120 == 0xff

abbrev pub is_link_local_multicast : Addr → Bool
is_link_local_multicast (v4 n) = n / 2 ^ 8 == 0xe00000
is_link_local_multicast (v6 n) = n / 2 ^ 120 == 0xff && n / 2 ^ 112 % 16 == 2

-- Compare looks at the length of the addresses first.
abbrev pub addr_less : Addr → Addr → Bool
addr_less (v4 a) (v4 b) = ltb a b
addr_less (v4 _) (v6 _) = true
addr_less (v6 _) (v4 _) = false
addr_less (v6 a) (v6 b) = ltb a b

abbrev pub addr_eq : Addr → Addr → Bool
addr_eq (v4 a) (v4 b) = a == b
addr_eq (v4 _) (v6 _) = false
addr_eq (v6 _) (v4 _) = false
addr_eq (v6 a) (v6 b) = a == b

abbrev pub prefix_eq : Prefix → Prefix → Bool
prefix_eq p q = addr_eq p.addr q.addr && p.bits == q.bits

-- The first `bits` bits of an address of `width` bits agree.
abbrev pub agree : ℕ → ℕ → ℕ → ℕ → Bool
agree width bits a b = a / 2 ^ (width - bits) == b / 2 ^ (width - bits)

abbrev pub addr_within : Addr → ℕ → Addr → Bool
addr_within (v4 a) bits (v4 b) = agree 32 bits a b
addr_within (v4 _) bits (v6 _) = false
addr_within (v6 _) bits (v4 _) = false
addr_within (v6 a) bits (v6 b) = agree 128 bits a b

unfoldable pub contains : Prefix → Addr → Bool
contains p a = addr_within p.addr p.bits a

abbrev pub mask : ℕ → ℕ → ℕ → ℕ
mask width bits a = a / 2 ^ (width - bits) * 2 ^ (width - bits)

abbrev pub mask_addr : ℕ → Addr → Addr
mask_addr bits (v4 a) = v4 (mask 32 bits a)
mask_addr bits (v6 a) = v6 (mask 128 bits a)

unfoldable pub masked : Prefix → Prefix
masked p = record { addr = mask_addr p.bits p.addr; bits = p.bits }

-- PrefixFrom(a, 32)
abbrev pub host_route : Addr → Prefix
host_route a = record { addr = a; bits = 32 }
