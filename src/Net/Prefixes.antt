-- ===== src/Net/Prefixes.antt =====
-- What holds of `contains` and `masked`.
use edge_route_gw.Prelude.{ℕ, ◌-◌, ◌≤◌, ◌≡◌, refl, Bool, true, ◌&&◌, arith, leb, ==_iff}
use edge_route_gw.Prelude.Div.{shift_agree, two_pow_pos}
use edge_route_gw.Net.{Addr, v4, v6, Prefix, agree, addr_within, contains, mask, masked, mask_addr}
use native.Mathlib.Nat.{mul-div_left}

-- An address agrees with another in fewer bits if it does in more.
agree_fewer : (w i j a b : ℕ) → i ≤ j → agree w j a b ≡ true → agree w i a b ≡ true
agree_fewer w i j a b h e =
    (==_iff _ _).1 (shift_agree a b (w - j) (w - i) (omega arith) ((==_iff _ _).0 e))

agree_trans : (w i a b c : ℕ) → agree w i a b ≡ true → agree w i b c ≡ true → agree w i a c ≡ true
agree_trans w i a b c e f = ground arith

-- `p` covers `q`: every address of `q` is one of `p`.
abbrev pub covers : Prefix → Prefix → Bool
covers p q = leb p.bits q.bits && contains p q.addr

addr_within_trans :
    (a b c : Addr) (i j : ℕ)
    → i ≤ j
    → addr_within a i b ≡ true
    → addr_within b j c ≡ true
    → addr_within a i c ≡ true
addr_within_trans (v4 a) (v4 b) (v4 c) i j h e f =
    agree_trans 32 i a b c e (agree_fewer 32 i j b c h f)
addr_within_trans (v6 a) (v6 b) (v6 c) i j h e f =
    agree_trans 128 i a b c e (agree_fewer 128 i j b c h f)
addr_within_trans (v4 a) (v6 b) c i j h e f = cc
addr_within_trans (v6 a) (v4 b) c i j h e f = cc
addr_within_trans (v4 a) (v4 b) (v6 c) i j h e f = cc
addr_within_trans (v6 a) (v6 b) (v4 c) i j h e f = cc

pub contains-covers :
    (p q : Prefix) (a : Addr) → covers p q ≡ true → contains q a ≡ true → contains p a ≡ true
unfolding contains
contains-covers p q a c h =
    addr_within_trans p.addr q.addr a p.bits q.bits (ground arith) (ground arith) h

pub covers_trans : (p q r : Prefix) → covers p q ≡ true → covers q r ≡ true → covers p r ≡ true
covers_trans p q r c d = ground (arith, contains-covers p q r.addr c)

-- The prefixes that contain an address are nested.
addr_within_nested :
    (a b x : Addr) (i j : ℕ)
    → i ≤ j
    → addr_within a i x ≡ true
    → addr_within b j x ≡ true
    → addr_within a i b ≡ true
addr_within_nested (v4 a) (v4 b) (v4 x) i j h e f = ground (arith, agree_fewer 32 i j b x h f)
addr_within_nested (v6 a) (v6 b) (v6 x) i j h e f = ground (arith, agree_fewer 128 i j b x h f)
addr_within_nested (v4 a) b (v6 x) i j h e f = cc
addr_within_nested (v6 a) b (v4 x) i j h e f = cc
addr_within_nested (v4 a) (v6 b) (v4 x) i j h e f = cc
addr_within_nested (v6 a) (v4 b) (v6 x) i j h e f = cc

pub nested :
    (p q : Prefix) (x : Addr)
    → p.bits ≤ q.bits
    → contains p x ≡ true
    → contains q x ≡ true
    → covers p q ≡ true
unfolding contains
nested p q x h e f = ground (arith, addr_within_nested p.addr q.addr x p.bits q.bits h e f)

agree-mask : (w bits a b : ℕ) → agree w bits (mask w bits a) b ≡ agree w bits a b
agree-mask w bits a b = rw (mul-div_left _ (two_pow_pos (w - bits)))

mask_within : (a x : Addr) (bits : ℕ) → addr_within (mask_addr bits a) bits x ≡ addr_within a bits x
mask_within (v4 a) (v4 x) bits = agree-mask 32 bits a x
mask_within (v4 a) (v6 x) bits = refl
mask_within (v6 a) (v4 x) bits = refl
mask_within (v6 a) (v6 x) bits = agree-mask 128 bits a x

-- Masking a prefix keeps its addresses.
pub contains-masked : (p : Prefix) (x : Addr) → contains (masked p) x ≡ contains p x
unfolding contains masked
contains-masked p x = mask_within p.addr x p.bits

self_within : (a : Addr) (bits : ℕ) → addr_within a bits a ≡ true
self_within (v4 a) bits = ground arith
self_within (v6 a) bits = ground arith

pub contains_self : (p : Prefix) → contains p p.addr ≡ true
unfolding contains
contains_self p = self_within p.addr p.bits
