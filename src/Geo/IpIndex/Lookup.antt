-- ===== src/Geo/IpIndex/Lookup.antt =====
-- Which prefixes the search of the index finds.
use edge_route_gw.Prelude.{
  ℕ, zero, suc, ◌≤◌, Bool, true, false, not, ◌+◌, ◌-◌, ◌*◌, ◌/◌, ◌^◌, ◌<◌, all, ==_iff, ltb, List,
  [], ◌∷◌, ◌++◌, none, some, any, take, count_if, ◌≡◌, refl, ◌∙◌, Bool-cases, inl, inr, arith,
}
use edge_route_gw.Prelude.Sorting.{IsSorted, IsChainFrom}
use edge_route_gw.Net.{
  Addr, v4, v6, Prefix, addr_less, contains, masked, addr_within, mask_addr, mask, agree,
}
use native.Mathlib.Nat.{div-mul-le_self}
use edge_route_gw.Net.Prefixes.{contains-masked}
use edge_route_gw.Geo.Addresses.{Slot, slot_addr_less}
use edge_route_gw.Geo.IpIndex.{slot_contains, starts_after, started, is_hit}

any-take_more :
    {A : Type 0} (p : A → Bool) (n m : ℕ) (xs : List A)
    → n ≤ m
    → any p (take n xs) ≡ true
    → any p (take m xs) ≡ true
any-take_more p zero m xs h e = cc
any-take_more p (suc n) zero xs h e = absurd (omega arith)
any-take_more p (suc n) (suc m) [] h e = e
any-take_more p (suc n) (suc m) (x ∷ xs) h e = ground (arith, any-take_more p n m xs)

-- A prefix that does not start after the address.
abbrev pub is_started : Addr → Slot → Bool
is_started addr q = not (starts_after addr q)

module _ (addr : Addr) (test : Slot → Bool) where
  started_behind :
      (post seen : List Slot) (k : ℕ)
      → any test (take k seen) ≡ true
      → any test (take (k + count_if (is_started addr) post) (started addr seen post)) ≡ true
  unfolding started
  started_behind [] seen k h = any-take_more test k (k + 0) seen (omega arith) h
  started_behind (q ∷ post) seen k h = elim (Bool-cases (starts_after addr q)) [
    | inl e ↦ rw e (any-take_more test k _ seen (omega arith) h)
    | inr e ↦ rw e (
        any-take_more test _ _ _ (omega arith)
          (started_behind post (q ∷ seen) (suc k) (ground arith)))
  ]

  started_at :
      (before post seen : List Slot) (p : Slot)
      → all (is_started addr) before ≡ true
      → starts_after addr p ≡ false
      → test p ≡ true
      → any test
          (take (1 + count_if (is_started addr) post) (started addr seen (before ++ p ∷ post)))
        ≡ true
  unfolding started
  started_at [] post seen p h k t = rw k (started_behind post (p ∷ seen) 1 (ground arith))
  started_at (q ∷ before) post seen p h k t =
      let e : starts_after addr q ≡ false = ground arith in
      rw e (started_at before post (q ∷ seen) p (ground arith) k t)

not_after_trans :
    (addr : Addr) (b h : Slot)
    → slot_addr_less h b ≡ false
    → starts_after addr h ≡ false
    → starts_after addr b ≡ false
unfolding slot_addr_less
not_after_trans addr none h e k = refl
not_after_trans addr (some b) none e k = cc
not_after_trans addr (some b) (some h) e k = addr_trans addr b.addr h.addr e k
  where
    addr_trans :
        (a b h : Addr) → addr_less h b ≡ false → addr_less a h ≡ false → addr_less a b ≡ false
    addr_trans (v4 a) (v4 b) (v4 h) e k = ground arith
    addr_trans (v6 a) (v6 b) (v6 h) e k = ground arith
    addr_trans (v4 a) (v4 b) (v6 h) e k = cc
    addr_trans (v4 a) (v6 b) (v4 h) e k = cc
    addr_trans (v4 a) (v6 b) (v6 h) e k = cc
    addr_trans (v6 a) (v4 b) (v4 h) e k = refl
    addr_trans (v6 a) (v4 b) (v6 h) e k = refl
    addr_trans (v6 a) (v6 b) (v4 h) e k = cc

all_started :
    (addr : Addr) (b : Slot) (before post : List Slot) (p : Slot)
    → IsChainFrom slot_addr_less b (before ++ p ∷ post)
    → starts_after addr p ≡ false
    → (starts_after addr b ≡ false) × (all (is_started addr) before ≡ true)
all_started addr b [] post p (e, rest) k = (not_after_trans addr b p e k, refl)
all_started addr b (q ∷ before) post p (e, rest) k =
    let (now, later) = all_started addr q before post p rest k in
    (not_after_trans addr b q e now, ground arith)

all_started-IsSorted :
    (addr : Addr) (before post : List Slot) (p : Slot)
    → IsSorted slot_addr_less (before ++ p ∷ post)
    → starts_after addr p ≡ false
    → all (is_started addr) before ≡ true
all_started-IsSorted addr [] post p h k = refl
all_started-IsSorted addr (b ∷ before) post p h k =
    let (now, later) = all_started addr b before post p h k in ground arith

mask-not_less : (w bits a x : ℕ) → agree w bits a x ≡ true → ltb x (mask w bits a) ≡ false
mask-not_less w bits a x h =
    let e : a / 2 ^ (w - bits) ≡ x / 2 ^ (w - bits) = (==_iff _ _).0 h in
    let le : x / 2 ^ (w - bits) * 2 ^ (w - bits) ≤ x = div-mul-le_self x (2 ^ (w - bits)) in
    rw e (ground arith)

-- An address is not less than the prefix that contains it.
contained_not_less :
    (a x : Addr) (bits : ℕ) → addr_within a bits x ≡ true → addr_less x (mask_addr bits a) ≡ false
contained_not_less (v4 a) (v4 x) bits h = mask-not_less 32 bits a x h
contained_not_less (v4 a) (v6 x) bits h = cc
contained_not_less (v6 a) (v4 x) bits h = cc
contained_not_less (v6 a) (v6 x) bits h = mask-not_less 128 bits a x h

-- In a sorted list, a prefix that contains the address has the list found, if fewer than sixteen of the
-- prefixes behind it start at the address or before it.
pub hit_complete :
    (addr : Addr) (before post : List Slot) (p : Prefix)
    → IsSorted slot_addr_less (before ++ some (masked p) ∷ post)
    → contains p addr ≡ true
    → count_if (is_started addr) post < 16
    → is_hit addr (before ++ some (masked p) ∷ post) ≡ true
unfolding is_hit contains masked
hit_complete addr before post p sorted inside few =
    let first : starts_after addr (some (masked p)) ≡ false =
      contained_not_less p.addr addr p.bits inside in
    any-take_more (slot_contains addr) (1 + count_if (is_started addr) post) 16 _ (omega arith) (
      started_at addr (slot_contains addr) before post [] (some (masked p))
        (all_started-IsSorted addr before post _ sorted first) first
        (contains-masked p addr ∙ inside))
