-- ===== src/Resolver/Answers.antt =====
-- Which addresses `DNSLookup` of internal/resolver/resolver.go lets through.
use edge_route_gw.Prelude.{
  ℕ, Bool, true, false, not, ◌&&◌, ◌||◌, List, [], ◌∷◌, ◌++◌, ◌≡◌, refl, sym, ap, ◌∙◌, all, keep,
  leb, ◌==◌, append-nil, append_assoc, arith, is_nil, inl, inr, Bool-cases,
}
use edge_route_gw.Net.{Addr, v4, v6, is4}
use edge_route_gw.Resolver.{
  Record, a_record, other_record, Reply, no_reply, reply, found, is_bogon, collect, not_empty,
  read_reply, over_tcp, dns_lookup,
}

abbrev among : ℕ → ℕ → ℕ → Bool
among low high n = leb low n && leb n high

-- An IPv4 address outside 0.0.0.0, 10.0.0.0/8, 127.0.0.0/8, 169.254.0.0/16, 172.16.0.0/12,
-- 192.168.0.0/16 and 224.0.0.0/4, by the first and the last number of each.
abbrev pub is_usable : Addr → Bool
is_usable (v6 n) = false
is_usable (v4 n) = not (
    n == 0
    || (among 167772160 184549375 n
        || (among 2130706432 2147483647 n
            || (among 2851995648 2852061183 n
                || (among 2886729728 2887778303 n
                    || (among 3232235520 3232301055 n || among 3758096384 4026531839 n))))))

usable_of : (ip : Addr) → (not (is4 ip) || is_bogon ip) ≡ not (is_usable ip)
usable_of (v6 n) = refl
usable_of (v4 n) = ground arith

-- The addresses of the A records, in order.
abbrev pub addresses : List Record → List Addr
addresses [] = []
addresses (other_record ∷ rest) = addresses rest
addresses (a_record ip ttl ∷ rest) = ip ∷ addresses rest

abbrev pub answers_of : Reply → List Record
answers_of (no_reply why) = []
answers_of (reply success truncated code answers) = answers

all-keep : (p : Addr → Bool) (ips : List Addr) → all p (keep p ips) ≡ true
all-keep p [] = refl
all-keep p (ip ∷ ips) = ground (arith, all-keep p ips)

collect-keep :
    (answers : List Record) (addrs : List Addr) (least : ℕ)
    → (collect answers addrs least).0 ≡ addrs ++ keep is_usable (addresses answers)
unfolding collect
collect-keep [] addrs least = simp append-nil
collect-keep (other_record ∷ rest) addrs least = collect-keep rest addrs least
collect-keep (a_record ip ttl ∷ rest) addrs least = elim (Bool-cases (is_usable ip)) [
  | inl good ↦
      rw (usable_of ip ∙ ap not good, good)
        (collect-keep rest _ _ ∙ append_assoc addrs (ip ∷ []) (keep is_usable (addresses rest)))
  | inr bad ↦ rw (usable_of ip ∙ ap not bad, bad) (collect-keep rest addrs least)
]

not_empty-found :
    (got : List Addr × ℕ) (addrs : List Addr) (ttl : ℕ)
    → not_empty got ≡ found addrs ttl
    → (addrs ≡ got.0) × (is_nil addrs ≡ false)
not_empty-found ([], least) addrs ttl e = absurd (cc)
not_empty-found (ip ∷ ips, least) addrs ttl e =
    let same : ip ∷ ips ≡ addrs = cc in (sym same, ap is_nil (sym same))

read_reply-found :
    (r : Reply) (addrs : List Addr) (ttl : ℕ)
    → read_reply r ≡ found addrs ttl
    → (addrs ≡ keep is_usable (addresses (answers_of r))) × (is_nil addrs ≡ false)
read_reply-found (no_reply why) addrs ttl e = absurd (cc)
read_reply-found (reply false truncated code answers) addrs ttl e = absurd (cc)
read_reply-found (reply true truncated code answers) addrs ttl e =
    let (same, some') = not_empty-found (collect answers [] 0) addrs ttl e in
    (same ∙ collect-keep answers [] 0, some')

-- A lookup that succeeds gives the addresses of the A records of the reply that is read, in order,
-- but for those in 0.0.0.0, 10.0.0.0/8, 127.0.0.0/8, 169.254.0.0/16, 172.16.0.0/12, 192.168.0.0/16 and
-- 224.0.0.0/4 and those that are not IPv4; so none of its addresses is one of these, and there is at
-- least one.
pub dns_lookup-found :
    (udp tcp : Reply) (addrs : List Addr) (ttl : ℕ)
    → dns_lookup udp tcp ≡ found addrs ttl
    → (addrs ≡ keep is_usable (addresses (answers_of (over_tcp udp tcp))))
      × (all is_usable addrs ≡ true)
      × (is_nil addrs ≡ false)
unfolding dns_lookup
dns_lookup-found udp tcp addrs ttl e =
    let (same, some') = read_reply-found (over_tcp udp tcp) addrs ttl e in
    (
      same,
      ap (all is_usable) same ∙ all-keep is_usable (addresses (answers_of (over_tcp udp tcp))),
      some',
    )
