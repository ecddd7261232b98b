-- ===== src/Resolver/Retry.antt =====
-- The delays of internal/resolver: `FailRetry`, and the wait of `round`.
use native.Mathlib.Nat.{pow-suc, pow-zero}
use mathlib.Core.List.{Memᴰ}
use edge_route_gw.Prelude.{
  ℕ, zero, suc, ◌+◌, ◌-◌, ◌*◌, ◌^◌, ◌≤◌, ◌<◌, min, max, true, String, List, [], ◌∷◌, Option, none,
  some, ◌≡◌, refl, ap, ◌∙◌, arith, any, ltb, str_eq, inl, inr, Bool-cases, Option-cases,
  if◌then◌else◌,
}
use edge_route_gw.Prelude.Div.{two_pow_pos}
use edge_route_gw.Desired.{ResolvedEntry}
use edge_route_gw.Resolver.{
  min_ttl, doubled, fail_retry, sooner, next_due, Round, no_list, no_domains, no_refresh,
  no_entries, refreshed_round, round_wait,
}

mul_regroup : (d p : ℕ) → d * 2 * p ≡ d * (p * 2)
mul_regroup d p = grind arith

le_mul_pos : (d p : ℕ) → 0 < p → d ≤ d * p
le_mul_pos d p h = grind arith

doubled-pow : (k d : ℕ) → min (doubled k d) 300 ≡ min (d * 2 ^ k) 300
unfolding doubled
doubled-pow zero d = rw pow-zero (omega arith)
doubled-pow (suc k) d = elim (Bool-cases (ltb d min_ttl)) [
  | inl short ↦
      rw short (doubled-pow k (d * 2) ∙ ap (λ n. min n 300) (rw pow-suc (mul_regroup d (2 ^ k))))
  | inr long ↦
      let big : 300 ≤ d = ground (arith, long) in
      rw long (omega (arith, le_mul_pos d (2 ^ suc k) (two_pow_pos (suc k)), big))
]

-- The n-th failure in a row is tried again after 10 seconds times two to the power of n-1, or after
-- five minutes if that is longer.
pub fail_retry-pow : (n : ℕ) → fail_retry (suc n) ≡ min (10 * 2 ^ n) 300
unfolding fail_retry
fail_retry-pow n = let e : suc n - 1 ≡ n = omega arith in rw e (doubled-pow n 10)

-- what is known of the wait for one more row
sooner-some : (d : ℕ) (next : Option ℕ) → (k : ℕ) × (sooner d next ≡ some k) × (k ≤ d)
sooner-some d none = (d, refl, omega arith)
sooner-some d (some n) = (min d n, ground arith, omega arith)

-- The delay only falls while the rows are read.
next_due_falls :
    (entries : List ResolvedEntry) (want : List String) (now n : ℕ)
    → (k : ℕ) × (next_due entries want now (some n) ≡ some k) × (k ≤ n)
unfolding next_due
next_due_falls [] want now n = (n, refl, omega arith)
next_due_falls (e ∷ entries) want now n = elim (Bool-cases (any (str_eq e.domain) want)) [
  | inl wanted ↦
      let (k, q, le) =
        next_due_falls entries want now
          (if ltb (e.expires_at - now) n then e.expires_at - now else n) in
      rw wanted (k, q, ground (arith, le))
  | inr other ↦ rw other (next_due_falls entries want now n)
]

next_due-mem :
    (entries : List ResolvedEntry) (want : List String) (now : ℕ) (next : Option ℕ)
    (e : ResolvedEntry)
    → Memᴰ e entries
    → any (str_eq e.domain) want ≡ true
    → (k : ℕ) × (next_due entries want now next ≡ some k) × (k ≤ e.expires_at - now)
unfolding next_due
next_due-mem [] want now next e m w = elim m [ ]
next_due-mem (f ∷ entries) want now next e (Memᴰ.head q) w =
    let (n, s, le) = sooner-some (e.expires_at - now) next in
    let (k, t, le') = next_due_falls entries want now n in rw (← q, w, s) (k, t, omega arith)
next_due-mem (f ∷ entries) want now next e (Memᴰ.tail m) w = next_due-mem entries want now _ e m w

-- A round is followed by the next one after at least ten seconds and at most five minutes.
pub round_wait_bounds : (r : Round) → (10 ≤ round_wait r) × (round_wait r ≤ 300)
unfolding round_wait
round_wait_bounds no_list = omega arith
round_wait_bounds no_domains = omega arith
round_wait_bounds no_refresh = omega arith
round_wait_bounds no_entries = omega arith
round_wait_bounds (refreshed_round entries want now) =
    elim (Option-cases (next_due entries want now none)) [
      | inl e ↦ rw e (omega arith)
      | inr (k, e) ↦ rw e (omega arith)
    ]

-- The next round starts no later than ten seconds from now, or when a row for a wanted domain
-- expires, whichever is later.
pub round_wait-mem :
    (entries : List ResolvedEntry) (want : List String) (now : ℕ) (e : ResolvedEntry)
    → Memᴰ e entries
    → any (str_eq e.domain) want ≡ true
    → now + round_wait (refreshed_round entries want now) ≤ max e.expires_at (now + 10)
unfolding round_wait
round_wait-mem entries want now e m w =
    let (k, q, le) = next_due-mem entries want now none e m w in rw q (omega arith)
