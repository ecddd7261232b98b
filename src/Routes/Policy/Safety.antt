-- ===== src/Routes/Policy/Safety.antt =====
-- What the policy lets through, and what becomes of each candidate.
use edge_route_gw.Prelude.{
  is_nil, ℕ, String, Bool, true, false, not, ◌&&◌, ◌||◌, ◌+◌, ◌-◌, ◌/◌, ◌^◌, ◌≤◌, List, [], ◌∷◌,
  Option, none, some, any, all, leb, ◌==◌, ◌≡◌, refl, ap, ◌∙◌, arith, count_if, add_if, is_none,
  ==_iff,
}
use edge_route_gw.Prelude.Div.{shift_agree}
use edge_route_gw.Net.{
  Addr, v4, v6, Prefix, byte0, byte1, is_loopback, is_link_local_unicast, is_private, contains,
  addr_within,
}
use edge_route_gw.Net.Text.{NetText}
use edge_route_gw.Routes.{Route}
use edge_route_gw.Routes.Policy.{
  Protected, validate, covered_by, in_allowlist, check_candidate, policy, sort_out,
}

-- Address space that may not be announced: private, loopback, link-local, CGNAT, "this network",
-- multicast and reserved.
abbrev pub is_special : ℕ → Bool
is_special n =
    is_private (v4 n)
    || (is_loopback (v4 n)
        || (is_link_local_unicast (v4 n)
            || ((byte0 n == 100 && byte1 n / 64 == 1) || (byte0 n == 0 || leb 224 (byte0 n)))))

same_bytes : (a x : ℕ) → a / 2 ^ 16 ≡ x / 2 ^ 16 → (byte0 a ≡ byte0 x) × (byte1 a ≡ byte1 x)
same_bytes a x h = (omega arith, omega arith)

validate-special :
    (a bits : ℕ) → validate (record { addr = v4 a; bits = bits }) ≡ none → is_special a ≡ false
unfolding validate
validate-special a bits h = ground arith

special_of_bytes : (a x : ℕ) → byte0 a ≡ byte0 x → byte1 a ≡ byte1 x → is_special a ≡ is_special x
special_of_bytes a x e f = rw (e, f)

special_within :
    (a : Addr) (bits x : ℕ)
    → 16 ≤ bits
    → validate (record { addr = a; bits = bits }) ≡ none
    → addr_within a bits (v4 x) ≡ true
    → is_special x ≡ false
special_within (v6 a) bits x le v h = cc
special_within (v4 a) bits x le v h =
    let top = shift_agree a x (32 - bits) 16 (omega arith) ((==_iff _ _).0 h) in
    let (e, f) = same_bytes a x top in rw (← special_of_bytes a x e f) (validate-special a bits v)

-- A prefix of at least 16 bits that passes `validate` has no address of special use.
pub validate_no_special :
    (p : Prefix) (x : ℕ)
    → validate p ≡ none
    → 16 ≤ p.bits
    → contains p (v4 x) ≡ true
    → is_special x ≡ false
unfolding contains
validate_no_special p x v le h = special_within p.addr p.bits x le v h

module _ (net : NetText) (guarded : Protected) (allow : List Prefix) where
  -- The conditions on a prefix that the policy pass makes.
  abbrev pub permitted : Prefix → Bool
  permitted p =
      is_none (validate p)
      && (is_none (covered_by net p guarded.prefixes guarded.names)
          && (is_nil allow || in_allowlist net p allow))

  check-permitted : (r : Route) → is_none (check_candidate net guarded allow r) ≡ permitted r.prefix
  unfolding check_candidate
  check-permitted r = ground arith

  -- Every route that passes is permitted.
  pub policy-permitted :
      (rs : List Route) → all (λ r. permitted r.prefix) (policy net guarded allow rs).0 ≡ true
  unfolding policy
  policy-permitted [] = refl
  policy-permitted (r ∷ rs) = ground (arith, check-permitted r, policy-permitted rs)

  -- What passes is what is permitted, whatever is asked of its prefix.
  pub policy-any :
      (p : Prefix → Bool) (rs : List Route)
      → any (λ r. p r.prefix) (policy net guarded allow rs).0
        ≡ any (λ r. permitted r.prefix && p r.prefix) rs
  unfolding policy
  policy-any p [] = refl
  policy-any p (r ∷ rs) = ground (arith, check-permitted r, policy-any p rs)

  check-prefix :
      (r r' : Route) → check_candidate net guarded allow r ≡ some r' → r'.prefix ≡ r.prefix
  unfolding check_candidate
  check-prefix r r' h = ground arith

  count-sort_out :
      (p : Prefix → Bool) (o : Option Route) (r : Route) (ok rejected : List Route)
      → ((r' : Route) → o ≡ some r' → r'.prefix ≡ r.prefix)
      → count_if (λ r. p r.prefix) (sort_out o r (ok, rejected)).0
          + count_if (λ r. p r.prefix) (sort_out o r (ok, rejected)).1
        ≡ add_if (p r.prefix) (count_if (λ r. p r.prefix) ok + count_if (λ r. p r.prefix) rejected)
  count-sort_out p none r ok rejected same = ground arith
  count-sort_out p (some r') r ok rejected same = rw (same r' refl) (ground arith)

  -- Each candidate passes or is rejected, once, with the prefix that it had.
  pub policy-count :
      (p : Prefix → Bool) (rs : List Route)
      → count_if (λ r. p r.prefix) (policy net guarded allow rs).0
          + count_if (λ r. p r.prefix) (policy net guarded allow rs).1
        ≡ count_if (λ r. p r.prefix) rs
  unfolding policy
  policy-count p [] = refl
  policy-count p (r ∷ rs) =
      count-sort_out p (check_candidate net guarded allow r) r (policy net guarded allow rs).0
        (policy net guarded allow rs).1 (check-prefix r)
      ∙ ap (add_if (p r.prefix)) (policy-count p rs)

covered_by-none :
    (net : NetText) (p : Prefix) (qs : List Prefix) (names : List (Prefix × String))
    → is_none (covered_by net p qs names) ≡ true
    → all (λ q. not (contains p q.addr)) qs ≡ true
unfolding covered_by
covered_by-none net p [] names h = refl
covered_by-none net p (q ∷ qs) names h = ground (arith, covered_by-none net p qs names)

-- No route that passes contains the address of a protected endpoint.
pub policy-avoids_protected :
    (net : NetText) (guarded : Protected) (allow : List Prefix) (p : Prefix)
    → permitted net guarded allow p ≡ true
    → all (λ q. not (contains p q.addr)) guarded.prefixes ≡ true
policy-avoids_protected net guarded allow p h =
    covered_by-none net p guarded.prefixes guarded.names (ground arith)
