-- ===== src/Auth/Login/Bruteforce.antt =====
-- How many passwords a source can try.
use edge_route_gw.Prelude.{
  ℕ, ◌+◌, ◌≤◌, String, Bool, true, false, ◌&&◌, List, [], ◌∷◌, Option, none, some, add_if, str_eq,
  eq_iff, eq_refl, ◌≡◌, ◌≢◌, ◌⊎◌, refl, arith, Bool-cases, inl, inr, ◌∙◌,
}
use mathlib.Core.List.{Memᴰ}
use edge_route_gw.Prelude.Dict.{lookup, lookup-insert, lookup-delete}
use edge_route_gw.Auth.{AdminCredential, Fetched, fetched, fetch_error}
use edge_route_gw.Auth.Limiter.{
  FailRecord, Limiter, limit_lock_after, limit_lock, Wait, locked, free, delay, check_record, check,
  one_more, fail, reset,
}
use edge_route_gw.Auth.Limiter.Bound.{budget, check_record-budget, fail-budget, is_locked}
use edge_route_gw.Auth.Login.{
  Attempt, LoginResult, verified, with_admin, admitted, login, is_guess, guesses,
}

-- The password check never accepts this request's password.
abbrev pub IsWrong : Attempt → Type 0
IsWrong a = (hash : String) → a.verify hash a.password ≢ fetched true

-- A request inside the window of `limit_lock` that begins at `t`.
abbrev pub IsWithin : ℕ → Attempt → Type 0
IsWithin t a = (t ≤ a.failed_at) × (a.checked_at ≤ t + limit_lock)

abbrev Pays : ℕ → String → Limiter → LoginResult × Limiter → Type 0
Pays t ip l (r, l') = add_if (is_guess r) (budget t (lookup ip l')) ≤ budget t (lookup ip l)

verified-Pays :
    (t : ℕ) (a : Attempt) (o : Fetched Bool) (l : Limiter)
    → t ≤ a.failed_at
    → o ≢ fetched true
    → 1 ≤ budget t (lookup a.remote_ip l)
    → Pays t a.remote_ip l (verified a o l)
unfolding verified
verified-Pays t a (fetch_error why) l h wrong k = omega arith
verified-Pays t a (fetched true) l h wrong k = absurd (wrong refl)
verified-Pays t a (fetched false) l h wrong k = fail-budget t a.remote_ip a.failed_at l h k

with_admin-Pays :
    (t : ℕ) (a : Attempt) (o : Fetched AdminCredential) (l : Limiter)
    → t ≤ a.failed_at
    → IsWrong a
    → 1 ≤ budget t (lookup a.remote_ip l)
    → Pays t a.remote_ip l (with_admin a o l)
with_admin-Pays t a (fetch_error why) l h wrong k = omega arith
with_admin-Pays t a (fetched cred) l h wrong k =
    verified-Pays t a (a.verify cred.password_hash a.password) l h (wrong cred.password_hash) k

admitted-Pays :
    (t : ℕ) (a : Attempt) (w : Wait) (l : Limiter)
    → t ≤ a.failed_at
    → IsWrong a
    → (is_locked w ≡ true) ⊎ (1 ≤ budget t (lookup a.remote_ip l))
    → Pays t a.remote_ip l (admitted a w l)
unfolding admitted
admitted-Pays t a locked l h wrong k = omega arith
admitted-Pays t a free l h wrong k = with_admin-Pays t a a.admin l h wrong (ground (arith, k))
admitted-Pays t a (delay d) l h wrong k = elim (Bool-cases a.context_done) [
  | inl yes' ↦ ground (arith, yes')
  | inr no' ↦ ground (arith, no', with_admin-Pays t a a.admin l h wrong (ground (arith, k)))
]

-- A request from the source pays for the password that it tries.
login-Pays :
    (t : ℕ) (a : Attempt) (l : Limiter)
    → IsWithin t a
    → IsWrong a
    → Pays t a.remote_ip l (login a l)
unfolding login check
login-Pays t a l (from, until) wrong =
    let ip = a.remote_ip in
    let (w, l') = check ip a.checked_at l in
    let (less, left) = check_record-budget t (lookup ip l) ip a.checked_at l refl until in
    let paid = admitted-Pays t a w l' from wrong left in omega arith

verified-other :
    (src : String) (a : Attempt) (o : Fetched Bool) (l : Limiter)
    → str_eq a.remote_ip src ≡ false
    → lookup src (verified a o l).1 ≡ lookup src l
unfolding verified fail reset
verified-other src a (fetch_error why) l h = refl
verified-other src a (fetched false) l h =
    ground (arith, lookup-insert a.remote_ip src (one_more (lookup a.remote_ip l) a.failed_at) l)
verified-other src a (fetched true) l h = ground (arith, lookup-delete a.remote_ip src l)

with_admin-other :
    (src : String) (a : Attempt) (o : Fetched AdminCredential) (l : Limiter)
    → str_eq a.remote_ip src ≡ false
    → lookup src (with_admin a o l).1 ≡ lookup src l
with_admin-other src a (fetch_error why) l h = refl
with_admin-other src a (fetched cred) l h =
    verified-other src a (a.verify cred.password_hash a.password) l h

admitted-other :
    (src : String) (a : Attempt) (w : Wait) (l : Limiter)
    → str_eq a.remote_ip src ≡ false
    → lookup src (admitted a w l).1 ≡ lookup src l
unfolding admitted
admitted-other src a locked l h = refl
admitted-other src a free l h = with_admin-other src a a.admin l h
admitted-other src a (delay d) l h = ground (arith, with_admin-other src a a.admin l h)

check_record-other :
    (src : String) (o : Option FailRecord) (ip : String) (now : ℕ) (l : Limiter)
    → str_eq ip src ≡ false
    → lookup src (check_record o ip now l).1 ≡ lookup src l
unfolding check_record
check_record-other src none ip now l h = refl
check_record-other src (some rec) ip now l h = ground (arith, lookup-delete ip src l)

-- A request from another source leaves the record of this one as it is.
pub login-other :
    (src : String) (a : Attempt) (l : Limiter)
    → str_eq a.remote_ip src ≡ false
    → lookup src (login a l).1 ≡ lookup src l
unfolding login check
login-other src a l h =
    let (w, l') = check a.remote_ip a.checked_at l in
    admitted-other src a w l' h
    ∙ check_record-other src (lookup a.remote_ip l) a.remote_ip a.checked_at l h

budget_most : (t : ℕ) (o : Option FailRecord) → budget t o ≤ limit_lock_after
budget_most t none = omega arith
budget_most t (some rec) = ground arith

count-Pays :
    (t : ℕ) (src ip : String) (l l' : Limiter) (r : LoginResult) (n : ℕ)
    → ip ≡ src
    → Pays t ip l (r, l')
    → n ≤ budget t (lookup src l')
    → add_if (str_eq ip src && is_guess r) n ≤ budget t (lookup src l)
count-Pays t src ip l l' r n e paid later = ground (arith, eq_refl src)

guesses-budget :
    (t : ℕ) (src : String) (rest : List Attempt) (l : Limiter)
    → ((a : Attempt) → Memᴰ a rest → IsWithin t a)
    → ((a : Attempt) → Memᴰ a rest → a.remote_ip ≡ src → IsWrong a)
    → guesses src rest l ≤ budget t (lookup src l)
unfolding guesses
guesses-budget t src [] l within wrong = omega arith
guesses-budget t src (a ∷ rest) l within wrong =
    let (r, l') = login a l in
    let later =
      guesses-budget t src rest l' (λ b m. within b (Memᴰ.tail m)) (λ b m. wrong b (Memᴰ.tail m)) in
    elim (Bool-cases (str_eq a.remote_ip src)) [
      | inl yes' ↦
          let e : a.remote_ip ≡ src = ground (arith, eq_iff a.remote_ip src) in
          count-Pays t src a.remote_ip l l' r (guesses src rest l') e
            (login-Pays t a l (within a (Memᴰ.head refl)) (wrong a (Memᴰ.head refl) e)) later
      | inr no' ↦ ground (arith, later, login-other src a l no')
    ]

-- Requests that are served one after the other inside a window as long as the lock, whatever
-- their sources, and however the limiter stands before: a source whose passwords are all wrong has
-- at most ten of them tried.
pub guesses_bounded :
    (t : ℕ) (src : String) (rest : List Attempt) (l : Limiter)
    → ((a : Attempt) → Memᴰ a rest → IsWithin t a)
    → ((a : Attempt) → Memᴰ a rest → a.remote_ip ≡ src → IsWrong a)
    → guesses src rest l ≤ limit_lock_after
guesses_bounded t src rest l within wrong =
    let paid = guesses-budget t src rest l within wrong in
    let most = budget_most t (lookup src l) in omega arith
