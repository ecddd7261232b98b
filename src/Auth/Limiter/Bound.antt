-- ===== src/Auth/Limiter/Bound.antt =====
-- What the limiter leaves of the ten passwords that a source can try.
use edge_route_gw.Prelude.{
  ℕ, ◌+◌, ◌-◌, suc, ◌≤◌, String, Bool, true, false, Option, none, some, ltb, if◌then◌else◌, eq_refl,
  ◌≡◌, arith, ◌⊎◌,
}
use edge_route_gw.Prelude.Dict.{lookup, lookup-insert, lookup-delete}
use edge_route_gw.Auth.Limiter.{
  FailRecord, Limiter, limit_lock_after, limit_lock, Wait, locked, wait_for, check_record, one_more,
  fail,
}

-- The failures that a source has left in a window that begins at `t`: a record from before the
-- window says nothing.
abbrev pub budget : ℕ → Option FailRecord → ℕ
budget t none = limit_lock_after
budget t (some rec) = if ltb rec.last t then limit_lock_after else limit_lock_after - rec.count

abbrev pub is_locked : Wait → Bool
is_locked locked = true
is_locked _ = false

-- A check inside the window does not give tries back, and one that lets the source in has one left.
pub check_record-budget :
    (t : ℕ) (o : Option FailRecord) (ip : String) (now : ℕ) (l : Limiter)
    → lookup ip l ≡ o
    → now ≤ t + limit_lock
    → (budget t (lookup ip ((check_record o ip now l).1)) ≤ budget t o)
      × ((is_locked (check_record o ip now l).0 ≡ true)
          ⊎ (1 ≤ budget t (lookup ip ((check_record o ip now l).1))))
unfolding check_record wait_for
check_record-budget t none ip now l e h = ground (arith, e)
check_record-budget t (some rec) ip now l e h = ground (arith, e, lookup-delete ip ip l, eq_refl ip)

pub fail-budget :
    (t : ℕ) (ip : String) (now : ℕ) (l : Limiter)
    → t ≤ now
    → 1 ≤ budget t (lookup ip l)
    → suc (budget t (lookup ip (fail ip now l))) ≤ budget t (lookup ip l)
unfolding fail
fail-budget t ip now l h k =
    ground (arith, lookup-insert ip ip (one_more (lookup ip l) now) l, eq_refl ip)
