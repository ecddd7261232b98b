-- ===== src/Auth/Limiter.antt =====
-- The limiter of internal/auth/service.go: failed logins for each source address.
pub mod Bound
use edge_route_gw.Prelude.{
  ℕ, ◌+◌, ◌-◌, ◌*◌, suc, String, Bool, List, [], ◌∷◌, Option, none, some, ltb, leb, if◌then◌else◌,
}
use edge_route_gw.Prelude.Dict.{lookup, insert, delete}
use edge_route_gw.Auth.{second, minute}

pub record FailRecord : Type 0 where
  pub count : ℕ
  pub last : ℕ

abbrev pub Limiter : Type 0
Limiter = List (String × FailRecord)

abbrev pub limit_delay_after : ℕ
limit_delay_after = 5

abbrev pub limit_lock_after : ℕ
limit_lock_after = 10

abbrev pub limit_delay : ℕ
limit_delay = 2 * second

abbrev pub limit_lock : ℕ
limit_lock = 15 * minute

-- What `check` answers: a negative duration is `locked`, and zero is `free`.
pub data Wait : Type 0 where
  locked free : Wait
  delay : ℕ → Wait

unfoldable pub wait_for : ℕ → Wait
wait_for count =
    if leb limit_lock_after count
    then locked
    else if leb limit_delay_after count
    then delay limit_delay
    else free

-- an age is 0 where the clock has gone back: the code's negative age is not above the lock either
unfoldable pub check_record : Option FailRecord → String → ℕ → Limiter → Wait × Limiter
unfolding wait_for
check_record none ip now l = (free, l)
check_record (some rec) ip now l =
    if ltb limit_lock (now - rec.last) then (free, delete ip l) else (wait_for rec.count, l)

-- `check`
unfoldable pub check : String → ℕ → Limiter → Wait × Limiter
unfolding check_record lookup delete
check ip now l = check_record (lookup ip l) ip now l

abbrev pub one_more : Option FailRecord → ℕ → FailRecord
one_more none now = record { count = 1; last = now }
one_more (some rec) now = record { count = suc rec.count; last = now }

-- `fail`
unfoldable pub fail : String → ℕ → Limiter → Limiter
unfolding lookup insert
fail ip now l = insert ip (one_more (lookup ip l) now) l

-- `reset`
unfoldable pub reset : String → Limiter → Limiter
unfolding delete
reset ip l = delete ip l
