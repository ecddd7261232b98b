-- ===== src/Auth.antt =====
-- internal/auth/service.go and the queries of internal/store/auth.go that it makes. Times are
-- nanoseconds since a fixed start, and durations are nanoseconds.
pub mod Limiter
pub mod Login
pub mod Guard
pub mod Credentials
use edge_route_gw.Prelude.{ℕ, ◌*◌, String, Bool, Option}

abbrev pub second : ℕ
second = 1000000000

abbrev pub minute : ℕ
minute = 60 * second

abbrev pub hour : ℕ
hour = 60 * minute

abbrev pub session_idle : ℕ
session_idle = 24 * hour

abbrev pub session_absolute : ℕ
session_absolute = 7 * (24 * hour)

pub record Session : Type 0 where
  pub id : String
  pub created_at : ℕ
  pub expires_at : ℕ
  pub last_seen_at : ℕ
  pub remote_ip : String
  pub user_agent : String

pub record AdminCredential : Type 0 where
  pub password_hash : String
  pub bootstrap : Bool

pub record ApiToken : Type 0 where
  pub id : String
  pub name : String
  pub scope : String
  pub expires_at : Option ℕ

pub data Fetched (A : Type 0) : Type 0 where
  fetched : A → Fetched A
  fetch_error : String → Fetched A
