-- ===== src/Auth/Login.antt =====
-- `Login` of internal/auth/service.go. What it reads outside the limiter is a parameter: the admin
-- row, the password check, the random tokens, the insertion of the session.
pub mod Bruteforce
pub mod Issued
use Prim.Native.String
use edge_route_gw.Prelude.{
  ℕ, zero, suc, ◌+◌, add_if, ◌&&◌, str_eq, String, Bool, true, false, List, [], ◌∷◌, Option, none,
  some, if◌then◌else◌,
}
use edge_route_gw.Auth.{Session, AdminCredential, Fetched, fetched, fetch_error, session_idle}
use edge_route_gw.Auth.Limiter.{Limiter, Wait, locked, free, delay, check, fail, reset}

pub data LoginError : Type 0 where
  rate_limited bad_credentials context_done : LoginError
  store_error : String → LoginError

pub data LoginResult : Type 0 where
  logged_in : Session → String → LoginResult
  login_error : LoginError → LoginResult

-- One request: its source, the readings of the clock, and what the calls return.
pub record Attempt : Type 0 where
  pub password : String
  pub remote_ip : String
  pub user_agent : String
  pub checked_at : ℕ
  pub failed_at : ℕ
  pub created_at : ℕ
  pub context_done : Bool
  pub admin : Fetched AdminCredential
  pub verify : String → String → Fetched Bool
  pub session_id : Fetched String
  pub csrf_token : Fetched String
  pub create_session : Session → Option String

-- The session is stored, or is not.
abbrev pub stored : Option String → Session → String → LoginResult
stored none sess csrf = logged_in sess csrf
stored (some why) sess csrf = login_error (store_error why)

-- `truncate`; a header is ASCII here, so a byte is a character
unfoldable pub truncate : String → ℕ → String
truncate String.[] n = String.[]
truncate (String.◌∷◌ c s) zero = String.[]
truncate (String.◌∷◌ c s) (suc n) = String.◌∷◌ c (truncate s n)

unfoldable pub new_session : Attempt → String → Session
unfolding truncate
new_session a id = record {
  id = id;
  created_at = a.created_at;
  expires_at = a.created_at + session_idle;
  last_seen_at = a.created_at;
  remote_ip = a.remote_ip;
  user_agent = truncate a.user_agent 200;
}

unfoldable pub with_tokens : Attempt → Fetched String → Fetched String → LoginResult
unfolding new_session
with_tokens a (fetch_error why) csrf = login_error (store_error why)
with_tokens a (fetched id) (fetch_error why) = login_error (store_error why)
with_tokens a (fetched id) (fetched csrf) =
    let sess = new_session a id in stored (a.create_session sess) sess csrf

-- after `VerifyPassword`
unfoldable pub verified : Attempt → Fetched Bool → Limiter → LoginResult × Limiter
unfolding fail reset with_tokens
verified a (fetch_error why) l = (login_error (store_error why), l)
verified a (fetched false) l = (login_error bad_credentials, fail a.remote_ip a.failed_at l)
verified a (fetched true) l = (with_tokens a a.session_id a.csrf_token, reset a.remote_ip l)

abbrev pub with_admin : Attempt → Fetched AdminCredential → Limiter → LoginResult × Limiter
with_admin a (fetch_error why) l = (login_error (store_error why), l)
with_admin a (fetched cred) l = verified a (a.verify cred.password_hash a.password) l

-- after the limiter's check; a delay is cut short by the end of the context
unfoldable pub admitted : Attempt → Wait → Limiter → LoginResult × Limiter
unfolding verified
admitted a locked l = (login_error rate_limited, l)
admitted a free l = with_admin a a.admin l
admitted a (delay d) l =
    if a.context_done then (login_error context_done, l) else with_admin a a.admin l

unfoldable pub login : Attempt → Limiter → LoginResult × Limiter
unfolding admitted check
login a l = let (w, l') = check a.remote_ip a.checked_at l in admitted a w l'

-- A request that tried a password, and the password was wrong.
abbrev pub is_guess : LoginResult → Bool
is_guess (login_error bad_credentials) = true
is_guess _ = false

-- The wrong passwords that one source tries while requests are served one after the other.
unfoldable pub guesses : String → List Attempt → Limiter → ℕ
unfolding login
guesses src [] l = 0
guesses src (a ∷ rest) l =
    let (r, l') = login a l in add_if (str_eq a.remote_ip src && is_guess r) (guesses src rest l')
