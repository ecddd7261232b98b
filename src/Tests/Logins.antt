-- ===== src/Tests/Logins.antt =====
-- Logins and requests.
use edge_route_gw.Prelude.{
  ℕ, ◌+◌, ◌*◌, ◌≤◌, ◌<◌, String, false, List, [], ◌∷◌, none, some, str_eq, ◌≡◌, ◌≢◌, refl, arith,
}
use mathlib.Core.List.{Memᴰ}
use edge_route_gw.Prelude.Dict.{lookup}
use edge_route_gw.Text.{cut_prefix, trim_space}
use edge_route_gw.Auth.{Session, fetched, session_absolute, second, hour}
use edge_route_gw.Auth.Limiter.{check, locked, limit_lock_after}
use edge_route_gw.Auth.Login.{Attempt, login, guesses}
use edge_route_gw.Auth.Login.Bruteforce.{IsWithin, IsWrong, guesses_bounded}
use edge_route_gw.Auth.Login.Issued.{IsProved, Tokens, login-logged_in}
use edge_route_gw.Auth.Guard.{Store, Request, Principal, session, middleware}
use edge_route_gw.Auth.Guard.Lifetime.{IsCapped, serve, get_session_within_week}
use edge_route_gw.Auth.Guard.Sound.{IsAllowed, middleware-served}

-- Four seconds between the attempts, and ten of them in a row.
abbrev attempt : String → ℕ → Attempt
attempt password at = record {
  password = password;
  remote_ip = "192.0.2.44";
  user_agent = "curl";
  checked_at = at;
  failed_at = at + second;
  created_at = at + second;
  context_done = false;
  admin = fetched (record { password_hash = "hash"; bootstrap = false });
  verify = λ hash pw. fetched (str_eq pw "correct horse");
  session_id = fetched "sid";
  csrf_token = fetched "csrf";
  create_session = λ s. none;
}

abbrev guess : Attempt
guess = attempt "wrong" (100 * second)

guess-IsWithin : IsWithin (100 * second) guess
guess-IsWithin = (omega arith, omega arith)

guess-IsWrong : IsWrong guess
guess-IsWrong hash h = cc

only_guess : (a : Attempt) → Memᴰ a (guess ∷ []) → a ≡ guess
only_guess a (Memᴰ.head e) = e
only_guess a (Memᴰ.tail m) = elim m [ ]

twelve : List Attempt
twelve =
    guess ∷ guess ∷ guess ∷ guess ∷ guess ∷ guess ∷ guess ∷ guess ∷ guess ∷ guess ∷ guess ∷ guess
    ∷ []

-- Of twelve guesses in one window, ten are tried.
ten_tried : guesses "192.0.2.44" twelve [] ≡ 10
unfolding guesses twelve check
ten_tried = refl

guesses_bounded_example : guesses "192.0.2.44" (guess ∷ []) [] ≤ limit_lock_after
guesses_bounded_example =
    guesses_bounded (100 * second) "192.0.2.44" (guess ∷ []) []
      (λ a m. rw (only_guess a m) guess-IsWithin) (λ a m e. rw (only_guess a m) guess-IsWrong)

abbrev right : Attempt
right = attempt "correct horse" (100 * second)

abbrev made : Session
made = record {
  id = "sid";
  created_at = 101 * second;
  expires_at = 101 * second + 24 * hour;
  last_seen_at = 101 * second;
  remote_ip = "192.0.2.44";
  user_agent = "curl";
}

login-logged_in_example :
    ((check right.remote_ip right.checked_at []).0 ≢ locked)
    × IsProved right
    × Tokens right made "csrf"
    × (lookup right.remote_ip (login right []).1 ≡ none)
unfolding login
login-logged_in_example = login-logged_in right [] made "csrf" refl

abbrev tables : Store
tables = record {
  sessions = ("sid", made) ∷ [];
  tokens = ("ergw_t", record { id = "t1"; name = "ci"; scope = "write"; expires_at = none }) ∷ [];
  admin = fetched (record { password_hash = "hash"; bootstrap = false });
}

abbrev post : Request
post = record {
  method = "POST";
  path = "/api/v2/rules";
  authorization = "";
  session_cookie = "sid";
  csrf_cookie = "csrf";
  csrf_header = "csrf";
  now = 200 * second;
}

abbrev admin : Principal
admin = record { kind = session; id = "sid"; name = "admin"; scope = "write"; bootstrap = false }

middleware-served_example : IsAllowed (λ t. t) post tables
unfolding middleware cut_prefix trim_space
middleware-served_example =
    middleware-served (λ r. false) (λ t. t) post tables (some admin) refl refl

tables-IsCapped : IsCapped tables
unfolding lookup
tables-IsCapped k sess h = ground (arith)

get_session_within_week_example : 200 * second < made.created_at + session_absolute
unfolding serve
get_session_within_week_example =
    get_session_within_week (λ r. false) (λ t. t) (post ∷ []) tables "sid" (200 * second) made
      tables-IsCapped refl
