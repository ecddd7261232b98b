-- ===== src/Auth/Guard.antt =====
-- `Authenticate` and `Middleware` of internal/auth/service.go, with `GetSession`, `TouchSession`,
-- `APITokenByHash` of internal/store/auth.go. The tables are association lists: sessions by
-- identifier, tokens by the hash of their text. The hash is a parameter. A time is kept exactly, where
-- the database rounds it to milliseconds. `TouchAPIToken` writes a column that nothing modelled
-- reads, so it is left out.
pub mod Sound
pub mod Lifetime
use edge_route_gw.Prelude.{
  ℕ, ◌+◌, ◌-◌, ◌*◌, min, String, Bool, true, false, not, ◌&&◌, ◌||◌, List, [], ◌∷◌, Option, none,
  some, ltb, leb, is_some, if◌then◌else◌, str_eq,
}
use edge_route_gw.Prelude.Dict.{lookup, insert}
use edge_route_gw.Text.{cut_prefix, trim_space, is_empty}
use edge_route_gw.Auth.{
  Session, AdminCredential, ApiToken, Fetched, fetched, fetch_error, session_idle, session_absolute,
  minute,
}

pub data PrincipalKind : Type 0 where
  session token : PrincipalKind

pub record Principal : Type 0 where
  pub kind : PrincipalKind
  pub id : String
  pub name : String
  pub scope : String
  pub bootstrap : Bool

abbrev pub can_write : Principal → Bool
can_write p = str_eq p.scope "write"

abbrev pub is_session : PrincipalKind → Bool
is_session session = true
is_session token = false

-- The tables of the store.
pub record Store : Type 0 where
  pub sessions : List (String × Session)
  pub tokens : List (String × ApiToken)
  pub admin : Fetched AdminCredential

-- A cookie or a header that is missing is the empty text.
pub record Request : Type 0 where
  pub method : String
  pub path : String
  pub authorization : String
  pub session_cookie : String
  pub csrf_cookie : String
  pub csrf_header : String
  pub now : ℕ

abbrev pub is_live : Session → ℕ → Bool
is_live sess now = ltb now sess.expires_at

abbrev pub while_live : Option Session → ℕ → Option Session
while_live none now = none
while_live (some sess) now = if is_live sess now then some sess else none

unfoldable pub get_session : String → ℕ → Store → Option Session
unfolding lookup
get_session id now st = while_live (lookup id st.sessions) now

abbrev pub not_ended : Option ℕ → ℕ → Bool
not_ended none now = true
not_ended (some end') now = ltb now end'

abbrev pub while_valid : Option ApiToken → ℕ → Option ApiToken
while_valid none now = none
while_valid (some t) now = if not_ended t.expires_at now then some t else none

unfoldable pub api_token_by_hash : String → ℕ → Store → Option ApiToken
unfolding lookup
api_token_by_hash hash now st = while_valid (lookup hash st.tokens) now

-- `TouchSession` on a session that was just read
unfoldable pub touch_session : Session → ℕ → ℕ → Store → Store
unfolding insert
touch_session sess expires now st = record st {
  sessions = insert sess.id (record sess { expires_at = expires; last_seen_at = now }) st.sessions;
}

-- The sliding end of a session, capped by its absolute lifetime.
abbrev pub next_expiry : Session → ℕ → ℕ
next_expiry sess now =
    let exp = now + session_idle in
    let abs = sess.created_at + session_absolute in if ltb abs exp then abs else exp

unfoldable pub touch : Session → ℕ → Store → Store
unfolding touch_session
touch sess now st =
    if ltb (5 * minute) (now - sess.last_seen_at)
    then touch_session sess (next_expiry sess now) now st
    else st

abbrev token_principal : Option ApiToken → Option Principal
token_principal none = none
token_principal (some t) =
    some (record { kind = token; id = t.id; name = t.name; scope = t.scope; bootstrap = false })

abbrev session_principal : Session → Fetched AdminCredential → Option Principal
session_principal sess (fetch_error why) = none
session_principal sess (fetched cred) = some (record {
  kind = session;
  id = sess.id;
  name = "admin";
  scope = "write";
  bootstrap = cred.bootstrap;
})

abbrev pub with_session : Option Session → ℕ → Store → Option Principal × Store
with_session none now st = (none, st)
with_session (some sess) now st = (session_principal sess st.admin, touch sess now st)

-- what follows `Bearer `
abbrev pub by_token : (String → String) → String → ℕ → Store → Option Principal
by_token hash_token raw now st =
    if is_some (cut_prefix "ergw_" raw)
    then token_principal (api_token_by_hash (hash_token raw) now st)
    else none

abbrev pub by_cookie : String → ℕ → Store → Option Principal × Store
by_cookie cookie now st =
    if is_empty cookie then (none, st) else with_session (get_session cookie now st) now st

abbrev pub by_header :
    (String → String) → Option String → Request → Store → Option Principal × Store
by_header hash_token none r st = by_cookie r.session_cookie r.now st
by_header hash_token (some raw) r st = (by_token hash_token (trim_space raw) r.now st, st)

unfoldable pub authenticate : (String → String) → Request → Store → Option Principal × Store
unfolding cut_prefix trim_space api_token_by_hash get_session touch
authenticate hash_token r st = by_header hash_token (cut_prefix "Bearer " r.authorization) r st

abbrev pub safe_method : String → Bool
safe_method m = str_eq m "GET" || (str_eq m "HEAD" || str_eq m "OPTIONS")

pub data Answer : Type 0 where
  served : Option Principal → Answer
  unauthenticated password_change_required csrf_mismatch read_only : Answer

abbrev pub csrf_ok : Request → Bool
csrf_ok r = not (is_empty r.csrf_cookie) && str_eq r.csrf_cookie r.csrf_header

abbrev pub guard_principal : Request → Principal → Answer
guard_principal r p =
    if is_session p.kind && (p.bootstrap && not (is_some (cut_prefix "/api/v2/auth/" r.path)))
    then password_change_required
    else if safe_method r.method
    then served (some p)
    else if is_session p.kind && not (csrf_ok r)
    then csrf_mismatch
    else if can_write p
    then served (some p)
    else read_only

abbrev pub guard : Request → Option Principal → Answer
guard r none = unauthenticated
guard r (some p) = guard_principal r p

-- `Middleware`, with the exempt paths as a test
unfoldable pub middleware : (Request → Bool) → (String → String) → Request → Store → Answer × Store
unfolding authenticate
middleware exempt hash_token r st =
    let (p, st') = authenticate hash_token r st in (if exempt r then served p else guard r p, st')
