-- ===== src/Auth/Guard/Lifetime.antt =====
-- How long a session lives.
use edge_route_gw.Prelude.{
  ℕ, ◌+◌, ◌≤◌, ◌<◌, String, Bool, List, [], ◌∷◌, Option, none, some, ◌≡◌, ap, arith, Bool-cases,
  inl, inr,
}
use edge_route_gw.Prelude.Dict.{lookup, lookup-insert}
use edge_route_gw.Text.{cut_prefix, is_empty}
use edge_route_gw.Auth.{Session, session_absolute}
use edge_route_gw.Auth.Guard.{
  Store, Request, is_live, while_live, get_session, next_expiry, touch_session, touch, with_session,
  by_cookie, by_header, authenticate, middleware,
}

-- No session ends later than its absolute lifetime allows.
abbrev pub IsCapped : Store → Type 0
IsCapped st =
    (k : String) (sess : Session)
    → lookup k st.sessions ≡ some sess
    → sess.expires_at ≤ sess.created_at + session_absolute

touch-IsCapped :
    (sess : Session) (now : ℕ) (st : Store) → IsCapped st → IsCapped (touch sess now st)
unfolding touch touch_session
touch-IsCapped sess now st capped k found h =
    let sess' = record sess { expires_at = next_expiry sess now; last_seen_at = now } in
    ground (arith, lookup-insert sess.id k sess' st.sessions, capped k found)

with_session-IsCapped :
    (o : Option Session) (now : ℕ) (st : Store) → IsCapped st → IsCapped (with_session o now st).1
with_session-IsCapped none now st capped = capped
with_session-IsCapped (some sess) now st capped = touch-IsCapped sess now st capped

by_cookie-IsCapped :
    (cookie : String) (now : ℕ) (st : Store) → IsCapped st → IsCapped (by_cookie cookie now st).1
by_cookie-IsCapped cookie now st capped k sess h = elim (Bool-cases (is_empty cookie)) [
  | inl yes' ↦ ground (arith, capped k sess)
  | inr no' ↦ ground (arith, with_session-IsCapped (get_session cookie now st) now st capped k sess)
]

by_header-IsCapped :
    (hash_token : String → String) (o : Option String) (r : Request) (st : Store)
    → IsCapped st
    → IsCapped (by_header hash_token o r st).1
by_header-IsCapped hash_token none r st capped = by_cookie-IsCapped r.session_cookie r.now st capped
by_header-IsCapped hash_token (some raw) r st capped = capped

-- The store after a sequence of requests.
unfoldable pub serve : (Request → Bool) → (String → String) → List Request → Store → Store
unfolding middleware
serve exempt hash_token [] st = st
serve exempt hash_token (r ∷ rs) st =
    serve exempt hash_token rs (middleware exempt hash_token r st).1

serve-IsCapped :
    (exempt : Request → Bool) (hash_token : String → String) (rs : List Request) (st : Store)
    → IsCapped st
    → IsCapped (serve exempt hash_token rs st)
unfolding serve middleware authenticate
serve-IsCapped exempt hash_token [] st capped = capped
serve-IsCapped exempt hash_token (r ∷ rs) st capped =
    serve-IsCapped exempt hash_token rs _
      (by_header-IsCapped hash_token (cut_prefix "Bearer " r.authorization) r st capped)

get_session-live :
    (o : Option Session) (now : ℕ) (sess : Session)
    → while_live o now ≡ some sess
    → (o ≡ some sess) × (now < sess.expires_at)
get_session-live none now sess h = absurd (cc)
get_session-live (some s) now sess h = elim (Bool-cases (is_live s now)) [
  | inl yes' ↦ let e : s ≡ sess = ground (arith) in (ap (λ x. some x) e, ground (arith, e))
  | inr no' ↦ absurd (ground arith)
]

-- From tables in which no session ends more than a week after it was made, and however often
-- sessions are used and so extended, none is accepted a week after it was made.
pub get_session_within_week :
    (exempt : Request → Bool) (hash_token : String → String) (rs : List Request) (st : Store)
    (cookie : String) (now : ℕ) (sess : Session)
    → IsCapped st
    → get_session cookie now (serve exempt hash_token rs st) ≡ some sess
    → now < sess.created_at + session_absolute
unfolding get_session
get_session_within_week exempt hash_token rs st cookie now sess capped h =
    let st' = serve exempt hash_token rs st in
    let (found, live) = get_session-live (lookup cookie st'.sessions) now sess h in
    let cap = serve-IsCapped exempt hash_token rs st capped cookie sess found in omega arith
