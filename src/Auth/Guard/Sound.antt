-- ===== src/Auth/Guard/Sound.antt =====
-- Whom the middleware serves.
use edge_route_gw.Prelude.{
  ℕ, String, Bool, true, false, Option, none, some, is_some, str_eq, ◌≡◌, ◌⊎◌, refl, ap, arith,
  Bool-cases, inl, inr,
}
use edge_route_gw.Prelude.Dict.{lookup}
use edge_route_gw.Text.{cut_prefix, trim_space, is_empty}
use edge_route_gw.Auth.{Session, AdminCredential, ApiToken, Fetched, fetched, fetch_error}
use edge_route_gw.Auth.Guard.{
  Store, Request, Principal, session, token, can_write, is_session, is_live, not_ended, while_live,
  while_valid, get_session, api_token_by_hash, with_session, by_token, by_cookie, by_header,
  authenticate, safe_method, served, csrf_ok, guard, middleware, token_principal, session_principal,
}

-- What stands behind a principal: a token that has not ended, whose hash is stored and which the
-- request bears, or a live session that its cookie names.
abbrev pub IsToken : (String → String) → Request → Store → Principal → Type 0
IsToken hash_token r st p =
    (raw : String) × (t : ApiToken) × (cut_prefix "Bearer " r.authorization ≡ some raw)
    × (lookup (hash_token (trim_space raw)) st.tokens ≡ some t)
    × (not_ended t.expires_at r.now ≡ true)
    × (p.kind ≡ token)
    × (p.scope ≡ t.scope)

abbrev pub IsLiveSession : Request → Store → Principal → Type 0
IsLiveSession r st p =
    (sess : Session) × (cred : AdminCredential) × (cut_prefix "Bearer " r.authorization ≡ none)
    × (lookup r.session_cookie st.sessions ≡ some sess)
    × (is_live sess r.now ≡ true)
    × (st.admin ≡ fetched cred)
    × (p.kind ≡ session)
    × (p.bootstrap ≡ cred.bootstrap)

while_valid-some :
    (o : Option ApiToken) (now : ℕ) (p : Principal)
    → token_principal (while_valid o now) ≡ some p
    → (t : ApiToken) × (o ≡ some t)
      × (not_ended t.expires_at now ≡ true)
      × (p.kind ≡ token)
      × (p.scope ≡ t.scope)
while_valid-some none now p h = absurd (cc)
while_valid-some (some t) now p h = elim (Bool-cases (not_ended t.expires_at now)) [
  | inl yes' ↦ (t, refl, yes', ground arith, ground arith)
  | inr no' ↦ absurd (ground arith)
]

by_token-IsToken :
    (hash_token : String → String) (raw : String) (r : Request) (st : Store) (p : Principal)
    → cut_prefix "Bearer " r.authorization ≡ some raw
    → by_token hash_token (trim_space raw) r.now st ≡ some p
    → IsToken hash_token r st p
unfolding api_token_by_hash
by_token-IsToken hash_token raw r st p e h =
    elim (Bool-cases (is_some (cut_prefix "ergw_" (trim_space raw)))) [
      | inl yes' ↦
          let (t, found, valid, kind, scope) =
            while_valid-some (lookup (hash_token (trim_space raw)) st.tokens) r.now p
              (ground arith) in
          (raw, t, e, found, valid, kind, scope)
      | inr no' ↦ absurd (ground arith)
    ]

session_principal-some :
    (sess : Session) (o : Fetched AdminCredential) (p : Principal)
    → session_principal sess o ≡ some p
    → (cred : AdminCredential) × (o ≡ fetched cred)
      × (p.kind ≡ session)
      × (p.bootstrap ≡ cred.bootstrap)
session_principal-some sess (fetch_error why) p h = absurd (cc)
session_principal-some sess (fetched cred) p h = (cred, refl, ground arith, ground arith)

with_session-some :
    (o : Option Session) (now : ℕ) (st : Store) (p : Principal)
    → (with_session (while_live o now) now st).0 ≡ some p
    → (sess : Session) × (cred : AdminCredential) × (o ≡ some sess)
      × (is_live sess now ≡ true)
      × (st.admin ≡ fetched cred)
      × (p.kind ≡ session)
      × (p.bootstrap ≡ cred.bootstrap)
with_session-some none now st p h = absurd (cc)
with_session-some (some sess) now st p h = elim (Bool-cases (is_live sess now)) [
  | inl yes' ↦
      let (cred, e, kind, boot) = session_principal-some sess st.admin p (ground arith) in
      (sess, cred, refl, yes', e, kind, boot)
  | inr no' ↦ absurd (ground arith)
]

by_cookie-IsLiveSession :
    (r : Request) (st : Store) (p : Principal)
    → cut_prefix "Bearer " r.authorization ≡ none
    → (by_cookie r.session_cookie r.now st).0 ≡ some p
    → IsLiveSession r st p
unfolding get_session
by_cookie-IsLiveSession r st p e h = elim (Bool-cases (is_empty r.session_cookie)) [
  | inl yes' ↦ absurd (ground arith)
  | inr no' ↦
      let (sess, cred, found, live, admin, kind, boot) =
        with_session-some (lookup r.session_cookie st.sessions) r.now st p (ground arith) in
      (sess, cred, e, found, live, admin, kind, boot)
]

by_header-some :
    (hash_token : String → String) (o : Option String) (r : Request) (st : Store) (p : Principal)
    → cut_prefix "Bearer " r.authorization ≡ o
    → (by_header hash_token o r st).0 ≡ some p
    → IsToken hash_token r st p ⊎ IsLiveSession r st p
by_header-some hash_token none r st p e h = inr (by_cookie-IsLiveSession r st p e h)
by_header-some hash_token (some raw) r st p e h = inl (by_token-IsToken hash_token raw r st p e h)

-- A principal is found only for a token that is stored and has not ended, or, where the request
-- bears no token, for a live session.
pub authenticate-some :
    (hash_token : String → String) (r : Request) (st : Store) (p : Principal)
    → (authenticate hash_token r st).0 ≡ some p
    → IsToken hash_token r st p ⊎ IsLiveSession r st p
unfolding authenticate
authenticate-some hash_token r st p h =
    by_header-some hash_token (cut_prefix "Bearer " r.authorization) r st p refl h

-- What lets a request through: a token, of write scope if the method is not safe, or a live session,
-- with the CSRF header equal to a CSRF cookie that is not empty if the method is not safe, and, while
-- the password is the generated one, on a path below /api/v2/auth/.
abbrev pub IsAllowed : (String → String) → Request → Store → Type 0
IsAllowed hash_token r st =
    (p : Principal) × ((IsToken hash_token r st p
        × ((safe_method r.method ≡ true) ⊎ (can_write p ≡ true)))
      ⊎ (IsLiveSession r st p
          × ((safe_method r.method ≡ true)
              ⊎ ((is_empty r.csrf_cookie ≡ false) × (str_eq r.csrf_cookie r.csrf_header ≡ true)))
          × ((p.bootstrap ≡ false) ⊎ (is_some (cut_prefix "/api/v2/auth/" r.path) ≡ true))))

guard-served :
    (r : Request) (o q : Option Principal)
    → guard r o ≡ served q
    → (p : Principal) × (o ≡ some p)
      × (safe_method r.method ≡ false → can_write p ≡ true)
      × (is_session p.kind ≡ true → safe_method r.method ≡ false → csrf_ok r ≡ true)
      × (is_session p.kind ≡ true
          → p.bootstrap ≡ true
          → is_some (cut_prefix "/api/v2/auth/" r.path) ≡ true)
guard-served r none q h = absurd (cc)
guard-served r (some p) q h = (p, refl, λ m. ground arith, λ k m. ground arith, λ k b. ground arith)

csrf_ok-parts :
    (r : Request)
    → csrf_ok r ≡ true
    → (is_empty r.csrf_cookie ≡ false) × (str_eq r.csrf_cookie r.csrf_header ≡ true)
csrf_ok-parts r h = (ground arith, ground arith)

allowed :
    (hash_token : String → String) (r : Request) (st : Store) (p : Principal)
    → IsToken hash_token r st p ⊎ IsLiveSession r st p
    → (safe_method r.method ≡ false → can_write p ≡ true)
    → (is_session p.kind ≡ true → safe_method r.method ≡ false → csrf_ok r ≡ true)
    → (is_session p.kind ≡ true
        → p.bootstrap ≡ true
        → is_some (cut_prefix "/api/v2/auth/" r.path) ≡ true)
    → IsAllowed hash_token r st
allowed hash_token r st p (inl bearer) w c b = (
  p,
  inl (
    bearer,
    elim (Bool-cases (safe_method r.method)) [
      | inl safe ↦ inl safe
      | inr not_safe ↦ inr (w not_safe)
    ],
  ),
)
allowed hash_token r st p (inr (sess, cred, e, found, live, admin, kind, boot)) w c b =
    let is : is_session p.kind ≡ true = ap is_session kind in
    (
      p,
      inr (
        (sess, cred, e, found, live, admin, kind, boot),
        elim (Bool-cases (safe_method r.method)) [
          | inl safe ↦ inl safe
          | inr not_safe ↦ inr (csrf_ok-parts r (c is not_safe))
        ],
        elim (Bool-cases p.bootstrap) [ inl yes' ↦ inr (b is yes') | inr no' ↦ inl no' ],
      ),
    )

-- A request on a path that is not exempt reaches its handler only with a token that has not ended,
-- or with a live session; if its method is not GET, HEAD or OPTIONS, the token has write scope, or
-- the session comes with the CSRF header equal to a CSRF cookie that is not empty; and with any
-- method a session on the generated password only reaches the paths below /api/v2/auth/.
pub middleware-served :
    (exempt : Request → Bool) (hash_token : String → String) (r : Request) (st : Store)
    (q : Option Principal)
    → exempt r ≡ false
    → (middleware exempt hash_token r st).0 ≡ served q
    → IsAllowed hash_token r st
unfolding middleware
middleware-served exempt hash_token r st q x h =
    let o = (authenticate hash_token r st).0 in
    let (p, e, w, c, b) = guard-served r o q (ground arith) in
    allowed hash_token r st p (authenticate-some hash_token r st p e) w c b
