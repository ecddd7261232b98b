-- ===== src/Auth/Login/Issued.antt =====
-- What stands behind a session that a login hands out.
use edge_route_gw.Prelude.{
  ◌+◌, String, Bool, true, false, Option, none, some, if◌then◌else◌, eq_refl, ◌≡◌, ◌≢◌, refl, sym,
  ap, ◌∙◌, arith,
}
use edge_route_gw.Prelude.Dict.{lookup, lookup-delete}
use edge_route_gw.Auth.{Session, AdminCredential, Fetched, fetched, fetch_error, session_idle}
use edge_route_gw.Auth.Limiter.{Limiter, Wait, locked, free, delay, check, reset}
use edge_route_gw.Auth.Login.{
  Attempt, logged_in, login_error, context_done, stored, new_session, with_tokens, verified,
  with_admin, admitted, login,
}

-- The session and the token that a request gets, and the row that is stored for them.
abbrev pub Tokens : Attempt → Session → String → Type 0
Tokens a sess csrf =
    (a.session_id ≡ fetched sess.id)
    × (a.csrf_token ≡ fetched csrf)
    × (a.create_session sess ≡ none)
    × (sess.remote_ip ≡ a.remote_ip)
    × (sess.expires_at ≡ sess.created_at + session_idle)

stored-Tokens :
    (a : Attempt) (o : Option String) (s sess : Session) (c csrf : String)
    → stored o s c ≡ logged_in sess csrf
    → (o ≡ none) × (s ≡ sess) × (c ≡ csrf)
stored-Tokens a none s sess c csrf h = (refl, cc, cc)
stored-Tokens a (some why) s sess c csrf h = absurd (cc)

with_tokens-Tokens :
    (a : Attempt) (i k : Fetched String) (sess : Session) (csrf : String)
    → a.session_id ≡ i
    → a.csrf_token ≡ k
    → with_tokens a i k ≡ logged_in sess csrf
    → Tokens a sess csrf
unfolding with_tokens new_session
with_tokens-Tokens a (fetch_error why) k sess csrf e f h = absurd (cc)
with_tokens-Tokens a (fetched i) (fetch_error why) sess csrf e f h = absurd (cc)
with_tokens-Tokens a (fetched i) (fetched c) sess csrf e f h =
    let (kept, same, tok) =
      stored-Tokens a (a.create_session (new_session a i)) (new_session a i) sess c csrf h in
    (
      e ∙ ap (λ s. fetched s.id) same,
      f ∙ ap (λ t. fetched t) tok,
      ap a.create_session (sym same) ∙ kept,
      sym (ap (λ s. s.remote_ip) same),
      sym (ap (λ s. s.expires_at) same) ∙ ap (λ s. s.created_at + session_idle) same,
    )

verified-Tokens :
    (a : Attempt) (o : Fetched Bool) (l : Limiter) (sess : Session) (csrf : String)
    → (verified a o l).0 ≡ logged_in sess csrf
    → (o ≡ fetched true) × Tokens a sess csrf × (lookup a.remote_ip (verified a o l).1 ≡ none)
unfolding verified reset
verified-Tokens a (fetch_error why) l sess csrf h = absurd (cc)
verified-Tokens a (fetched false) l sess csrf h = absurd (cc)
verified-Tokens a (fetched true) l sess csrf h = (
  refl,
  with_tokens-Tokens a a.session_id a.csrf_token sess csrf refl refl h,
  ground (arith, lookup-delete a.remote_ip a.remote_ip l, eq_refl a.remote_ip),
)

-- The password was compared with the stored hash, and accepted.
abbrev pub IsProved : Attempt → Type 0
IsProved a =
    (cred : AdminCredential) × (a.admin ≡ fetched cred)
    × (a.verify cred.password_hash a.password ≡ fetched true)

abbrev Outcome : Attempt → Session → String → Limiter → Type 0
Outcome a sess csrf l = IsProved a × Tokens a sess csrf × (lookup a.remote_ip l ≡ none)

with_admin-Outcome :
    (a : Attempt) (o : Fetched AdminCredential) (l : Limiter) (sess : Session) (csrf : String)
    → a.admin ≡ o
    → (with_admin a o l).0 ≡ logged_in sess csrf
    → Outcome a sess csrf (with_admin a o l).1
with_admin-Outcome a (fetch_error why) l sess csrf e h = absurd (cc)
with_admin-Outcome a (fetched cred) l sess csrf e h =
    let (ok, tokens, gone) =
      verified-Tokens a (a.verify cred.password_hash a.password) l sess csrf h in
    ((cred, e, ok), tokens, gone)

in_time :
    (a : Attempt) (done : Bool) (l : Limiter) (sess : Session) (csrf : String)
    → (if done then (login_error context_done, l) else with_admin a a.admin l).0
      ≡ logged_in sess csrf
    → Outcome a sess csrf (if done then (login_error context_done, l) else with_admin a a.admin l).1
in_time a true l sess csrf h = absurd (cc)
in_time a false l sess csrf h = with_admin-Outcome a a.admin l sess csrf refl h

admitted-Outcome :
    (a : Attempt) (w : Wait) (l : Limiter) (sess : Session) (csrf : String)
    → (admitted a w l).0 ≡ logged_in sess csrf
    → (w ≢ locked) × Outcome a sess csrf (admitted a w l).1
unfolding admitted
admitted-Outcome a locked l sess csrf h = absurd (cc)
admitted-Outcome a free l sess csrf h =
    (λ e. absurd (cc), with_admin-Outcome a a.admin l sess csrf refl h)
admitted-Outcome a (delay d) l sess csrf h =
    (λ e. absurd (cc), in_time a a.context_done l sess csrf h)

-- A session is handed out only to a source that is not locked and whose password the check
-- accepted for the stored hash: it bears the fresh identifier, it was stored, it ends a day after
-- it was made, and the source's failures are forgotten.
pub login-logged_in :
    (a : Attempt) (l : Limiter) (sess : Session) (csrf : String)
    → (login a l).0 ≡ logged_in sess csrf
    → ((check a.remote_ip a.checked_at l).0 ≢ locked)
      × IsProved a
      × Tokens a sess csrf
      × (lookup a.remote_ip (login a l).1 ≡ none)
unfolding login
login-logged_in a l sess csrf h =
    let (w, l') = check a.remote_ip a.checked_at l in
    let (unlocked, (proved, tokens, gone)) = admitted-Outcome a w l' sess csrf h in
    (unlocked, proved, tokens, gone)
