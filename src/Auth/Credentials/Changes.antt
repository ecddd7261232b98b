-- ===== src/Auth/Credentials/Changes.antt =====
-- What a change of the password and a new token leave in the store.
use edge_route_gw.Prelude.{
  ℕ, String, Bool, true, false, ◌||◌, List, [], ◌∷◌, Option, none, some, keep, ltb, str_eq, eq_iff,
  if◌then◌else◌, Bool-cases, inl, inr, ◌≡◌, ◌≢◌, refl, ap, ◌∙◌, arith,
}
use edge_route_gw.Prelude.Dict.{lookup, lookup-insert}
use edge_route_gw.Auth.{Session, AdminCredential, ApiToken, Fetched, fetched, fetch_error}
use edge_route_gw.Auth.Guard.{Store, not_ended, while_valid, api_token_by_hash}
use edge_route_gw.Auth.Credentials.{
  PasswordChange, PasswordFault, ChangeError, validate_new_password, delete_other_sessions,
  replaced, with_hash, with_policy, old_verified, with_credential, change_password, TokenRequest,
  created, new_token, token_stored, with_secret, create_token, byte_length,
}
use edge_route_gw.Text.{trim_space, is_empty}
use edge_route_gw.Routes.Policy.{concat}

lookup-keep :
    (kept k : String) (m : List (String × Session))
    → k ≢ kept
    → lookup k (keep (λ e. str_eq e.0 kept) m) ≡ none
unfolding lookup
lookup-keep kept k [] h = refl
lookup-keep kept k (e ∷ rest) h =
    ground (arith, eq_iff e.0 kept, eq_iff e.0 k, lookup-keep kept k rest, h)

-- The store after a change.
abbrev pub IsChanged : PasswordChange → Store → Type 0
IsChanged c st =
    ((hash : String) × (c.hash_password c.new_password ≡ fetched hash)
      × (st.admin ≡ fetched (record { password_hash = hash; bootstrap = false })))
    × ((k : String) → k ≢ c.session_id → lookup k st.sessions ≡ none)
    × (c.keep_tokens ≡ false → st.tokens ≡ [])

abbrev pub IsAllowed : PasswordChange → Store → Type 0
IsAllowed c st =
    ((cred : AdminCredential) × (st.admin ≡ fetched cred)
      × (c.verify cred.password_hash c.old_password ≡ fetched true))
    × (validate_new_password c.new_password ≡ none)

replaced-IsChanged :
    (c : PasswordChange) (hash : String) (o : Option String) (st : Store)
    → c.hash_password c.new_password ≡ fetched hash
    → c.sessions_deleted ≡ true
    → c.tokens_deleted ≡ true
    → (replaced c hash o st).1 ≡ none
    → IsChanged c (replaced c hash o st).0
unfolding delete_other_sessions
replaced-IsChanged c hash (some why) st e s t h = absurd (cc)
replaced-IsChanged c hash none st e s t h = (
  (hash, e, ground (arith, s, t)),
  λ k ne. ground (arith, s, t, lookup-keep c.session_id k st.sessions ne),
  λ n. ground (arith, t, n),
)

with_hash-IsChanged :
    (c : PasswordChange) (o : Fetched String) (st : Store)
    → c.hash_password c.new_password ≡ o
    → c.sessions_deleted ≡ true
    → c.tokens_deleted ≡ true
    → (with_hash c o st).1 ≡ none
    → IsChanged c (with_hash c o st).0
with_hash-IsChanged c (fetch_error why) st e s t h = absurd (cc)
with_hash-IsChanged c (fetched hash) st e s t h =
    replaced-IsChanged c hash c.set_admin_error st e s t h

with_policy-IsChanged :
    (c : PasswordChange) (o : Option PasswordFault) (st : Store)
    → c.sessions_deleted ≡ true
    → c.tokens_deleted ≡ true
    → (with_policy c o st).1 ≡ none
    → (o ≡ none) × IsChanged c (with_policy c o st).0
with_policy-IsChanged c (some f) st s t h = absurd (cc)
with_policy-IsChanged c none st s t h =
    (refl, with_hash-IsChanged c (c.hash_password c.new_password) st refl s t h)

old_verified-IsChanged :
    (c : PasswordChange) (o : Fetched Bool) (st : Store)
    → c.sessions_deleted ≡ true
    → c.tokens_deleted ≡ true
    → (old_verified c o st).1 ≡ none
    → (o ≡ fetched true)
      × (validate_new_password c.new_password ≡ none)
      × IsChanged c (old_verified c o st).0
old_verified-IsChanged c (fetch_error why) st s t h = absurd (cc)
old_verified-IsChanged c (fetched false) st s t h = absurd (cc)
old_verified-IsChanged c (fetched true) st s t h =
    let (valid, changed) =
      with_policy-IsChanged c (validate_new_password c.new_password) st s t h in
    (refl, valid, changed)

with_credential-IsChanged :
    (c : PasswordChange) (o : Fetched AdminCredential) (st : Store)
    → st.admin ≡ o
    → c.sessions_deleted ≡ true
    → c.tokens_deleted ≡ true
    → (with_credential c o st).1 ≡ none
    → IsAllowed c st × IsChanged c (with_credential c o st).0
with_credential-IsChanged c (fetch_error why) st e s t h = absurd (cc)
with_credential-IsChanged c (fetched cred) st e s t h =
    let (ok, valid, changed) =
      old_verified-IsChanged c (c.verify cred.password_hash c.old_password) st s t h in
    (((cred, e, ok), valid), changed)

-- A change without an error, whose deletions succeed, was asked for with the right old password and
-- a new one that the policy allows. After it the new hash is stored and the bootstrap flag is clear,
-- no session but the caller's is left, and no token unless they were to be kept.
pub change_password-IsChanged :
    (c : PasswordChange) (st : Store)
    → c.sessions_deleted ≡ true
    → c.tokens_deleted ≡ true
    → (change_password c st).1 ≡ none
    → IsAllowed c st × IsChanged c (change_password c st).0
unfolding change_password
change_password-IsChanged c st s t h = with_credential-IsChanged c st.admin st refl s t h

replaced-some :
    (c : PasswordChange) (hash : String) (o : Option String) (st : Store) (e : ChangeError)
    → (replaced c hash o st).1 ≡ some e
    → (replaced c hash o st).0 ≡ st
replaced-some c hash (some why) st e h = refl
replaced-some c hash none st e h = absurd (cc)

with_hash-some :
    (c : PasswordChange) (o : Fetched String) (st : Store) (e : ChangeError)
    → (with_hash c o st).1 ≡ some e
    → (with_hash c o st).0 ≡ st
with_hash-some c (fetch_error why) st e h = refl
with_hash-some c (fetched hash) st e h = replaced-some c hash c.set_admin_error st e h

with_policy-some :
    (c : PasswordChange) (o : Option PasswordFault) (st : Store) (e : ChangeError)
    → (with_policy c o st).1 ≡ some e
    → (with_policy c o st).0 ≡ st
with_policy-some c (some f) st e h = refl
with_policy-some c none st e h = with_hash-some c (c.hash_password c.new_password) st e h

old_verified-some :
    (c : PasswordChange) (o : Fetched Bool) (st : Store) (e : ChangeError)
    → (old_verified c o st).1 ≡ some e
    → (old_verified c o st).0 ≡ st
old_verified-some c (fetch_error why) st e h = refl
old_verified-some c (fetched false) st e h = refl
old_verified-some c (fetched true) st e h =
    with_policy-some c (validate_new_password c.new_password) st e h

with_credential-some :
    (c : PasswordChange) (o : Fetched AdminCredential) (st : Store) (e : ChangeError)
    → (with_credential c o st).1 ≡ some e
    → (with_credential c o st).0 ≡ st
with_credential-some c (fetch_error why) st e h = refl
with_credential-some c (fetched cred) st e h =
    old_verified-some c (c.verify cred.password_hash c.old_password) st e h

-- A change that ends with an error leaves the store as it was.
pub change_password-some :
    (c : PasswordChange) (st : Store) (e : ChangeError)
    → (change_password c st).1 ≡ some e
    → (change_password c st).0 ≡ st
unfolding change_password
change_password-some c st e h = with_credential-some c st.admin st e h

found_same :
    (k j : String) (s t : ApiToken) (rest : Option ApiToken)
    → k ≡ j
    → s ≡ t
    → (if str_eq k j then some s else rest) ≡ some t
found_same k j s t rest e f = ground (arith, eq_iff k j)

token_stored-found :
    (hash_token : String → String) (r : TokenRequest) (text : String) (o : Option String)
    (st : Store) (t : ApiToken) (clear : String)
    → (token_stored hash_token r text o st).1 ≡ created t clear
    → lookup (hash_token clear) (token_stored hash_token r text o st).0.tokens ≡ some t
token_stored-found hash_token r text (some why) st t clear h = absurd (cc)
token_stored-found hash_token r text none st t clear h =
    let e : text ≡ clear = cc in
    let f : new_token r ≡ t = cc in
    lookup-insert (hash_token text) (hash_token clear) (new_token r) st.tokens
    ∙ found_same (hash_token text) (hash_token clear) (new_token r) t
        (lookup (hash_token clear) st.tokens) (ap hash_token e) f

with_secret-found :
    (hash_token : String → String) (r : TokenRequest) (o : Fetched String) (st : Store)
    (t : ApiToken) (clear : String)
    → (with_secret hash_token r o st).1 ≡ created t clear
    → lookup (hash_token clear) (with_secret hash_token r o st).0.tokens ≡ some t
with_secret-found hash_token r (fetch_error why) st t clear h = absurd (cc)
with_secret-found hash_token r (fetched secret) st t clear h =
    token_stored-found hash_token r (concat "ergw_" secret) r.insert_error st t clear h

create_token-stored :
    (hash_token : String → String) (r : TokenRequest) (st : Store) (t : ApiToken) (clear : String)
    → (create_token hash_token r st).1 ≡ created t clear
    → lookup (hash_token clear) (create_token hash_token r st).0.tokens ≡ some t
unfolding create_token
create_token-stored hash_token r st t clear h =
    elim (Bool-cases (is_empty (trim_space r.name) || ltb 64 (byte_length (trim_space r.name)))) [
      | inl yes' ↦ absurd (ground arith)
      | inr no' ↦ elim (Bool-cases (str_eq r.scope "read" || str_eq r.scope "write")) [
        | inl ok' ↦ ground (arith, no', ok', with_secret-found hash_token r r.secret st t clear)
        | inr bad' ↦ absurd (ground arith)
      ]
    ]

-- A token that was made is found by the hash of its text until it ends.
pub create_token-found :
    (hash_token : String → String) (r : TokenRequest) (st : Store) (t : ApiToken) (clear : String)
    (now : ℕ)
    → (create_token hash_token r st).1 ≡ created t clear
    → not_ended t.expires_at now ≡ true
    → api_token_by_hash (hash_token clear) now (create_token hash_token r st).0 ≡ some t
unfolding api_token_by_hash
create_token-found hash_token r st t clear now h live =
    ap (λ o. while_valid o now) (create_token-stored hash_token r st t clear h)
    ∙ ground (arith, live)
