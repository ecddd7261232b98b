-- ===== src/Auth/Credentials.antt =====
-- `ChangePassword`, `CreateToken` and `Logout` of internal/auth/service.go, `ValidateNewPassword` of
-- internal/auth/password.go, and the statements of internal/store/auth.go that they run. The random
-- secret, the hashes and the outcome of each statement are parameters; the removal of the bootstrap
-- file and the log line are left out.
pub mod Changes
use edge_route_gw.Prelude.{
  ℕ, zero, suc, ◌+◌, String, Bool, true, false, not, ◌&&◌, ◌||◌, List, [], ◌∷◌, Option, none, some,
  keep, ltb, leb, str_eq, if◌then◌else◌,
}
use Prim.Native.Char.{Char, code}
use Prim.Native.String
use edge_route_gw.Prelude.Dict.{insert, delete}
use edge_route_gw.Text.{trim_space, is_empty}
use edge_route_gw.Routes.Policy.{concat}
use edge_route_gw.Auth.{AdminCredential, ApiToken, Fetched, fetched, fetch_error}
use edge_route_gw.Auth.Guard.{Store}

abbrev utf8_width : ℕ → ℕ
utf8_width c = if ltb c 0x80 then 1 else if ltb c 0x800 then 2 else if ltb c 0x10000 then 3 else 4

-- `len`: the bytes of a text
unfoldable pub byte_length : String → ℕ
byte_length String.[] = 0
byte_length (String.◌∷◌ c s) = utf8_width (code c) + byte_length s

pub data PasswordFault : Type 0 where
  too_short too_long has_outer_space : PasswordFault

unfoldable pub validate_new_password : String → Option PasswordFault
unfolding byte_length trim_space
validate_new_password p =
    if ltb (byte_length p) 10
    then some too_short
    else if ltb 256 (byte_length p)
    then some too_long
    else if not (str_eq (trim_space p) p)
    then some has_outer_space
    else none

-- One call of `ChangePassword`, and what the calls that it makes return.
pub record PasswordChange : Type 0 where
  pub session_id : String
  pub old_password : String
  pub new_password : String
  pub keep_tokens : Bool
  pub verify : String → String → Fetched Bool
  pub hash_password : String → Fetched String
  pub set_admin_error : Option String
  pub sessions_deleted : Bool
  pub tokens_deleted : Bool

pub data ChangeError : Type 0 where
  wrong_password : ChangeError
  policy_error : PasswordFault → ChangeError
  change_failed : String → ChangeError

abbrev pub set_admin_password : String → Store → Store
set_admin_password hash st = record st {
  admin = fetched (record { password_hash = hash; bootstrap = false });
}

unfoldable pub delete_other_sessions : String → Store → Store
delete_other_sessions kept st = record st { sessions = keep (λ e. str_eq e.0 kept) st.sessions }

abbrev pub delete_all_api_tokens : Store → Store
delete_all_api_tokens st = record st { tokens = [] }

-- `Logout`
unfoldable pub logout : String → Store → Store
unfolding delete
logout id st = record st { sessions = delete id st.sessions }

abbrev pub revoke_sessions : PasswordChange → Store → Store
revoke_sessions c st = if c.sessions_deleted then delete_other_sessions c.session_id st else st

abbrev pub revoke_tokens : PasswordChange → Store → Store
revoke_tokens c st = if not c.keep_tokens && c.tokens_deleted then delete_all_api_tokens st else st

abbrev pub replaced : PasswordChange → String → Option String → Store → Store × Option ChangeError
replaced c hash (some why) st = (st, some (change_failed why))
replaced c hash none st = (revoke_tokens c (revoke_sessions c (set_admin_password hash st)), none)

abbrev pub with_hash : PasswordChange → Fetched String → Store → Store × Option ChangeError
with_hash c (fetch_error why) st = (st, some (change_failed why))
with_hash c (fetched hash) st = replaced c hash c.set_admin_error st

abbrev pub with_policy : PasswordChange → Option PasswordFault → Store → Store × Option ChangeError
with_policy c (some fault) st = (st, some (policy_error fault))
with_policy c none st = with_hash c (c.hash_password c.new_password) st

abbrev pub old_verified : PasswordChange → Fetched Bool → Store → Store × Option ChangeError
old_verified c (fetch_error why) st = (st, some (change_failed why))
old_verified c (fetched false) st = (st, some wrong_password)
old_verified c (fetched true) st = with_policy c (validate_new_password c.new_password) st

abbrev pub with_credential :
    PasswordChange → Fetched AdminCredential → Store → Store × Option ChangeError
with_credential c (fetch_error why) st = (st, some (change_failed why))
with_credential c (fetched cred) st = old_verified c (c.verify cred.password_hash c.old_password) st

unfoldable pub change_password : PasswordChange → Store → Store × Option ChangeError
unfolding validate_new_password delete_other_sessions
change_password c st = with_credential c st.admin st

-- One call of `CreateToken`.
pub record TokenRequest : Type 0 where
  pub name : String
  pub scope : String
  pub ttl : ℕ
  pub secret : Fetched String
  pub id : String
  pub now : ℕ
  pub insert_error : Option String

pub data TokenResult : Type 0 where
  created : ApiToken → String → TokenResult
  bad_name bad_scope : TokenResult
  create_failed : String → TokenResult

abbrev pub new_token : TokenRequest → ApiToken
new_token r = record {
  id = r.id;
  name = trim_space r.name;
  scope = r.scope;
  expires_at = if ltb 0 r.ttl then some (r.now + r.ttl) else none;
}

abbrev pub token_stored :
    (String → String) → TokenRequest → String → Option String → Store → Store × TokenResult
token_stored hash_token r clear (some why) st = (st, create_failed why)
token_stored hash_token r clear none st = (
  record st { tokens = insert (hash_token clear) (new_token r) st.tokens },
  created (new_token r) clear,
)

abbrev pub with_secret :
    (String → String) → TokenRequest → Fetched String → Store → Store × TokenResult
with_secret hash_token r (fetch_error why) st = (st, create_failed why)
with_secret hash_token r (fetched secret) st =
    token_stored hash_token r (concat "ergw_" secret) r.insert_error st

unfoldable pub create_token : (String → String) → TokenRequest → Store → Store × TokenResult
unfolding insert trim_space byte_length
create_token hash_token r st =
    let name = trim_space r.name in
    if is_empty name || ltb 64 (byte_length name)
    then (st, bad_name)
    else if not (str_eq r.scope "read" || str_eq r.scope "write")
    then (st, bad_scope)
    else with_secret hash_token r r.secret st
