-- ===== src/Tests/Credentials.antt =====
-- A change of the password, and a new token.
use edge_route_gw.Prelude.{String, true, false, [], ◌∷◌, none, some, str_eq, ◌≡◌, refl}
use edge_route_gw.Auth.{ApiToken, fetched}
use edge_route_gw.Auth.Guard.{Store, api_token_by_hash}
use edge_route_gw.Auth.Credentials.{PasswordChange, change_password, TokenRequest, create_token}
use edge_route_gw.Auth.Credentials.Changes.{
  IsAllowed, IsChanged, change_password-IsChanged, create_token-found,
}

abbrev tables : Store
tables = record {
  sessions = [];
  tokens = ("h", record { id = "t0"; name = "old"; scope = "read"; expires_at = none }) ∷ [];
  admin = fetched (record { password_hash = "battery"; bootstrap = true });
}

-- The hash of a password is the password here.
abbrev change : String → PasswordChange
change old = record {
  session_id = "sid";
  old_password = old;
  new_password = "correct horse";
  keep_tokens = false;
  verify = λ hash pw. fetched (str_eq hash pw);
  hash_password = λ pw. fetched pw;
  set_admin_error = none;
  sessions_deleted = true;
  tokens_deleted = true;
}

change_password-IsChanged_example :
    IsAllowed (change "battery") tables
    × IsChanged (change "battery") (change_password (change "battery") tables).0
unfolding change_password
change_password-IsChanged_example =
    change_password-IsChanged (change "battery") tables refl refl refl

abbrev request : TokenRequest
request = record {
  name = " deploy ";
  scope = "write";
  ttl = 60;
  secret = fetched "abc";
  id = "t1";
  now = 5;
  insert_error = none;
}

abbrev deploy : ApiToken
deploy = record { id = "t1"; name = "deploy"; scope = "write"; expires_at = some 65 }

create_token-found_example :
    api_token_by_hash "ergw_abc" 64 (create_token (λ t. t) request tables).0 ≡ some deploy
unfolding create_token
create_token-found_example =
    create_token-found (λ t. t) request tables deploy "ergw_abc" 64 refl refl
