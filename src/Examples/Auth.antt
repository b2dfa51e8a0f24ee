-- ===== src/Examples/Auth.antt =====
-- Registration, login and logout at concrete inputs.
use native.Mathlib.Decide.{dec_lt}
use text.Mathlib.Text.{◌==◌ as str_eq}
use text.Mathlib.TextEquality.{eq_iff}
use Prim.Native.String.{◌++◌ as str_append}
use legaltech_contract_autom.Common.{
  ℕ, ◌≢◌, ◌+◌, ◌≡◌, ◌⊎◌, refl, String, true, Option, none, some, if◌then◌else◌, List, [], ◌∷◌, ok,
  err, arith, find,
}
use legaltech_contract_autom.Common.Texts.{
  trim, split_once, is_whitespace, any_char, contains, char_count, all_chars,
}
use legaltech_contract_autom.Errors.{database}
use legaltech_contract_autom.Db.Models.{User, Session}
use legaltech_contract_autom.Db.Session.{World, seen, constrained, statement}
use legaltech_contract_autom.Db.Users.{insert_user, find_user_by_email, email_shape}
use legaltech_contract_autom.Db.Sessions.{
  insert_session, revoke_session, find_active_session_by_token_hash, touch_session,
}
use legaltech_contract_autom.Auth.Validation.{
  normalize_email, validate_email, validate_full_name, validate_password,
}
use legaltech_contract_autom.Auth.Token.{Argon2, verify_password}
use legaltech_contract_autom.Auth.Extractor.{from_request_parts, bearer_token, generic}
use legaltech_contract_autom.Auth.Handlers.{
  AuthResponse, RegisterRequest, LoginRequest, register, login, logout, from_user,
  invalid_credentials,
}
use legaltech_contract_autom.Auth.Handlers.Entry.{LetsIn, login-LetsIn, register-LetsIn}
use legaltech_contract_autom.Auth.Handlers.Rejected.{IsRejected, login_rejected}
use legaltech_contract_autom.Auth.Requests.{
  Request, registers, logs_in, logs_out, asks, cleans, logout_route, perform_all,
}
use legaltech_contract_autom.Auth.Requests.Accounts.{AccountsAreValid, perform_all-AccountsAreValid}
use legaltech_contract_autom.Auth.Requests.Logout.{logout_route-refused}
use legaltech_contract_autom.Examples.Data.{small, quiet, turn}

abbrev argon2 : Argon2
argon2 = record {
  Phc = String × String;
  hash = λ salt password. some (str_append salt (str_append "$" password));
  parse = split_once b'$';
  compare = λ password phc. str_eq phc.1 password;
}

abbrev sha256_hex : String → String
sha256_hex raw_token =
    if str_eq raw_token "token-a"
    then "ca978112ca1bbdcafac231b39a23dc4da786eff8147c4e72b9807785afee48bb"
    else "3e23e8160039594a33894f6564e1b1348bbd7a0088d42c4acb73eeaed59c009d"

abbrev add_seconds : ℕ → ℕ → Option ℕ
add_seconds now n = some (now + n)

abbrev registration : RegisterRequest
registration = record {
  email = " Ada@Example.com";
  password = "correct horse battery";
  full_name = " Ada ";
}

abbrev entry : LoginRequest
entry = record { email = "ada@example.com"; password = "correct horse battery" }

abbrev ada : User
ada = record {
  id = 100;
  email = "ada@example.com";
  password_hash = "salt$correct horse battery";
  full_name = "Ada";
  created_at = 5_000_000_000;
  updated_at = 5_000_000_000;
}

abbrev session : (id : ℕ) (token_hash : String) → Session
session id token_hash = record {
  id = id;
  user_id = 100;
  token_hash = token_hash;
  expires_at = 5_000_000_600;
  created_at = 5_000_000_000;
  revoked_at = none;
  last_used_at = 5_000_000_000;
}

abbrev world : (sessions : List Session) (tick : ℕ) → World
world sessions tick = record {
  db = record small { users = ada ∷ []; sessions = sessions };
  turns = turn;
  tick = tick;
  tx = none;
}

abbrev session_a : Session
session_a = session 101 (sha256_hex "token-a")

abbrev session_b : Session
session_b = session 103 (sha256_hex "token-b")

abbrev registered : World
registered = world (session_a ∷ []) 2

abbrev logged_in : World
logged_in = world (session_a ∷ session_b ∷ []) 4

abbrev logged_out : World
logged_out = world (record session_a { revoked_at = some 5_000_000_000 } ∷ []) 5

abbrev response : (token : String) → AuthResponse
response token = record { user = from_user ada; token = token; expires_at = 5_000_000_600 }

abbrev header : String → Option String
header token = some (str_append "Bearer " token)

bearer_a : bearer_token (header "token-a") ≡ some "token-a"
unfolding bearer_token
bearer_a = refl

bearer_b : bearer_token (header "token-b") ≡ some "token-b"
unfolding bearer_token
bearer_b = refl

registers_ada :
    register argon2 sha256_hex add_seconds is_whitespace 600 "salt" "token-a" 5_000_000_000
      registration
      (quiet small)
    ≡ (ok (some (response "token-a")), registered)
unfolding register insert_user insert_session constrained statement validate_email
    validate_full_name validate_password dec_lt any_char split_once contains char_count email_shape
    all_chars
registers_ada = refl

logs_ada_in :
    login argon2 sha256_hex add_seconds is_whitespace 600 "token-b" 5_000_000_000 entry registered
    ≡ (ok (some (response "token-b")), logged_in)
unfolding login insert_session find_user_by_email constrained statement validate_email dec_lt
    any_char split_once contains char_count all_chars
logs_ada_in = refl

logs_ada_out : logout_route sha256_hex (header "token-a") registered ≡ (ok tt, logged_out)
unfolding logout_route from_request_parts find_active_session_by_token_hash touch_session
    revoke_session constrained statement logout bearer_token
logs_ada_out = refl

login-LetsIn_example :
    (user : User) × (find
        (λ u. str_eq u.email (normalize_email entry.email))
        (seen registered).users
      ≡ some user)
    × (str_eq user.email (normalize_email entry.email) ≡ true)
    × (verify_password argon2 entry.password user.password_hash ≡ true)
    × (from_user ada ≡ from_user user)
    × LetsIn argon2 sha256_hex add_seconds is_whitespace 600 (header "token-b") user.id logged_in
login-LetsIn_example =
    login-LetsIn argon2 sha256_hex add_seconds is_whitespace 600 "token-b" 5_000_000_000 entry
      registered logged_in (response "token-b") (header "token-b") logs_ada_in bearer_b refl
      (omega arith)

register-LetsIn_example :
    ("ada@example.com" ≡ normalize_email registration.email)
    × ("Ada" ≡ trim registration.full_name)
    × LetsIn argon2 sha256_hex add_seconds is_whitespace 600 (header "token-a") 100 registered
register-LetsIn_example =
    register-LetsIn argon2 sha256_hex add_seconds is_whitespace 600 "salt" "token-a" 5_000_000_000
      registration (quiet small) registered (response "token-a") (header "token-a") registers_ada
      bearer_a refl (omega arith)

abbrev wrong_entry : LoginRequest
wrong_entry = record { email = "ada@example.com"; password = "battery staple horse" }

email_ok : validate_email (normalize_email "ada@example.com") ≡ ok tt
unfolding validate_email normalize_email dec_lt any_char split_once contains
email_ok = refl

wrong_password :
    IsRejected argon2 sha256_hex add_seconds is_whitespace 600 wrong_entry
      (find (λ u. str_eq u.email (normalize_email wrong_entry.email)) (seen registered).users)
unfolding normalize_email verify_password dec_lt split_once
wrong_password = refl

login_rejected_example :
    login argon2 sha256_hex add_seconds is_whitespace 600 "token-b" 5_000_000_000 wrong_entry
      registered
    ≡ (err invalid_credentials, world (session_a ∷ []) 3)
login_rejected_example =
    login_rejected argon2 sha256_hex add_seconds is_whitespace 600 "token-b" 5_000_000_000
      wrong_entry registered email_ok wrong_password

abbrev visit : List Request
visit =
    registers "salt" "token-b" 5_000_000_000 registration
    ∷ logs_in "token-b" 5_000_000_000 entry
    ∷ asks (header "token-a")
    ∷ logs_out (header "token-b")
    ∷ cleans 4_000_000_000
    ∷ []

perform_all-AccountsAreValid_example :
    AccountsAreValid
      (perform_all argon2 sha256_hex add_seconds is_whitespace 600 visit (quiet small)).1.db
perform_all-AccountsAreValid_example =
    perform_all-AccountsAreValid argon2 sha256_hex add_seconds is_whitespace 600 visit (quiet small)
      (record { normal = tt; distinct = tt }) (λ k db v. v)

other_token : sha256_hex "token-b" ≢ sha256_hex "token-a"
other_token e =
    let taken = (eq_iff (sha256_hex "token-b") (sha256_hex "token-a")).1 e in absurd (cc)

logout_route-refused_example :
    ((from_request_parts sha256_hex
        (header "token-a")
        (perform_all argon2 sha256_hex add_seconds is_whitespace 600 visit logged_out).1).0
      ≡ err generic)
    ⊎ ((from_request_parts sha256_hex
          (header "token-a")
          (perform_all argon2 sha256_hex add_seconds is_whitespace 600 visit logged_out).1).0
        ≡ err database)
logout_route-refused_example =
    logout_route-refused argon2 sha256_hex add_seconds is_whitespace 600 101 (header "token-a")
      "token-a" visit registered logged_out bearer_a (record { one = (refl, tt) }) (λ k db v. v)
      logs_ada_out (λ k db v. v) (other_token, (other_token, (tt, (tt, (tt, tt)))))
