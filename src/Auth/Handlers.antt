-- ===== src/Auth/Handlers.antt =====
-- src/auth/handlers.rs: register, login, logout, me.
-- The time and the random values that a request draws stand among its arguments. `is_space` is that
-- of Db/Users. A handler that panics gives no answer.
pub mod Limits
pub mod Opened
pub mod Steps
pub mod Entry
pub mod Rejected
use Prim.Native.Char.{Char}
use legaltech_contract_autom.Common.{
  ℕ, String, Bool, true, false, Option, none, some, if◌then◌else◌, Result, ok, err,
}
use legaltech_contract_autom.Common.Texts.{trim}
use legaltech_contract_autom.Errors.{AppError, authentication, conflict, database, internal}
use legaltech_contract_autom.Db.Models.{User, Session}
use legaltech_contract_autom.Db.Session.{
  Db, Written, written, unique_violation, other_violation, pure, throw, ◌>>=◌, ◌>>◌,
}
use legaltech_contract_autom.Db.Users.{insert_user, find_user_by_email, find_user_by_id}
use legaltech_contract_autom.Db.Sessions.{insert_session, revoke_session}
use legaltech_contract_autom.Reminders.Service.{sql, ok_or, require}
use legaltech_contract_autom.Auth.Validation.{
  normalize_email, validate_email, validate_full_name, validate_password,
}
use legaltech_contract_autom.Auth.Token.{
  Argon2, hash_password, verify_password, IssuedToken, issue_token,
}
use legaltech_contract_autom.Auth.Extractor.{AuthenticatedUser}

pub record UserResponse : Type 0 where
  pub id : ℕ
  pub email : String
  pub full_name : String
  pub created_at : ℕ

abbrev pub from_user : User → UserResponse
from_user u = record {
  id = u.id;
  email = u.email;
  full_name = u.full_name;
  created_at = u.created_at;
}

pub record AuthResponse : Type 0 where
  pub user : UserResponse
  pub token : String
  pub expires_at : ℕ

pub record RegisterRequest : Type 0 where
  pub email : String
  pub password : String
  pub full_name : String

pub record LoginRequest : Type 0 where
  pub email : String
  pub password : String

-- `?` on a result
abbrev pub from_result : {A : Type 0} → Result AppError A → Db AppError A
from_result (err e) = throw e
from_result (ok a) = pure a

-- map_err(AppError::Database) where every violation counts alike
abbrev pub written_or_database : {A : Type 0} → Written A → Db AppError A
written_or_database (written a) = pure a
written_or_database unique_violation = throw database
written_or_database other_violation = throw database

abbrev pub inserted_user : Written User → Db AppError User
inserted_user (written user) = pure user
inserted_user unique_violation = throw (conflict "an account with this email already exists")
inserted_user other_violation = throw database

abbrev pub invalid_credentials : AppError
invalid_credentials = authentication "invalid credentials"

module _ (argon2 : Argon2) (sha256_hex : String → String) (add_seconds : ℕ → ℕ → Option ℕ)
    (is_space : Char → Bool) (lifetime_seconds : ℕ) where
  -- The session of a user, and the answer with its token.
  unfoldable pub open_session : User → Option IssuedToken → Db AppError (Option AuthResponse)
  open_session user none = pure none
  open_session user (some issued) = do
    row ← sql (insert_session user.id issued.token_hash issued.expires_at)
    written_or_database row
    pure (
        some (record {
          user = from_user user;
          token = issued.raw_token;
          expires_at = issued.expires_at;
        }))

  -- `register` behind its rate limit.
  unfoldable pub register :
      (salt raw_token : String) (now : ℕ) → RegisterRequest → Db AppError (Option AuthResponse)
  unfolding normalize_email hash_password trim issue_token open_session
  register salt raw_token now body = do
    let email = normalize_email body.email
    from_result (validate_email email)
    from_result (validate_full_name body.full_name)
    from_result (validate_password body.password)
    password_hash ← ok_or internal (hash_password argon2 salt body.password)
    inserted ← sql (insert_user is_space email password_hash (trim body.full_name))
    user ← inserted_user inserted
    open_session user (issue_token sha256_hex add_seconds raw_token now lifetime_seconds)

  -- `login` behind its rate limit; the verification against a dummy hash has no effect.
  unfoldable pub login :
      (raw_token : String) (now : ℕ) → LoginRequest → Db AppError (Option AuthResponse)
  unfolding normalize_email verify_password issue_token open_session
  login raw_token now body = do
    let email = normalize_email body.email
    from_result (validate_email email)
    found ← sql (find_user_by_email email)
    user ← ok_or invalid_credentials found
    require (verify_password argon2 body.password user.password_hash) invalid_credentials
    open_session user (issue_token sha256_hex add_seconds raw_token now lifetime_seconds)

unfoldable pub logout : AuthenticatedUser → Db AppError (Unit {0})
logout auth = do row ← sql (revoke_session auth.session_id); written_or_database row

unfoldable pub me : AuthenticatedUser → Db AppError UserResponse
me auth = do
  found ← sql (find_user_by_id auth.user_id)
  user ← ok_or (authentication "account no longer exists") found
  pure (from_user user)
