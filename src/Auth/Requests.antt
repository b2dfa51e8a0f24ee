-- ===== src/Auth/Requests.antt =====
-- src/auth/: the requests that reach the tables of accounts and sessions, past their rate limits, and
-- the cleanup of src/db/sessions.rs, in any order.
pub mod Preserved
pub mod Accounts
pub mod Revocation
pub mod Logout
use Prim.Native.Char.{Char}
use legaltech_contract_autom.Common.{ℕ, String, Bool, Option, List, [], ◌∷◌}
use legaltech_contract_autom.Errors.{AppError}
use legaltech_contract_autom.Db.Session.{Db, DbError, pure, ignore, ◌>>=◌, ◌>>◌}
use legaltech_contract_autom.Db.Sessions.{delete_stale_sessions}
use legaltech_contract_autom.Auth.Token.{Argon2}
use legaltech_contract_autom.Auth.Extractor.{from_request_parts}
use legaltech_contract_autom.Auth.Handlers.{
  RegisterRequest, LoginRequest, UserResponse, register, login, logout, me,
}

-- With the random values and the time that the request draws.
pub data Request : Type 0 where
  registers : (salt raw_token : String) (now : ℕ) → RegisterRequest → Request
  logs_in : (raw_token : String) (now : ℕ) → LoginRequest → Request
  logs_out : (header : Option String) → Request
  asks : (header : Option String) → Request
  cleans : (cutoff : ℕ) → Request

module _ (sha256_hex : String → String) where
  -- The routes behind the extractor.
  unfoldable pub logout_route : (header : Option String) → Db AppError (Unit {0})
  logout_route header = do auth ← from_request_parts sha256_hex header; logout auth

  unfoldable pub me_route : (header : Option String) → Db AppError UserResponse
  me_route header = do auth ← from_request_parts sha256_hex header; me auth

module _ (argon2 : Argon2) (sha256_hex : String → String) (add_seconds : ℕ → ℕ → Option ℕ)
    (is_space : Char → Bool) (lifetime_seconds : ℕ) where
  -- One request, whatever it answers.
  unfoldable pub perform : Request → Db DbError (Unit {0})
  unfolding logout_route me_route
  perform (registers salt raw_token now body) =
      ignore
        (register argon2 sha256_hex add_seconds is_space lifetime_seconds salt raw_token now body)
  perform (logs_in raw_token now body) =
      ignore (login argon2 sha256_hex add_seconds is_space lifetime_seconds raw_token now body)
  perform (logs_out header) = ignore (logout_route sha256_hex header)
  perform (asks header) = ignore (me_route sha256_hex header)
  perform (cleans cutoff) = ignore (delete_stale_sessions cutoff)

  unfoldable pub perform_all : List Request → Db DbError (Unit {0})
  unfolding perform
  perform_all [] = pure tt
  perform_all (r ∷ rs) = do perform r; perform_all rs
