-- ===== src/Auth/Extractor.antt =====
-- src/auth/middleware.rs: who a request comes from.
use legaltech_contract_autom.Common.{ℕ, String, Option, none, some, if◌then◌else◌}
use legaltech_contract_autom.Common.Texts.{trim, is_empty, strip_prefix}
use legaltech_contract_autom.Errors.{AppError, authentication}
use legaltech_contract_autom.Db.Session.{Db, pure, ignore, ◌>>=◌, ◌>>◌}
use legaltech_contract_autom.Db.Sessions.{find_active_session_by_token_hash, touch_session}
use legaltech_contract_autom.Reminders.Service.{sql, ok_or}
use legaltech_contract_autom.Auth.Token.{hash_token}

pub record AuthenticatedUser : Type 0 where
  pub user_id : ℕ
  pub session_id : ℕ

abbrev pub generic : AppError
generic = authentication "invalid or missing credentials"

-- strip_prefix("Bearer "), trim, and not empty
unfoldable pub bearer_token : Option String → Option String
unfolding strip_prefix trim
bearer_token none = none
bearer_token (some header) = elim (strip_prefix "Bearer " header) [
  | none ↦ none
  | some rest ↦ if is_empty (trim rest) then none else some (trim rest)
]

module _ (sha256_hex : String → String) where
  -- The header is that of Authorization, where it is there and is text.
  unfoldable pub from_request_parts : (header : Option String) → Db AppError AuthenticatedUser
  unfolding bearer_token hash_token
  from_request_parts header = do
    raw_token ← ok_or generic (bearer_token header)
    found ← sql (find_active_session_by_token_hash (hash_token sha256_hex raw_token))
    session ← ok_or generic found
    ignore (touch_session session.id)
    pure (record { user_id = session.user_id; session_id = session.id })
