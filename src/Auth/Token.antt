-- ===== src/Auth/Token.antt =====
-- src/auth/session.rs and src/auth/password.rs, over the crates that do the cryptography.
-- `sha256_hex` is the hex form of a SHA-256 digest; `add_seconds` is Utc::now() + Duration::seconds,
-- with nothing where chrono panics. Random bytes come with the call, already encoded.
use legaltech_contract_autom.Common.{ℕ, String, Bool, Option, none, some}
use mathlib.Core.Option.{map as map_option}

-- What argon2 offers: hashing with a fresh salt to a PHC string, parsing one, and comparing.
pub record Argon2 : Type 1 where
  pub Phc : Type 0
  pub hash : (salt password : String) → Option String
  pub parse : String → Option Phc
  pub compare : (password : String) → Phc → Bool

unfoldable pub hash_password : (argon2 : Argon2) → (salt password : String) → Option String
hash_password argon2 salt password = argon2.hash salt password

-- A stored hash that is malformed matches nothing.
unfoldable pub verify_password : (argon2 : Argon2) → (password stored_hash : String) → Bool
verify_password argon2 password stored_hash = elim (argon2.parse stored_hash) [
  | none ↦ Bool.false
  | some phc ↦ argon2.compare password phc
]

pub record IssuedToken : Type 0 where
  pub raw_token : String
  pub token_hash : String
  pub expires_at : ℕ

module _ (sha256_hex : String → String) where
  unfoldable pub hash_token : String → String
  hash_token raw_token = sha256_hex raw_token

  unfoldable pub issue_token :
      (add_seconds : ℕ → ℕ → Option ℕ)
      → (raw_token : String) (now lifetime_seconds : ℕ) → Option IssuedToken
  unfolding hash_token
  issue_token add_seconds raw_token now lifetime_seconds =
      map_option
        (λ expires_at. record {
          raw_token = raw_token;
          token_hash = hash_token raw_token;
          expires_at = expires_at;
        })
        (add_seconds now lifetime_seconds)
