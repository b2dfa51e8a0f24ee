-- ===== src/Auth/Handlers/Rejected.antt =====
-- src/auth/handlers.rs: a login that is turned down.
use Prim.Native.Char.{Char}
use text.Mathlib.Text.{◌==◌ as str_eq}
use mathlib.Core.Path.{subst}
use legaltech_contract_autom.Common.{
  ℕ, String, Bool, false, Option, none, some, ◌≡◌, refl, inl, inr, ok, err, find, Bool-cases,
  Option-cases, suc, if◌then◌else◌,
}
use legaltech_contract_autom.Errors.{database}
use legaltech_contract_autom.Db.Models.{User}
use legaltech_contract_autom.Db.Session.{World, seen, statement}
use legaltech_contract_autom.Db.Users.{find_user_by_email}
use legaltech_contract_autom.Auth.Validation.{normalize_email, validate_email}
use legaltech_contract_autom.Auth.Token.{Argon2, verify_password}
use legaltech_contract_autom.Auth.Handlers.{LoginRequest, login, invalid_credentials}

module _ (argon2 : Argon2) (sha256_hex : String → String) (add_seconds : ℕ → ℕ → Option ℕ)
    (is_space : Char → Bool) (lifetime_seconds : ℕ) where
  -- No account has the address, or the one that is found does not match the password.
  abbrev pub IsRejected : LoginRequest → Option User → Type 0
  IsRejected body none = Unit
  IsRejected body (some user) = verify_password argon2 body.password user.password_hash ≡ false

  -- An unknown address and a wrong password are answered alike and write alike: with a valid
  -- address, the answer is "invalid credentials", or a database error if the lookup is refused, and
  -- the world moves by one statement that changes nothing.
  pub login_rejected :
      (raw_token : String) (now : ℕ) (body : LoginRequest) (w : World)
      → validate_email (normalize_email body.email) ≡ ok tt
      → IsRejected body (find (λ u. str_eq u.email (normalize_email body.email)) (seen w).users)
      → login argon2 sha256_hex add_seconds is_space lifetime_seconds raw_token now body w ≡ (
        err (if (w.turns w.tick).refused then database else invalid_credentials),
        record w { db = seen w; tick = suc w.tick },
      )
  unfolding login find_user_by_email statement
  login_rejected raw_token now body w valid rejected = elim (Bool-cases (w.turns w.tick).refused) [
    | inl refused ↦ rw (valid, refused) refl
    | inr sent ↦
        elim (Option-cases
          (find (λ u. str_eq u.email (normalize_email body.email)) (seen w).users)) [
            | inl missed ↦ rw (valid, sent, missed) refl
            | inr (u, hit) ↦
                let wrong : verify_password argon2 body.password u.password_hash ≡ false =
                  subst (IsRejected body) hit rejected in
                rw (valid, sent, hit, wrong) refl
          ]
  ]
