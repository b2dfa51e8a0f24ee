-- ===== src/Auth/Handlers/Entry.antt =====
-- src/auth/handlers.rs: who gets in by `login` and `register`.
use Prim.Native.Char.{Char}
use text.Mathlib.Text.{◌==◌ as str_eq}
use mathlib.Core.Path.{subst}
use legaltech_contract_autom.Common.{
  ℕ, ◌<◌, String, Bool, true, Option, some, ◌≡◌, sym, ap, ◌∙◌, ◌⊎◌, ok, err, find,
}
use legaltech_contract_autom.Common.Texts.{trim}
use legaltech_contract_autom.Errors.{database}
use legaltech_contract_autom.Db.Models.{User}
use legaltech_contract_autom.Db.Session.{World, seen, clock}
use legaltech_contract_autom.Auth.Validation.{normalize_email}
use legaltech_contract_autom.Auth.Token.{Argon2, verify_password}
use legaltech_contract_autom.Auth.Extractor.{from_request_parts, bearer_token}
use legaltech_contract_autom.Auth.Handlers.{
  AuthResponse, UserResponse, LoginRequest, RegisterRequest, open_session, from_user, login,
  register,
}
use legaltech_contract_autom.Auth.Handlers.Opened.{open_session-Opened, Opened-authenticates}
use legaltech_contract_autom.Auth.Handlers.Steps.{issued, issued_of, login-opens, register-opens}

module _ (argon2 : Argon2) (sha256_hex : String → String) (add_seconds : ℕ → ℕ → Option ℕ)
    (is_space : Char → Bool) (lifetime_seconds : ℕ) where
  -- The token of an opened session lets its user in.
  abbrev pub LetsIn : (header : Option String) (user_id : ℕ) (w : World) → Type 0
  LetsIn header user_id w =
      ((session_id : ℕ) × ((from_request_parts sha256_hex header w).0
          ≡ ok (record { user_id = user_id; session_id = session_id })))
      ⊎ ((from_request_parts sha256_hex header w).0 ≡ err database)

  opens-LetsIn :
      (header : Option String) (raw_token : String) (now : ℕ) (user : User) (v w : World)
      (resp : AuthResponse)
      → open_session argon2 sha256_hex add_seconds is_space lifetime_seconds user
          (issued argon2 sha256_hex add_seconds is_space lifetime_seconds raw_token now)
          v
        ≡ (ok (some resp), w)
      → bearer_token header ≡ some resp.token
      → (seen w).sessions ≡ w.db.sessions
      → clock w < resp.expires_at
      → (resp.user ≡ from_user user) × LetsIn header user.id w
  opens-LetsIn header raw_token now user v w resp e b same live =
      let o =
        open_session-Opened argon2 sha256_hex add_seconds is_space lifetime_seconds user
          (issued argon2 sha256_hex add_seconds is_space lifetime_seconds raw_token now) v w resp
          e in
      (
        o.3,
        Opened-authenticates argon2 sha256_hex add_seconds is_space lifetime_seconds header
            o.0.raw_token o.0.token_hash user.id o.0.expires_at w (b ∙ ap some (o.2))
            (issued_of argon2 sha256_hex add_seconds is_space lifetime_seconds raw_token now o.0
              o.1)
            o.5 same (subst (λ t. clock w < t) (o.4) live),
      )

  -- A login that succeeds is that of the row of `users` which the request's normalized address finds
  -- in the tables as the connection sees them. The password matches the hash of that row, the answer
  -- shows that row, and the token is accepted as that account's in any header that carries it, as
  -- long as it has not expired and no other connection has touched the sessions, unless the database
  -- fails.
  pub login-LetsIn :
      (raw_token : String) (now : ℕ) (body : LoginRequest) (w w' : World) (resp : AuthResponse)
      (header : Option String)
      → login argon2 sha256_hex add_seconds is_space lifetime_seconds raw_token now body w
        ≡ (ok (some resp), w')
      → bearer_token header ≡ some resp.token
      → (seen w').sessions ≡ w'.db.sessions
      → clock w' < resp.expires_at
      → (user : User) × (find (λ u. str_eq u.email (normalize_email body.email)) (seen w).users
          ≡ some user)
        × (str_eq user.email (normalize_email body.email) ≡ true)
        × (verify_password argon2 body.password user.password_hash ≡ true)
        × (resp.user ≡ from_user user)
        × LetsIn header user.id w'
  login-LetsIn raw_token now body w w' resp header e b same live =
      let o =
        login-opens argon2 sha256_hex add_seconds is_space lifetime_seconds raw_token now body w w'
          resp e in
      let l = opens-LetsIn header raw_token now o.0 o.1 w' resp o.5 b same live in
      (o.0, o.2, o.3, o.4, l.0, l.1)

  -- A registration that succeeds answers with the normalized address and the trimmed name of the
  -- request, and its token is accepted as that account's in any header that carries it, as long as
  -- it has not expired and no other connection has touched the sessions, unless the database fails.
  pub register-LetsIn :
      (salt raw_token : String) (now : ℕ) (body : RegisterRequest) (w w' : World)
      (resp : AuthResponse) (header : Option String)
      → register argon2 sha256_hex add_seconds is_space lifetime_seconds salt raw_token now body w
        ≡ (ok (some resp), w')
      → bearer_token header ≡ some resp.token
      → (seen w').sessions ≡ w'.db.sessions
      → clock w' < resp.expires_at
      → (resp.user.email ≡ normalize_email body.email)
        × (resp.user.full_name ≡ trim body.full_name)
        × LetsIn header resp.user.id w'
  register-LetsIn salt raw_token now body w w' resp header e b same live =
      let o =
        register-opens argon2 sha256_hex add_seconds is_space lifetime_seconds salt raw_token now
          body w w' resp e in
      let l = opens-LetsIn header raw_token now o.0 o.1 w' resp o.5 b same live in
      (
        ap (λ (x : UserResponse). x.email) l.0 ∙ o.2,
        ap (λ (x : UserResponse). x.full_name) l.0 ∙ o.4,
        subst (λ (i : ℕ). LetsIn header i w') (ap (λ (x : UserResponse). x.id) (sym (l.0))) l.1,
      )
