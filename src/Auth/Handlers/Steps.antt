-- ===== src/Auth/Handlers/Steps.antt =====
-- src/auth/handlers.rs: what `login` and `register` went through when they succeed.
use Prim.Native.Char.{Char}
use text.Mathlib.Text.{◌==◌ as str_eq}
use mathlib.Core.Path.{subst}
use mathlib.Core.Option.{map as map_option}
use legaltech_contract_autom.Common.{
  ℕ, String, Bool, true, false, Option, none, some, ◌≡◌, refl, sym, ap, ◌∙◌, inl, inr, Result, ok,
  err, find, Bool-cases, List, [], ◌∷◌,
}
use legaltech_contract_autom.Common.Texts.{trim}
use legaltech_contract_autom.Errors.{AppError, database, internal}
use legaltech_contract_autom.Db.Models.{User, Database}
use legaltech_contract_autom.Db.Session.{World, Written, constrained, seen, after}
use legaltech_contract_autom.Db.Inversion.{after-ok, lifted-ok, statement-ok}
use legaltech_contract_autom.Db.Users.{find_user_by_email, insert_user}
use legaltech_contract_autom.Reminders.Service.{sql, ok_or, require}
use legaltech_contract_autom.Auth.Validation.{
  normalize_email, validate_email, validate_full_name, validate_password,
}
use legaltech_contract_autom.Auth.Token.{
  Argon2, verify_password, hash_password, IssuedToken, issue_token, hash_token,
}
use legaltech_contract_autom.Auth.Handlers.{
  AuthResponse, LoginRequest, RegisterRequest, open_session, from_result, inserted_user, login,
  register, invalid_credentials,
}

passed :
    {A : Type 0} (o : Option A) (e : AppError) (v : World) {a : A} {w : World}
    → ok_or e o v ≡ (ok a, w)
    → (o ≡ some a) × (v ≡ w)
passed none e v h = absurd (cc)
passed (some a) e v h = (cc, cc)

required :
    (b : Bool) (e : AppError) (v : World) {w : World}
    → require b e v ≡ (ok tt, w)
    → (b ≡ true) × (v ≡ w)
required true e v h = (refl, cc)
required false e v h = absurd (cc)

from_result_world :
    {A : Type 0} (r : Result AppError A) (v : World) {a : A} {w : World}
    → from_result r v ≡ (ok a, w)
    → w ≡ v
from_result_world (ok x) v h = cc
from_result_world (err e) v h = absurd (cc)

find-passes : {A : Type 0} (p : A → Bool) (xs : List A) (x : A) → find p xs ≡ some x → p x ≡ true
find-passes p [] x e = absurd (cc)
find-passes p (y ∷ ys) x e = elim (Bool-cases (p y)) [
  | inl q ↦
      let same : some y ≡ some x = rw q at e in let s : y ≡ x = cc in subst (λ z. p z ≡ true) (s) q
  | inr q ↦ find-passes p ys x (rw q at e)
]

module _ (argon2 : Argon2) (sha256_hex : String → String) (add_seconds : ℕ → ℕ → Option ℕ)
    (is_space : Char → Bool) (lifetime_seconds : ℕ) where
  abbrev pub issued : String → ℕ → Option IssuedToken
  issued raw_token now = issue_token sha256_hex add_seconds raw_token now lifetime_seconds

  -- What a login went through before it opened a session.
  pub login-opens :
      (raw_token : String) (now : ℕ) (body : LoginRequest) (w w' : World) (resp : AuthResponse)
      → login argon2 sha256_hex add_seconds is_space lifetime_seconds raw_token now body w
        ≡ (ok (some resp), w')
      → (user : User) × (v : World) × (find
            (λ u. str_eq u.email (normalize_email body.email))
            (seen w).users
          ≡ some user)
        × (str_eq user.email (normalize_email body.email) ≡ true)
        × (verify_password argon2 body.password user.password_hash ≡ true)
        × (open_session argon2 sha256_hex add_seconds is_space lifetime_seconds user
              (issued raw_token now)
              v
            ≡ (ok (some resp), w'))
  unfolding login find_user_by_email
  login-opens raw_token now body w w' resp e =
      let a =
        after-ok {A = Unit {0}} _ (from_result (validate_email (normalize_email body.email)) w) e in
      let b =
        after-ok {A = Option User} _ (sql (find_user_by_email (normalize_email body.email)) a.1)
          a.3 in
      let t =
        statement-ok _ a.1
          (lifted-ok (λ e. database) (find_user_by_email (normalize_email body.email) a.1) b.2) in
      let c = after-ok {A = User} _ (ok_or invalid_credentials b.0 b.1) b.3 in
      let f = passed b.0 invalid_credentials b.1 c.2 in
      let unmoved : a.1 ≡ w =
        from_result_world (validate_email (normalize_email body.email)) w a.2 in
      let d =
        after-ok {A = Unit {0}} _
          (require (verify_password argon2 body.password c.0.password_hash) invalid_credentials c.1)
          c.3 in
      (
        c.0,
        d.1,
        subst
            (λ x. find (λ u. str_eq u.email (normalize_email body.email)) (seen x).users ≡ some c.0)
            unmoved (sym t.0 ∙ f.0),
        find-passes _ (seen a.1).users c.0 (sym t.0 ∙ f.0),
        (required (verify_password argon2 body.password c.0.password_hash) invalid_credentials c.1
            d.2).0,
        d.3,
      )

  pub issued_of :
      (raw_token : String) (now : ℕ) (i : IssuedToken)
      → issued raw_token now ≡ some i
      → sha256_hex i.raw_token ≡ i.token_hash
  unfolding issue_token hash_token
  issued_of raw_token now i e = go (add_seconds now lifetime_seconds) e
    where
      go :
          (o : Option ℕ)
          → map_option
              (λ t. record {
                raw_token = raw_token;
                token_hash = sha256_hex raw_token;
                expires_at = t;
              })
              o
            ≡ some i
          → sha256_hex i.raw_token ≡ i.token_hash
      go none e = absurd (cc)
      go (some t) e =
          let same : ◌≡◌ {A = IssuedToken}
              (record { raw_token = raw_token; token_hash = sha256_hex raw_token; expires_at = t })
              i =
            cc in
          subst (λ (x : IssuedToken). sha256_hex x.raw_token ≡ x.token_hash) (same) refl

  user_of :
      (checks taken : Bool) (u : User) (before after : Database) (v : World) {user : User}
      {w : World}
      → inserted_user (constrained checks taken false before (u, after)).0 v ≡ (ok user, w)
      → user ≡ u
  unfolding constrained
  user_of true taken u before after v e = absurd (cc)
  user_of false true u before after v e = absurd (cc)
  user_of false false u before after v e = cc

  pub register-opens :
      (salt raw_token : String) (now : ℕ) (body : RegisterRequest) (w w' : World)
      (resp : AuthResponse)
      → register argon2 sha256_hex add_seconds is_space lifetime_seconds salt raw_token now body w
        ≡ (ok (some resp), w')
      → (user : User) × (v : World) × (user.email ≡ normalize_email body.email)
        × (hash_password argon2 salt body.password ≡ some user.password_hash)
        × (user.full_name ≡ trim body.full_name)
        × (open_session argon2 sha256_hex add_seconds is_space lifetime_seconds user
              (issued raw_token now)
              v
            ≡ (ok (some resp), w'))
  unfolding register insert_user
  register-opens salt raw_token now body w w' resp e =
      let email = normalize_email body.email in
      let a = after-ok {A = Unit {0}} _ (from_result (validate_email email) w) e in
      let b = after-ok {A = Unit {0}} _ (from_result (validate_full_name body.full_name) a.1) a.3 in
      let c = after-ok {A = Unit {0}} _ (from_result (validate_password body.password) b.1) b.3 in
      let d =
        after-ok {A = String} _ (ok_or internal (hash_password argon2 salt body.password) c.1)
          c.3 in
      let h = passed (hash_password argon2 salt body.password) internal c.1 d.2 in
      let insert = insert_user is_space email d.0 (trim body.full_name) in
      let f = after-ok {A = Written User} _ (sql insert d.1) d.3 in
      let t = statement-ok _ d.1 (lifted-ok (λ e. database) (insert d.1) f.2) in
      let g = after-ok {A = User} _ (inserted_user f.0 f.1) f.3 in
      let u =
        user_of _ _ _ (seen d.1) _ f.1
          (subst (λ (r : Written User). inserted_user r f.1 ≡ (ok g.0, g.1)) t.0 g.2) in
      (
        g.0,
        g.1,
        ap (λ (x : User). x.email) u,
        h.0 ∙ ap some (sym (ap (λ (x : User). x.password_hash) u)),
        ap (λ (x : User). x.full_name) u,
        g.3,
      )
