-- ===== src/Auth/Requests/Preserved.antt =====
-- src/auth/: a property of the tables that the statements keep is kept by every request.
use Prim.Native.Char.{Char}
use legaltech_contract_autom.Common.{
  ℕ, String, Bool, true, false, Option, none, some, ◌≡◌, refl, List, [], ◌∷◌, All, Result, ok, err,
}
use mathlib.Core.Path.{subst}
use mathlib.Core.Option.{map as map_option}
use legaltech_contract_autom.Common.Texts.{trim}
use legaltech_contract_autom.Common.Texts.Normal.{lower-trim_normal}
use legaltech_contract_autom.Errors.{AppError, database}
use legaltech_contract_autom.Db.Models.{Database, User}
use legaltech_contract_autom.Db.Session.{
  Db, DbError, Written, written, unique_violation, other_violation, ◌>>=◌,
}
use legaltech_contract_autom.Db.Preservation.{
  Keeps, Keeps-pure, Keeps-throw, Keeps-statement, Keeps-bind, Keeps-map_err, Keeps-ignore,
}
use legaltech_contract_autom.Db.Users.{insert_user, find_user_by_email, find_user_by_id}
use legaltech_contract_autom.Db.Sessions.{
  insert_session, find_active_session_by_token_hash, touch_session, revoke_session,
  delete_stale_sessions,
}
use legaltech_contract_autom.Reminders.Service.{sql, ok_or, require}
use legaltech_contract_autom.Auth.Validation.{
  normalize_email, validate_email, validate_full_name, validate_password,
}
use legaltech_contract_autom.Auth.Token.{
  Argon2, hash_token, hash_password, verify_password, IssuedToken, issue_token,
}
use legaltech_contract_autom.Auth.Extractor.{from_request_parts, bearer_token, generic}
use legaltech_contract_autom.Auth.Handlers.{
  RegisterRequest, LoginRequest, register, login, logout, me, open_session, from_user, from_result,
  written_or_database, inserted_user,
}
use legaltech_contract_autom.Auth.Requests.{
  Request, registers, logs_in, logs_out, asks, cleans, logout_route, me_route, perform, perform_all,
}

normalize_email_normal :
    (raw : String) → normalize_email (normalize_email raw) ≡ normalize_email raw
unfolding normalize_email
normalize_email_normal raw = lower-trim_normal raw

-- The hash of the token that a request would issue is fresh.
abbrev pub IssuesFresh : (String → String) → (String → Type 0) → Request → Type 0
IssuesFresh sha256_hex Fresh (registers salt raw_token now body) = Fresh (sha256_hex raw_token)
IssuesFresh sha256_hex Fresh (logs_in raw_token now body) = Fresh (sha256_hex raw_token)
IssuesFresh sha256_hex Fresh (logs_out header) = Unit
IssuesFresh sha256_hex Fresh (asks header) = Unit
IssuesFresh sha256_hex Fresh (cleans cutoff) = Unit

module _ (argon2 : Argon2) (sha256_hex : String → String) (add_seconds : ℕ → ℕ → Option ℕ)
    (is_space : Char → Bool) (lifetime_seconds : ℕ) (P : Database → Type 0)
    (Fresh : String → Type 0)
    (user : (email password_hash full_name : String)
      → normalize_email email ≡ email
      → Keeps P (insert_user is_space email password_hash full_name))
    (session : (user_id : ℕ) (token_hash : String) (expires_at : ℕ)
      → Fresh token_hash
      → Keeps P (insert_session user_id token_hash expires_at))
    (touch : (id : ℕ) → Keeps P (touch_session id))
    (revoke : (id : ℕ) → Keeps P (revoke_session id))
    (stale : (cutoff : ℕ) → Keeps P (delete_stale_sessions cutoff)) where
  then :
      {E A B : Type 0} (m : Db E A) (f : A → Db E B)
      → Keeps P m
      → ((a : A) → Keeps P (f a))
      → Keeps P (m >>= f)
  then m f = Keeps-bind P m f

  in_sql : {A : Type 0} (m : Db DbError A) → Keeps P m → Keeps P (sql m)
  in_sql m = Keeps-map_err P (λ e. database) m

  ok_or-Keeps : {A : Type 0} (e : AppError) (o : Option A) → Keeps P (ok_or e o)
  ok_or-Keeps e none = Keeps-throw P e
  ok_or-Keeps e (some a) = Keeps-pure P a

  require-Keeps : (b : Bool) (e : AppError) → Keeps P (require b e)
  require-Keeps true e = Keeps-pure P tt
  require-Keeps false e = Keeps-throw P e

  from_result-Keeps : {A : Type 0} (r : Result AppError A) → Keeps P (from_result r)
  from_result-Keeps (err e) = Keeps-throw P e
  from_result-Keeps (ok a) = Keeps-pure P a

  written-Keeps : {A : Type 0} (r : Written A) → Keeps P (written_or_database r)
  written-Keeps (written a) = Keeps-pure P a
  written-Keeps unique_violation = Keeps-throw P _
  written-Keeps other_violation = Keeps-throw P _

  inserted_user-Keeps : (r : Written User) → Keeps P (inserted_user r)
  inserted_user-Keeps (written a) = Keeps-pure P a
  inserted_user-Keeps unique_violation = Keeps-throw P _
  inserted_user-Keeps other_violation = Keeps-throw P _

  find_user_by_email-Keeps : (email : String) → Keeps P (find_user_by_email email)
  unfolding find_user_by_email
  find_user_by_email-Keeps email = Keeps-statement P _ (λ now fresh db p. p)

  find_user_by_id-Keeps : (id : ℕ) → Keeps P (find_user_by_id id)
  unfolding find_user_by_id
  find_user_by_id-Keeps id = Keeps-statement P _ (λ now fresh db p. p)

  find_active-Keeps : (h : String) → Keeps P (find_active_session_by_token_hash h)
  unfolding find_active_session_by_token_hash
  find_active-Keeps h = Keeps-statement P _ (λ now fresh db p. p)

  open_session-Keeps :
      (u : User) (issued : Option IssuedToken)
      → ((i : IssuedToken) → issued ≡ some i → Fresh i.token_hash)
      → Keeps P (open_session argon2 sha256_hex add_seconds is_space lifetime_seconds u issued)
  unfolding open_session
  open_session-Keeps u none fresh = Keeps-pure P none
  open_session-Keeps u (some i) fresh =
      then _ _ (in_sql _ (session u.id i.token_hash i.expires_at (fresh i refl)))
        λ row. then _ _ (written-Keeps row) λ _. Keeps-pure P _

  issued-Fresh :
      (raw_token : String) (now : ℕ)
      → Fresh (sha256_hex raw_token)
      → (i : IssuedToken)
      → issue_token sha256_hex add_seconds raw_token now lifetime_seconds ≡ some i
      → Fresh i.token_hash
  unfolding issue_token hash_token
  issued-Fresh raw_token now fresh i e = go (add_seconds now lifetime_seconds) e
    where
      go :
          (o : Option ℕ)
          → map_option
              (λ expires_at. record {
                raw_token = raw_token;
                token_hash = sha256_hex raw_token;
                expires_at = expires_at;
              })
              o
            ≡ some i
          → Fresh i.token_hash
      go none e = absurd (cc)
      go (some t) e =
          let same : sha256_hex raw_token ≡ i.token_hash = cc in subst Fresh (same) fresh

  register-Keeps :
      (salt raw_token : String) (now : ℕ) (body : RegisterRequest)
      → Fresh (sha256_hex raw_token)
      → Keeps P
          (register argon2 sha256_hex add_seconds is_space lifetime_seconds salt raw_token now body)
  unfolding register
  register-Keeps salt raw_token now body fresh =
      then _ _ (from_result-Keeps (validate_email (normalize_email body.email))) λ _.
        then _ _ (from_result-Keeps (validate_full_name body.full_name)) λ _.
          then _ _ (from_result-Keeps (validate_password body.password)) λ _.
            then _ _ (ok_or-Keeps _ (hash_password argon2 salt body.password)) λ hash.
              then _ _
                (in_sql _ (
                  user (normalize_email body.email) hash (trim body.full_name)
                    (normalize_email_normal body.email)))
                λ inserted. then _ _ (inserted_user-Keeps inserted) λ u.
                  open_session-Keeps u
                    (issue_token sha256_hex add_seconds raw_token now lifetime_seconds)
                    (issued-Fresh raw_token now fresh)

  login-Keeps :
      (raw_token : String) (now : ℕ) (body : LoginRequest)
      → Fresh (sha256_hex raw_token)
      → Keeps P (login argon2 sha256_hex add_seconds is_space lifetime_seconds raw_token now body)
  unfolding login
  login-Keeps raw_token now body fresh =
      then _ _ (from_result-Keeps (validate_email (normalize_email body.email))) λ _.
        then _ _ (in_sql _ (find_user_by_email-Keeps (normalize_email body.email))) λ found.
          then _ _ (ok_or-Keeps _ found) λ u.
            then _ _ (require-Keeps (verify_password argon2 body.password u.password_hash) _) λ _.
              open_session-Keeps u
                (issue_token sha256_hex add_seconds raw_token now lifetime_seconds)
                (issued-Fresh raw_token now fresh)

  extract-Keeps : (header : Option String) → Keeps P (from_request_parts sha256_hex header)
  unfolding from_request_parts
  extract-Keeps header = then _ _ (ok_or-Keeps generic (bearer_token header)) λ raw_token.
      then _ _ (in_sql _ (find_active-Keeps (hash_token sha256_hex raw_token))) λ found.
        then _ _ (ok_or-Keeps generic found) λ s.
          then _ _ (Keeps-ignore P _ (touch s.id))
            λ _. Keeps-pure P (record { user_id = s.user_id; session_id = s.id })

  logout_route-Keeps : (header : Option String) → Keeps P (logout_route sha256_hex header)
  unfolding logout_route logout
  logout_route-Keeps header =
      then _ _ (extract-Keeps header)
        λ auth. then _ _ (in_sql _ (revoke auth.session_id)) λ row. written-Keeps row

  me_route-Keeps : (header : Option String) → Keeps P (me_route sha256_hex header)
  unfolding me_route me
  me_route-Keeps header = then _ _ (extract-Keeps header) λ auth.
      then _ _ (in_sql _ (find_user_by_id-Keeps auth.user_id))
        λ found. then _ _ (ok_or-Keeps _ found) λ u. Keeps-pure P (from_user u)

  perform-Keeps :
      (r : Request)
      → IssuesFresh sha256_hex Fresh r
      → Keeps P (perform argon2 sha256_hex add_seconds is_space lifetime_seconds r)
  unfolding perform
  perform-Keeps (registers salt raw_token now body) f =
      Keeps-ignore P _ (register-Keeps salt raw_token now body f)
  perform-Keeps (logs_in raw_token now body) f = Keeps-ignore P _ (login-Keeps raw_token now body f)
  perform-Keeps (logs_out header) f = Keeps-ignore P _ (logout_route-Keeps header)
  perform-Keeps (asks header) f = Keeps-ignore P _ (me_route-Keeps header)
  perform-Keeps (cleans cutoff) f = Keeps-ignore P _ (stale cutoff)

  pub perform_all-Keeps :
      (rs : List Request)
      → All (IssuesFresh sha256_hex Fresh) rs
      → Keeps P (perform_all argon2 sha256_hex add_seconds is_space lifetime_seconds rs)
  unfolding perform_all
  perform_all-Keeps [] f = Keeps-pure P tt
  perform_all-Keeps (r ∷ rs) f = then _ _ (perform-Keeps r f.0) λ _. perform_all-Keeps rs f.1
