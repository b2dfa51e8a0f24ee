-- ===== src/Auth/Handlers/Opened.antt =====
-- src/auth/handlers.rs and src/auth/middleware.rs: a token that was issued lets its user in.
use Prim.Native.Char.{Char}
use text.Mathlib.Text.{◌==◌ as str_eq}
use text.Mathlib.TextEquality.{eq_iff}
use mathlib.Core.Path.{subst}
use legaltech_contract_autom.Common.{
  ℕ, ◌<◌, String, Bool, true, false, not, ◌&&◌, ◌||◌, ◌==◌, ltb, Option, none, some, ◌≡◌, refl, sym,
  ap, ◌∙◌, ◌⊎◌, inl, inr, Result, ok, err, List, [], ◌∷◌, ◌++◌, any, find, Bool-cases, arith,
}
use legaltech_contract_autom.Errors.{AppError, database}
use legaltech_contract_autom.Db.Models.{User, Session, Database}
use legaltech_contract_autom.Db.Session.{
  World, Written, written, unique_violation, other_violation, constrained, statement, seen, clock,
}
use legaltech_contract_autom.Db.Inversion.{after-ok, lifted-ok, statement-ok}
use legaltech_contract_autom.Db.Sessions.{
  insert_session, find_active_session_by_token_hash, token_hash_shape, is_live,
}
use legaltech_contract_autom.Reminders.Service.{sql}
use legaltech_contract_autom.Auth.Token.{Argon2, IssuedToken, hash_token}
use legaltech_contract_autom.Auth.Extractor.{from_request_parts, bearer_token}
use legaltech_contract_autom.Auth.Handlers.{
  AuthResponse, open_session, from_user, written_or_database,
}

find-last :
    {A : Type 0} (p q : A → Bool) (xs : List A) (x : A)
    → any q xs ≡ false
    → ((y : A) → q y ≡ false → p y ≡ false)
    → p x ≡ true
    → find p (xs ++ x ∷ []) ≡ some x
find-last p q [] x none_of skip hit = rw hit refl
find-last p q (y ∷ ys) x none_of skip hit =
    let other : q y ≡ false = ground arith in
    let later : any q ys ≡ false = ground arith in
    rw (skip y other) (find-last p q ys x later skip hit)

-- The session of a user is there, live until it expires.
pub record Opened (w : World) (hash : String) (user_id expires_at : ℕ) : Type 0 where
  before : List Session
  session : Session
  added : w.db.sessions ≡ before ++ session ∷ []
  unseen : any (λ (s : Session). str_eq s.token_hash hash || s.id == session.id) before ≡ false
  hashed : session.token_hash ≡ hash
  owned : session.user_id ≡ user_id
  unrevoked : session.revoked_at ≡ none
  expiry : session.expires_at ≡ expires_at

inserted-Opened :
    (checks taken missing : Bool) (s : Session) (db : Database) (w : World) (row : Written Session)
    → taken ≡ any (λ (x : Session). str_eq x.token_hash s.token_hash || x.id == s.id) db.sessions
    → row
      ≡ (constrained checks taken missing db (s, record db { sessions = db.sessions ++ s ∷ [] })).0
    → w.db
      ≡ (constrained checks taken missing db (s, record db { sessions = db.sessions ++ s ∷ [] })).1
    → (a : Session) × (row ≡ written a)
    → s.revoked_at ≡ none
    → Opened w s.token_hash s.user_id s.expires_at
unfolding constrained
inserted-Opened true taken missing s db w row t e f a n = absurd (let a' = a.1 in cc)
inserted-Opened false true missing s db w row t e f a n = absurd (let a' = a.1 in cc)
inserted-Opened false false true s db w row t e f a n = absurd (let a' = a.1 in cc)
inserted-Opened false false false s db w row t e f a n = record {
  before = db.sessions;
  session = s;
  added = ap (λ (d : Database). d.sessions) f;
  unseen = sym t;
  hashed = refl;
  owned = refl;
  unrevoked = n;
  expiry = refl;
}

written_value :
    {A : Type 0} (row : Written A) (u : World) {a : A} {w : World}
    → written_or_database row u ≡ (ok a, w)
    → (row ≡ written a) × (u ≡ w)
written_value (written a) u e = (cc, cc)
written_value unique_violation u e = absurd (cc)
written_value other_violation u e = absurd (cc)

answered :
    (a b : AuthResponse) (v w : World)
    → ◌≡◌ {A = Result AppError (Option AuthResponse) × World} (ok (some a), v) (ok (some b), w)
    → a ≡ b
answered a b v w e = cc

module _ (argon2 : Argon2) (sha256_hex : String → String) (add_seconds : ℕ → ℕ → Option ℕ)
    (is_space : Char → Bool) (lifetime_seconds : ℕ) where
  pub open_session-Opened :
      (user : User) (issued : Option IssuedToken) (w w' : World) (resp : AuthResponse)
      → open_session argon2 sha256_hex add_seconds is_space lifetime_seconds user issued w
        ≡ (ok (some resp), w')
      → (i : IssuedToken) × (issued ≡ some i)
        × (resp.token ≡ i.raw_token)
        × (resp.user ≡ from_user user)
        × (resp.expires_at ≡ i.expires_at)
        × Opened w' i.token_hash user.id i.expires_at
  unfolding open_session insert_session
  open_session-Opened user none w w' resp e = absurd (cc)
  open_session-Opened user (some i) w w' resp e =
      let q =
        after-ok {A = Written Session} _ (sql (insert_session user.id i.token_hash i.expires_at) w)
          e in
      let t =
        statement-ok _ w
          (lifted-ok (λ e. database) (insert_session user.id i.token_hash i.expires_at w) q.2) in
      let z = after-ok {A = Session} _ (written_or_database q.0 q.1) q.3 in
      let d = written_value q.0 q.1 z.2 in
      let answer : AuthResponse = record {
        user = from_user user;
        token = i.raw_token;
        expires_at = i.expires_at;
      } in
      let p : answer ≡ resp = answered answer resp z.1 w' z.3 in
      let u : z.1 ≡ w' = ap (λ (x : Result AppError (Option AuthResponse) × World). x.1) z.3 in
      let opened : Opened q.1 i.token_hash user.id i.expires_at =
        inserted-Opened (not (token_hash_shape i.token_hash && ltb (clock w) i.expires_at)) _
          (not (any (λ (x : User). x.id == user.id) (seen w).users)) _ (seen w) q.1 q.0 refl t.0
          (ap (λ (x : World). x.db) t.1) (z.0, d.0) refl in
      (
        i,
        refl,
        sym (ap (λ (x : AuthResponse). x.token) p),
        sym (ap (λ (x : AuthResponse). x.user) p),
        sym (ap (λ (x : AuthResponse). x.expires_at) p),
        subst (λ x. Opened x i.token_hash user.id i.expires_at) (d.1 ∙ u) opened,
      )

  -- Where the session of a token is there, the token lets its user in.
  pub Opened-authenticates :
      (header : Option String) (raw_token hash : String) (user_id expires_at : ℕ) (w : World)
      → bearer_token header ≡ some raw_token
      → sha256_hex raw_token ≡ hash
      → Opened w hash user_id expires_at
      → (seen w).sessions ≡ w.db.sessions
      → clock w < expires_at
      → ((session_id : ℕ) × ((from_request_parts sha256_hex header w).0
            ≡ ok (record { user_id = user_id; session_id = session_id })))
        ⊎ ((from_request_parts sha256_hex header w).0 ≡ err database)
  unfolding from_request_parts find_active_session_by_token_hash statement hash_token
  Opened-authenticates header raw_token hash user_id expires_at w b e o same live =
      let found : find (λ s. str_eq s.token_hash hash && is_live (clock w) s) (seen w).sessions
          ≡ some o.session =
        rw (same, o.added)
          (find-last _ (λ (s : Session). str_eq s.token_hash hash || s.id == o.session.id) o.before
            o.session o.unseen (λ y h. ground arith)
            (ground (arith, eq_iff o.session.token_hash hash, o.hashed, o.unrevoked, o.expiry))) in
      elim (Bool-cases (w.turns w.tick).refused) [
        | inl refused ↦ inr (rw (b, refused) refl)
        | inr sent ↦ inl (o.session.id, rw (b, e, sent, found, o.owned) refl)
      ]
