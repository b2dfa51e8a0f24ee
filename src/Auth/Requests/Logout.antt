-- ===== src/Auth/Requests/Logout.antt =====
-- src/auth/ and src/db/sessions.rs: a logout ends its session.
use Prim.Native.Char.{Char}
use mathlib.Core.Path.{subst}
use legaltech_contract_autom.Reminders.Service.{ok_or, sql}
use text.Mathlib.Text.{◌==◌ as str_eq}
use legaltech_contract_autom.Common.{
  ℕ, String, Bool, true, false, not, ◌&&◌, ◌==◌, any, Option, none, some, ◌≡◌, ◌≢◌, refl, sym, ap,
  ◌∙◌, inl, inr, List, [], ◌∷◌, All, All-update_if, Bool-cases, Option-cases, arith, find, Result,
  ok, err, ◌⊎◌, ltb, update_if,
}
use legaltech_contract_autom.Errors.{AppError, database}
use legaltech_contract_autom.Db.Models.{Database, Session}
use legaltech_contract_autom.Db.Session.{
  World, Written, written, unique_violation, other_violation, seen, clock, statement, constrained,
}
use legaltech_contract_autom.Db.Preservation.{
  Keeps, IsGood, Keeps-statement, Keeps-bind, Keeps-map_err, Keeps-ignore, Keeps-pure, Keeps-throw,
  seen-holds,
}
use legaltech_contract_autom.Db.Sessions.{
  touch_session, revoke_session, is_none, is_revocable, is_live, find_active_session_by_token_hash,
}
use legaltech_contract_autom.Auth.Token.{Argon2, hash_token}
use legaltech_contract_autom.Auth.Handlers.{logout, written_or_database}
use legaltech_contract_autom.Db.Inversion.{after-ok, lifted-ok, statement-ok}
use legaltech_contract_autom.Auth.Extractor.{
  AuthenticatedUser, from_request_parts, bearer_token, generic,
}
use legaltech_contract_autom.Auth.Requests.{Request, logout_route, perform_all}
use legaltech_contract_autom.Auth.Requests.Preserved.{perform_all-Keeps, IssuesFresh}
use legaltech_contract_autom.Auth.Requests.Revocation.{
  IsRevoked, insert_user-Keeps, insert_session-Keeps, touch_session-Keeps, revoke_session-Keeps,
  delete_stale-Keeps, from_request_parts-refuses,
}

some_eq : {A : Type 0} {a b : A} → some a ≡ some b → a ≡ b
some_eq h = cc

-- What `find` gives passes its test and is in the list.
find-All :
    {A : Type 0} (P : A → Type 0) (p : A → Bool) (xs : List A) (x : A)
    → find p xs ≡ some x
    → All P xs
    → (p x ≡ true) × P x
find-All P p [] x e a = absurd (cc)
find-All P p (y ∷ ys) x e a = elim (Bool-cases (p y)) [
  | inl q ↦
      let same : y ≡ x = some_eq (rw q at e) in subst (λ z. (p z ≡ true) × P z) (same) (q, a.0)
  | inr q ↦ find-All P p ys x (rw q at e) a.1
]

module _ (h : String) (i : ℕ) where
  -- No session but one has the token hash, as UNIQUE (token_hash) says of the rows that are there.
  pub record OneSession (db : Database) : Type 0 where
    pub one : All (λ s. (str_eq s.token_hash h && not (s.id == i)) ≡ false) db.sessions

  touch_session-One : (id : ℕ) → Keeps OneSession (touch_session id)
  unfolding touch_session
  touch_session-One id = Keeps-statement OneSession _ λ now fresh db v. record {
    one =
        All-update_if _ (λ s. s.id == id) (λ s. record s { last_used_at = now }) db.sessions
          (λ s p e. p) v.one;
  }

  from_request_parts-One :
      (sha256_hex : String → String) (header : Option String)
      → Keeps OneSession (from_request_parts sha256_hex header)
  unfolding from_request_parts find_active_session_by_token_hash
  from_request_parts-One sha256_hex header =
      Keeps-bind OneSession _ _ (ok_or-One (bearer_token header)) λ raw_token.
        Keeps-bind OneSession _ _
          (Keeps-map_err OneSession (λ e. database) _
            (Keeps-statement OneSession _ (λ now fresh db v. v)))
          λ found. Keeps-bind OneSession _ _ (ok_or-One found) λ s.
            Keeps-bind OneSession _ _ (Keeps-ignore OneSession _ (touch_session-One s.id))
              λ _. Keeps-pure OneSession (record { user_id = s.user_id; session_id = s.id })
    where
      ok_or-One : {A : Type 0} (o : Option A) → Keeps OneSession (ok_or generic o)
      ok_or-One none = Keeps-throw OneSession generic
      ok_or-One (some a) = Keeps-pure OneSession a

  -- Credentials with the hash are those of the session.
  session_id_of :
      (sha256_hex : String → String) (header : Option String) (raw_token : String) (w : World)
      (auth : AuthenticatedUser)
      → bearer_token header ≡ some raw_token
      → sha256_hex raw_token ≡ h
      → OneSession (seen w)
      → (from_request_parts sha256_hex header w).0 ≡ ok auth
      → auth.session_id ≡ i
  unfolding from_request_parts find_active_session_by_token_hash statement hash_token
  session_id_of sha256_hex header raw_token w auth b e o r =
      elim (Bool-cases (w.turns w.tick).refused) [
        | inl refused ↦ let r' = rw (b, refused) at r in absurd (cc)
        | inr sent ↦
            elim (Option-cases
              (find (λ s. str_eq s.token_hash h && is_live (clock w) s) (seen w).sessions)) [
                | inl missed ↦ let r' = rw (b, e, sent, missed) at r in absurd (cc)
                | inr (s, hit) ↦
                    let r' = rw (b, e, sent, hit) at r in
                    let f =
                      find-All (λ s. (str_eq s.token_hash h && not (s.id == i)) ≡ false)
                        (λ s. str_eq s.token_hash h && is_live (clock w) s) (seen w).sessions s hit
                        o.one in
                    let same : s.id ≡ auth.session_id = cc in
                    let ids : s.id ≡ i = ground (arith, f.0, f.1) in sym (same) ∙ ids
              ]
      ]

  written_ok :
      (row : Written (Unit {0})) (u w' : World)
      → written_or_database row u ≡ (ok tt, w')
      → (row ≡ written tt) × (u ≡ w')
  written_ok (written tt) u w' e = (refl, cc)
  written_ok unique_violation u w' e = absurd (cc)
  written_ok other_violation u w' e = absurd (cc)

  -- Revoking the one session of the hash leaves none.
  revoke-All :
      (now : ℕ) (ss : List Session)
      → All (λ s. (str_eq s.token_hash h && not (s.id == i)) ≡ false) ss
      → All
          (λ s. (str_eq s.token_hash h && is_none s.revoked_at) ≡ false)
          (update_if (is_revocable i) (λ s. record s { revoked_at = some now }) ss)
  revoke-All now [] a = tt
  revoke-All now (s ∷ ss) a = (ground (arith, a.0), revoke-All now ss a.1)

  abbrev revoked_in : ℕ → ℕ → Bool → Database → Written (Unit {0}) × Database
  revoked_in now id bad db = constrained bad false false db (
    tt,
    record db {
      sessions = update_if (is_revocable id) (λ s. record s { revoked_at = some now }) db.sessions;
    },
  )

  after_revoke :
      (now id : ℕ) (bad : Bool) (db : Database)
      → id ≡ i
      → OneSession db
      → (revoked_in now id bad db).0 ≡ written tt
      → IsRevoked h (revoked_in now id bad db).1
  unfolding constrained
  after_revoke now id true db same o done = absurd (cc)
  after_revoke now id false db same o done =
      rw same (record { revoked = revoke-All now db.sessions o.one })

  logout-IsRevoked :
      (auth : AuthenticatedUser) (v w' : World)
      → auth.session_id ≡ i
      → OneSession (seen v)
      → logout auth v ≡ (ok tt, w')
      → IsRevoked h w'.db
  unfolding logout revoke_session
  logout-IsRevoked auth v w' same o e =
      let q =
        after-ok (λ (row : Written (Unit {0})). written_or_database row)
          (sql (revoke_session auth.session_id) v) e in
      let t = statement-ok _ v (lifted-ok (λ e. database) (revoke_session auth.session_id v) q.2) in
      let d = written_ok q.0 q.1 w' q.3 in
      let bad : Bool =
        any (λ s. is_revocable auth.session_id s && ltb (clock v) s.created_at) (seen v).sessions in
      subst (IsRevoked h) (sym (ap (λ (u : World). u.db) t.1) ∙ ap (λ (u : World). u.db) d.1)
        (after_revoke (clock v) auth.session_id bad (seen v) same o (sym (t.0) ∙ d.0))

  -- The extractor and then the revocation.
  logout_route-IsRevoked :
      (sha256_hex : String → String) (header : Option String) (raw_token : String) (w w' : World)
      → bearer_token header ≡ some raw_token
      → sha256_hex raw_token ≡ h
      → OneSession w.db
      → ((k : ℕ) (db : Database) → OneSession db → OneSession ((w.turns k).others db))
      → logout_route sha256_hex header w ≡ (ok tt, w')
      → IsRevoked h w'.db
  unfolding logout_route
  logout_route-IsRevoked sha256_hex header raw_token w w' b e o rely done =
      let good : IsGood OneSession w = record { holds = o; rely = rely } in
      let q =
        after-ok (λ (auth : AuthenticatedUser). logout auth)
          (from_request_parts sha256_hex header w) done in
      let kept = (from_request_parts-One sha256_hex header).keeps w good in
      let id =
        session_id_of sha256_hex header raw_token w q.0 b e (seen-holds OneSession w good)
          (ap (λ (p : Result AppError AuthenticatedUser × World). p.0) q.2) in
      let then_good : IsGood OneSession q.1 =
        subst (IsGood OneSession) (ap (λ (p : Result AppError AuthenticatedUser × World). p.1) q.2)
          kept in
      logout-IsRevoked q.0 q.1 w' id (seen-holds OneSession q.1 then_good) q.3

-- After a logout that succeeded, whatever requests to register, log in, log out and ask who one is,
-- and whatever cleanups, run, the same credentials are refused with the generic message, unless the
-- database fails: provided that the logout's session is the only one that ever has the token's hash,
-- that no request issues a token of the same hash, and that no other connection brings a session of
-- that hash back.
pub logout_route-refused :
    (argon2 : Argon2) (sha256_hex : String → String) (add_seconds : ℕ → ℕ → Option ℕ)
    (is_space : Char → Bool) (lifetime_seconds id : ℕ) (header : Option String) (raw_token : String)
    (rs : List Request) (w w' : World)
    → bearer_token header ≡ some raw_token
    → OneSession (sha256_hex raw_token) id w.db
    → ((k : ℕ) (db : Database)
        → OneSession (sha256_hex raw_token) id db
        → OneSession (sha256_hex raw_token) id ((w.turns k).others db))
    → logout_route sha256_hex header w ≡ (ok tt, w')
    → ((k : ℕ) (db : Database)
        → IsRevoked (sha256_hex raw_token) db
        → IsRevoked (sha256_hex raw_token) ((w'.turns k).others db))
    → All (IssuesFresh sha256_hex (λ t. t ≢ sha256_hex raw_token)) rs
    → ((from_request_parts sha256_hex header
          (perform_all argon2 sha256_hex add_seconds is_space lifetime_seconds rs w').1).0
        ≡ err generic)
      ⊎ ((from_request_parts sha256_hex header
            (perform_all argon2 sha256_hex add_seconds is_space lifetime_seconds rs w').1).0
          ≡ err database)
logout_route-refused argon2 sha256_hex add_seconds is_space lifetime_seconds id header raw_token rs
      w w' b one rely done stays fresh =
    let h : String = sha256_hex raw_token in
    let gone : IsRevoked h w'.db =
      logout_route-IsRevoked h id sha256_hex header raw_token w w' b refl one rely done in
    let good : IsGood (IsRevoked h)
        (perform_all argon2 sha256_hex add_seconds is_space lifetime_seconds rs w').1 =
      (perform_all-Keeps argon2 sha256_hex add_seconds is_space lifetime_seconds (IsRevoked h)
          (λ t. t ≢ h) (insert_user-Keeps h is_space) (insert_session-Keeps h)
          (touch_session-Keeps h) (revoke_session-Keeps h) (delete_stale-Keeps h) rs fresh).keeps
        w' (record { holds = gone; rely = stays }) in
    from_request_parts-refuses h sha256_hex header raw_token _ b refl
      (seen-holds (IsRevoked h) _ good)
