-- ===== src/Auth/Requests/Revocation.antt =====
-- src/auth/ and src/db/sessions.rs: a session that is revoked stays revoked.
use Prim.Native.Char.{Char}
use text.Mathlib.Text.{◌==◌ as str_eq}
use text.Mathlib.TextEquality.{eq_iff}
use legaltech_contract_autom.Common.{
  ℕ, String, Bool, false, not, ◌&&◌, ◌==◌, Option, none, some, ◌≡◌, ◌≢◌, refl, inl, inr, List, [],
  ◌∷◌, All, All-append, All-update_if, All-filter, Bool-cases, arith, find, err, ◌⊎◌,
}
use legaltech_contract_autom.Errors.{database}
use legaltech_contract_autom.Db.Models.{Database, Session}
use legaltech_contract_autom.Db.Session.{World, seen, clock, statement}
use legaltech_contract_autom.Db.Preservation.{Keeps, Keeps-statement, constrained-keep}
use legaltech_contract_autom.Db.Users.{insert_user}
use legaltech_contract_autom.Db.Sessions.{
  insert_session, touch_session, revoke_session, delete_stale_sessions, is_none, is_revocable,
  is_live, is_stale, find_active_session_by_token_hash,
}
use legaltech_contract_autom.Auth.Token.{hash_token}
use legaltech_contract_autom.Auth.Validation.{normalize_email}
use legaltech_contract_autom.Auth.Extractor.{from_request_parts, bearer_token, generic}

module _ (h : String) where
  -- Every session of the token hash is revoked.
  pub record IsRevoked (db : Database) : Type 0 where
    pub revoked : All (λ s. (str_eq s.token_hash h && is_none s.revoked_at) ≡ false) db.sessions

  pub insert_user-Keeps :
      (is_space : Char → Bool) (email password_hash full_name : String)
      → normalize_email email ≡ email
      → Keeps IsRevoked (insert_user is_space email password_hash full_name)
  unfolding insert_user
  insert_user-Keeps is_space email password_hash full_name n =
      Keeps-statement IsRevoked _ λ now fresh db v.
        constrained-keep IsRevoked _ _ _ db _ v λ free. record { revoked = v.revoked }

  pub insert_session-Keeps :
      (user_id : ℕ) (token_hash : String) (expires_at : ℕ)
      → token_hash ≢ h
      → Keeps IsRevoked (insert_session user_id token_hash expires_at)
  unfolding insert_session
  insert_session-Keeps user_id token_hash expires_at other =
      Keeps-statement IsRevoked _ λ now fresh db v. constrained-keep IsRevoked _ _ _ db _ v λ free.
        record {
          revoked =
              All-append (λ s. (str_eq s.token_hash h && is_none s.revoked_at) ≡ false) db.sessions
                (_ ∷ []) v.revoked (ground (arith, eq_iff token_hash h), tt);
        }

  pub touch_session-Keeps : (id : ℕ) → Keeps IsRevoked (touch_session id)
  unfolding touch_session
  touch_session-Keeps id = Keeps-statement IsRevoked _ λ now fresh db v. record {
    revoked =
        All-update_if _ (λ s. s.id == id) (λ s. record s { last_used_at = now }) db.sessions
          (λ s p e. p) v.revoked;
  }

  pub revoke_session-Keeps : (id : ℕ) → Keeps IsRevoked (revoke_session id)
  unfolding revoke_session
  revoke_session-Keeps id = Keeps-statement IsRevoked _ λ now fresh db v.
      constrained-keep IsRevoked _ _ _ db _ v λ free. record {
        revoked =
            All-update_if _ (is_revocable id) (λ s. record s { revoked_at = some now }) db.sessions
              (λ s p e. ground arith) v.revoked;
      }

  pub delete_stale-Keeps : (cutoff : ℕ) → Keeps IsRevoked (delete_stale_sessions cutoff)
  unfolding delete_stale_sessions
  delete_stale-Keeps cutoff = Keeps-statement IsRevoked _ λ now fresh db v. record {
    revoked = All-filter _ (λ s. not (is_stale now cutoff s)) db.sessions v.revoked;
  }

  find_live-none :
      (now : ℕ) (ss : List Session)
      → All (λ s. (str_eq s.token_hash h && is_none s.revoked_at) ≡ false) ss
      → find (λ s. str_eq s.token_hash h && is_live now s) ss ≡ none
  find_live-none now [] a = refl
  find_live-none now (s ∷ ss) a = ground (arith, find_live-none now ss a.1)

  -- Credentials of a revoked session are refused.
  pub from_request_parts-refuses :
      (sha256_hex : String → String) (header : Option String) (raw_token : String) (w : World)
      → bearer_token header ≡ some raw_token
      → sha256_hex raw_token ≡ h
      → IsRevoked (seen w)
      → ((from_request_parts sha256_hex header w).0 ≡ err generic)
        ⊎ ((from_request_parts sha256_hex header w).0 ≡ err database)
  unfolding from_request_parts find_active_session_by_token_hash statement hash_token
  from_request_parts-refuses sha256_hex header raw_token w b e r =
      elim (Bool-cases (w.turns w.tick).refused) [
        | inl refused ↦ inr (rw (b, refused) refl)
        | inr sent ↦
            inl (rw (b, e, sent, find_live-none (clock w) (seen w).sessions r.revoked) refl)
      ]
