-- ===== src/Db/Sessions.antt =====
-- src/db/sessions.rs: the statements on the `sessions` table, with the constraints of the schema.
use Prim.Native.Char.{Char, code}
use text.Mathlib.Text.{◌==◌ as str_eq}
use legaltech_contract_autom.Common.{
  ℕ, String, Bool, true, false, not, ◌&&◌, ◌||◌, Option, none, some, ◌==◌, ltb, leb, [], ◌∷◌, ◌++◌,
  find, any, filter, count, update_if,
}
use legaltech_contract_autom.Common.Texts.{all_chars, char_count}
use legaltech_contract_autom.Db.Models.{User, Session}
use legaltech_contract_autom.Db.Session.{Db, DbError, statement, Written, constrained}

abbrev pub is_hex : Char → Bool
is_hex ch = let c = code ch in leb b'0' c && leb c b'9' || leb b'a' c && leb c b'f'

-- sessions_token_hash_shape: ^[0-9a-f]{64}$
unfoldable pub token_hash_shape : String → Bool
token_hash_shape h = char_count h == 64 && all_chars is_hex h

unfoldable pub insert_session :
    (user_id : ℕ) (token_hash : String) (expires_at : ℕ) → Db DbError (Written Session)
unfolding token_hash_shape
insert_session user_id token_hash expires_at = statement λ now fresh db.
    let s : Session = record {
      id = fresh;
      user_id = user_id;
      token_hash = token_hash;
      expires_at = expires_at;
      created_at = now;
      revoked_at = none;
      last_used_at = now;
    } in
    constrained (not (token_hash_shape token_hash && ltb now expires_at))
      (any (λ (x : Session). str_eq x.token_hash token_hash || x.id == fresh) db.sessions)
      (not (any (λ (u : User). u.id == user_id) db.users)) db
      (s, record db { sessions = db.sessions ++ s ∷ [] })

abbrev pub is_none : Option ℕ → Bool
is_none none = true
is_none (some t) = false

-- Neither revoked nor expired.
abbrev pub is_live : ℕ → Session → Bool
is_live now s = is_none s.revoked_at && ltb now s.expires_at

unfoldable pub find_active_session_by_token_hash : String → Db DbError (Option Session)
find_active_session_by_token_hash token_hash =
    statement
      λ now fresh db. (find (λ s. str_eq s.token_hash token_hash && is_live now s) db.sessions, db)

unfoldable pub touch_session : ℕ → Db DbError (Unit {0})
touch_session session_id = statement λ now fresh db. (
  tt,
  record db {
    sessions =
        update_if (λ s. s.id == session_id) (λ s. record s { last_used_at = now }) db.sessions;
  },
)

-- WHERE id = $1 AND revoked_at IS NULL
abbrev pub is_revocable : ℕ → Session → Bool
is_revocable session_id s = s.id == session_id && is_none s.revoked_at

-- sessions_revoked_after_created refuses a revocation before the creation.
unfoldable pub revoke_session : ℕ → Db DbError (Written (Unit {0}))
revoke_session session_id = statement λ now fresh db.
    constrained (any (λ s. is_revocable session_id s && ltb now s.created_at) db.sessions) false
      false db
      (
        tt,
        record db {
          sessions =
              update_if (is_revocable session_id) (λ s. record s { revoked_at = some now })
                db.sessions;
        },
      )

-- WHERE expires_at <= NOW() OR (revoked_at IS NOT NULL AND revoked_at <= $1)
abbrev pub is_stale : (now cutoff : ℕ) → Session → Bool
is_stale now cutoff s =
    leb s.expires_at now || elim s.revoked_at [ none ↦ false | some t ↦ leb t cutoff ]

unfoldable pub delete_stale_sessions : (cutoff : ℕ) → Db DbError ℕ
delete_stale_sessions cutoff = statement λ now fresh db. (
  count (is_stale now cutoff) db.sessions,
  record db { sessions = filter (λ s. not (is_stale now cutoff s)) db.sessions },
)
