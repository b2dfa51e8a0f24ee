-- ===== src/Auth/Requests/Accounts.antt =====
-- src/auth/ and src/db/users.rs: the addresses of the accounts.
use Prim.Native.Char.{Char}
use text.Mathlib.Text.{◌==◌ as str_eq}
use text.Mathlib.TextEquality.{eq_iff}
use legaltech_contract_autom.Common.{
  ℕ, String, Bool, false, ◌||◌, ◌==◌, any, Option, ◌≡◌, ◌≢◌, sym, List, [], ◌∷◌, ◌++◌, All,
  All-append, arith,
}
use legaltech_contract_autom.Db.Models.{Database, User}
use legaltech_contract_autom.Db.Session.{World}
use legaltech_contract_autom.Db.Preservation.{Keeps, Keeps-statement, constrained-keep}
use legaltech_contract_autom.Db.Users.{insert_user}
use legaltech_contract_autom.Db.Sessions.{
  insert_session, touch_session, revoke_session, delete_stale_sessions,
}
use legaltech_contract_autom.Auth.Token.{Argon2}
use legaltech_contract_autom.Auth.Validation.{normalize_email}
use legaltech_contract_autom.Auth.Requests.{
  Request, registers, logs_in, logs_out, asks, cleans, perform_all,
}
use legaltech_contract_autom.Auth.Requests.Preserved.{perform_all-Keeps, IssuesFresh}

-- No two accounts have the same address.
abbrev pub DistinctEmails : List User → Type 0
DistinctEmails [] = Unit
DistinctEmails (u ∷ us) = All (λ x. x.email ≢ u.email) us × DistinctEmails us

-- Addresses are in normal form, so addresses that differ in case or outer spaces are one account.
pub record AccountsAreValid (db : Database) : Type 0 where
  pub normal : All (λ u. normalize_email u.email ≡ u.email) db.users
  pub distinct : DistinctEmails db.users

DistinctEmails-concat :
    (u : User) (id : ℕ) (us : List User)
    → any (λ x. str_eq x.email u.email || x.id == id) us ≡ false
    → DistinctEmails us
    → DistinctEmails (us ++ u ∷ [])
DistinctEmails-concat u id [] h d = (tt, tt)
DistinctEmails-concat u id (x ∷ us) h d = (
  All-append (λ y. y.email ≢ x.email) us (u ∷ []) d.0
      ((λ same. let taken = (eq_iff x.email u.email).1 (sym same) in ground arith), tt),
  DistinctEmails-concat u id us (ground arith) d.1,
)

insert_user-Keeps :
    (is_space : Char → Bool) (email password_hash full_name : String)
    → normalize_email email ≡ email
    → Keeps AccountsAreValid (insert_user is_space email password_hash full_name)
unfolding insert_user
insert_user-Keeps is_space email password_hash full_name n =
    Keeps-statement AccountsAreValid _ λ now fresh db v.
      constrained-keep AccountsAreValid _ _ _ db _ v λ free. record {
        normal =
            All-append (λ u. normalize_email u.email ≡ u.email) db.users (_ ∷ []) v.normal (n, tt);
        distinct = DistinctEmails-concat _ fresh db.users free v.distinct;
      }

-- The statements on sessions leave the accounts alone.
insert_session-Keeps :
    (user_id : ℕ) (token_hash : String) (expires_at : ℕ)
    → Keeps AccountsAreValid (insert_session user_id token_hash expires_at)
unfolding insert_session
insert_session-Keeps user_id token_hash expires_at =
    Keeps-statement AccountsAreValid _ (λ now fresh db v.
      constrained-keep AccountsAreValid _ _ _ db _ v
        (λ free. record { normal = v.normal; distinct = v.distinct }))

touch_session-Keeps : (id : ℕ) → Keeps AccountsAreValid (touch_session id)
unfolding touch_session
touch_session-Keeps id =
    Keeps-statement AccountsAreValid _
      (λ now fresh db v. record { normal = v.normal; distinct = v.distinct })

revoke_session-Keeps : (id : ℕ) → Keeps AccountsAreValid (revoke_session id)
unfolding revoke_session
revoke_session-Keeps id = Keeps-statement AccountsAreValid _ (λ now fresh db v.
    constrained-keep AccountsAreValid _ _ _ db _ v
      (λ free. record { normal = v.normal; distinct = v.distinct }))

delete_stale-Keeps : (cutoff : ℕ) → Keeps AccountsAreValid (delete_stale_sessions cutoff)
unfolding delete_stale_sessions
delete_stale-Keeps cutoff =
    Keeps-statement AccountsAreValid _
      (λ now fresh db v. record { normal = v.normal; distinct = v.distinct })

module _ (argon2 : Argon2) (sha256_hex : String → String) (add_seconds : ℕ → ℕ → Option ℕ)
    (is_space : Char → Bool) (lifetime_seconds : ℕ) where
  every : (rs : List Request) → All (IssuesFresh sha256_hex (λ h. Unit {0})) rs
  every [] = tt
  every (registers salt raw_token now body ∷ rs) = (tt, every rs)
  every (logs_in raw_token now body ∷ rs) = (tt, every rs)
  every (logs_out header ∷ rs) = (tt, every rs)
  every (asks header ∷ rs) = (tt, every rs)
  every (cleans cutoff ∷ rs) = (tt, every rs)

  -- Whatever requests to register, log in, log out and ask who one is, and whatever cleanups, run
  -- in whatever order, with whatever faults of the database: if the accounts have distinct
  -- addresses in normal form, and each step of the other connections keeps that, then they have
  -- them afterwards.
  pub perform_all-AccountsAreValid :
      (rs : List Request) (w : World)
      → AccountsAreValid w.db
      → ((k : ℕ) (db : Database) → AccountsAreValid db → AccountsAreValid ((w.turns k).others db))
      → AccountsAreValid
          (perform_all argon2 sha256_hex add_seconds is_space lifetime_seconds rs w).1.db
  perform_all-AccountsAreValid rs w valid rely =
      ((perform_all-Keeps argon2 sha256_hex add_seconds is_space lifetime_seconds AccountsAreValid
          (λ h. Unit {0}) (insert_user-Keeps is_space) (λ u h t f. insert_session-Keeps u h t)
          touch_session-Keeps revoke_session-Keeps delete_stale-Keeps rs (every rs)).keeps
        w (record { holds = valid; rely = rely })).holds
