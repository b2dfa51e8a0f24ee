-- ===== src/Db/Users.antt =====
-- src/db/users.rs: the statements on the `users` table, with the constraints of the schema.
-- `is_space` is the class [:space:] of the database's regular expressions.
use Prim.Native.Char.{Char, code}
use Prim.Native.String.{[], ◌∷◌}
use text.Mathlib.Text.{◌==◌ as str_eq}
use legaltech_contract_autom.Common.{
  ℕ, String, Bool, false, not, ◌&&◌, ◌||◌, Option, none, some, ◌==◌, List, ◌++◌, find, any,
}
use legaltech_contract_autom.Common.Texts.{is_empty, all_chars, any_char, split_once}
use legaltech_contract_autom.Db.Models.{User}
use legaltech_contract_autom.Db.Session.{Db, DbError, statement, Written, constrained}

-- A dot with something behind it.
dot_before : String → Bool
dot_before [] = false
dot_before (ch ∷ s) = code ch == b'.' && not (is_empty s) || dot_before s

-- A dot with something on both sides.
inner_dot : String → Bool
unfolding dot_before
inner_dot [] = false
inner_dot (ch ∷ s) = dot_before s

module _ (is_space : Char → Bool) where
  -- The parts of users_email_shape: neither an @ nor white.
  unfoldable pub is_plain : Char → Bool
  is_plain ch = not (code ch == b'@') && not (is_space ch)

  unfoldable pub email_parts : Option (String × String) → Bool
  unfolding is_plain inner_dot
  email_parts none = false
  email_parts (some (name, domain)) =
      not (is_empty name)
      && all_chars is_plain name
      && all_chars is_plain domain
      && inner_dot domain

  -- users_email_shape: ^[^@[:space:]]+@[^@[:space:]]+\.[^@[:space:]]+$
  unfoldable pub email_shape : String → Bool
  unfolding email_parts
  email_shape email = email_parts (split_once b'@' email)

  -- length(btrim(full_name)) > 0
  abbrev pub is_not_blank : String → Bool
  is_not_blank s = any_char (λ ch. not (code ch == 32)) s

  -- The CHECK constraints of `users`.
  unfoldable pub user_checks : (email password_hash full_name : String) → Bool
  user_checks email password_hash full_name =
      email_shape email && not (is_empty password_hash) && is_not_blank full_name

  unfoldable pub insert_user : (email password_hash full_name : String) → Db DbError (Written User)
  unfolding user_checks
  insert_user email password_hash full_name = statement λ now fresh db.
      let u : User = record {
        id = fresh;
        email = email;
        password_hash = password_hash;
        full_name = full_name;
        created_at = now;
        updated_at = now;
      } in
      constrained (not (user_checks email password_hash full_name))
        (any (λ (x : User). str_eq x.email email || x.id == fresh) db.users) false db
        (u, record db { users = db.users ++ List.◌∷◌ u List.[] })

unfoldable pub find_user_by_email : String → Db DbError (Option User)
find_user_by_email email = statement λ now fresh db. (find (λ u. str_eq u.email email) db.users, db)

unfoldable pub find_user_by_id : ℕ → Db DbError (Option User)
find_user_by_id id = statement λ now fresh db. (find (λ u. u.id == id) db.users, db)
