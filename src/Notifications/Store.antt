-- ===== src/Notifications/Store.antt =====
-- src/notifications/store.rs: the statements on `notification_channels`, with the constraints of the
-- schema. `to_json` and `from_json` are serde_json's. A row comes with its encrypted configuration.
use text.Mathlib.Text.{◌==◌ as str_eq}
use Prim.Native.Char.{code}
use legaltech_contract_autom.Common.{
  ℕ, String, Bool, true, false, not, ◌&&◌, ◌||◌, Option, none, some, ◌==◌, leb, List, [], ◌∷◌, ◌++◌,
  find, any, filter, count, length, take, drop, sort_by, update_if, Result, ok, err,
}
use legaltech_contract_autom.Common.Texts.{any_char, char_count}
use legaltech_contract_autom.Reminders.Types.{ChannelType, as_str_channel}
use legaltech_contract_autom.Db.Models.{NotificationChannel, User, Database}
use legaltech_contract_autom.Db.Session.{
  Db, DbError, Written, written, unique_violation, other_violation, constrained, statement, pure,
  throw, map_err, ◌>>=◌,
}
use legaltech_contract_autom.Notifications.Config.{ChannelConfig}
use legaltech_contract_autom.Notifications.Secrets.{Cipher, SecretError, encrypt, decrypt}

-- A duplicate key is told apart from other database errors.
pub data StoreError : Type 0 where
  store_database store_duplicate : StoreError
  store_secret : SecretError → StoreError
  store_config_json : StoreError

abbrev pub sent : {A : Type 0} → Db DbError A → Db StoreError A
sent m = map_err (λ e. store_database) m

abbrev pub written_row : {A : Type 0} → Written A → Db StoreError A
written_row (written a) = pure a
written_row unique_violation = throw store_duplicate
written_row other_violation = throw store_database

abbrev pub from_secret : {A : Type 0} → Result SecretError A → Db StoreError A
from_secret (ok a) = pure a
from_secret (err e) = throw (store_secret e)

abbrev pub from_serde : {A : Type 0} → Option A → Db StoreError A
from_serde (some a) = pure a
from_serde none = throw store_config_json

-- WHERE id = $1 AND user_id = $2
abbrev pub is_owned : (id user_id : ℕ) → NotificationChannel → Bool
is_owned id user_id c = c.id == id && c.user_id == user_id

-- The CHECK constraints on a row.
unfoldable pub channel_checks : NotificationChannel → Bool
channel_checks c =
    any_char (λ ch. not (code ch == 32)) c.name
    && leb (char_count c.name) 100
    && not (length c.encrypted_config == 0)

-- idx_channels_user_type_enabled: another enabled row of the user and the type.
abbrev pub clashes : NotificationChannel → NotificationChannel → Bool
clashes c x =
    c.enabled && x.enabled && x.user_id == c.user_id && str_eq x.channel_type c.channel_type

unfoldable pub insert_row :
    (user_id : ℕ) (channel_type name : String) (encrypted : List ℕ)
    → Db DbError (Written NotificationChannel)
insert_row user_id channel_type name encrypted = statement λ now fresh db.
    let c : NotificationChannel = record {
      id = fresh;
      user_id = user_id;
      channel_type = channel_type;
      name = name;
      enabled = true;
      created_at = now;
      updated_at = now;
      last_tested_at = none;
      last_test_error = none;
      encrypted_config = encrypted;
    } in
    constrained (not (channel_checks c)) (any (λ x. clashes c x || x.id == fresh) db.channels)
      (not (any (λ (u : User). u.id == user_id) db.users)) db
      (c, record db { channels = db.channels ++ c ∷ [] })

unfoldable pub find_row : (id user_id : ℕ) → Db DbError (Option NotificationChannel)
find_row id user_id = statement λ now fresh db. (find (is_owned id user_id) db.channels, db)

unfoldable pub find_channel_for_user : (id user_id : ℕ) → Db StoreError (Option NotificationChannel)
unfolding find_row
find_channel_for_user id user_id = sent (find_row id user_id)

-- ORDER BY created_at DESC
abbrev pub newer : NotificationChannel → NotificationChannel → Bool
newer a b = leb b.created_at a.created_at

unfoldable pub list_channels_for_user :
    (user_id limit offset : ℕ) → Db StoreError (List NotificationChannel)
list_channels_for_user user_id limit offset = sent (
    statement λ now fresh db. (
      take limit (drop offset (sort_by newer (filter (λ c. c.user_id == user_id) db.channels))),
      db,
    ))

unfoldable pub count_channels_for_user : (user_id : ℕ) → Db StoreError ℕ
count_channels_for_user user_id =
    sent (statement λ now fresh db. (count (λ c. c.user_id == user_id) db.channels, db))

abbrev pub coalesce : {A : Type 0} → Option A → A → A
coalesce none a = a
coalesce (some b) a = b

unfoldable pub changed_row :
    (now : ℕ)
    → Option String
    → Option Bool
    → Option (List ℕ)
    → NotificationChannel
    → NotificationChannel
changed_row now name enabled encrypted c = record c {
  name = coalesce name c.name;
  enabled = coalesce enabled c.enabled;
  encrypted_config = coalesce encrypted c.encrypted_config;
  updated_at = now;
}

-- The row that the update meets, and whether its new form breaks a constraint.
unfoldable pub update_found :
    Database
    → (NotificationChannel → NotificationChannel)
    → Option NotificationChannel
    → Written (Option NotificationChannel) × Database
unfolding channel_checks
update_found db change none = (written none, db)
update_found db change (some c) =
    constrained (not (channel_checks (change c)))
      (any (λ x. clashes (change c) x && not (x.id == c.id)) db.channels) false db
      (
        some (change c),
        record db { channels = update_if (is_owned c.id c.user_id) change db.channels },
      )

unfoldable pub update_row :
    (id user_id : ℕ)
    → Option String
    → Option Bool
    → Option (List ℕ)
    → Db DbError (Written (Option NotificationChannel))
unfolding changed_row update_found
update_row id user_id name enabled encrypted = statement λ now fresh db.
    update_found db (changed_row now name enabled encrypted)
      (find (is_owned id user_id) db.channels)

unfoldable pub delete_channel : (id user_id : ℕ) → Db StoreError Bool
delete_channel id user_id = sent (
    statement λ now fresh db. (
      any (is_owned id user_id) db.channels,
      record db { channels = filter (λ c. not (is_owned id user_id c)) db.channels },
    ))

unfoldable pub record_test_result : (id user_id : ℕ) → Option String → Db StoreError (Unit {0})
record_test_result id user_id error = sent (
    statement λ now fresh db. (
      tt,
      record db {
        channels =
            update_if (is_owned id user_id)
              (λ c. record c {
                last_tested_at = some now;
                last_test_error = error;
                updated_at = now;
              })
              db.channels;
      },
    ))

module _ (cipher : Cipher) (to_json : ChannelConfig → Option (List ℕ))
    (from_json : List ℕ → Option ChannelConfig) where
  unfoldable pub insert_channel :
      (nonce : List ℕ) (user_id : ℕ)
      → ChannelType
      → (name : String) → ChannelConfig
      → Db StoreError NotificationChannel
  unfolding encrypt insert_row
  insert_channel nonce user_id channel_type name config = do
    json ← from_serde (to_json config)
    encrypted ← from_secret (encrypt cipher nonce json)
    row ← sent (insert_row user_id (as_str_channel channel_type) name encrypted)
    written_row row

  -- The decryption of the row that was found.
  unfoldable pub opened :
      Option NotificationChannel → Db StoreError (Option (NotificationChannel × ChannelConfig))
  unfolding decrypt
  opened none = pure none
  opened (some c) = do
    decrypted ← from_secret (decrypt cipher c.encrypted_config)
    config ← from_serde (from_json decrypted)
    pure (some (c, config))

  unfoldable pub find_channel_with_config_for_user :
      (id user_id : ℕ) → Db StoreError (Option (NotificationChannel × ChannelConfig))
  unfolding find_row opened
  find_channel_with_config_for_user id user_id = do row ← sent (find_row id user_id); opened row

  unfoldable pub encrypted_config :
      (nonce : List ℕ) → Option ChannelConfig → Db StoreError (Option (List ℕ))
  unfolding encrypt
  encrypted_config nonce none = pure none
  encrypted_config nonce (some config) = do
    json ← from_serde (to_json config)
    bytes ← from_secret (encrypt cipher nonce json)
    pure (some bytes)

  unfoldable pub update_channel :
      (nonce : List ℕ) (id user_id : ℕ)
      → Option String
      → Option Bool
      → Option ChannelConfig
      → Db StoreError (Option NotificationChannel)
  unfolding encrypted_config update_row
  update_channel nonce id user_id name enabled config = do
    encrypted ← encrypted_config nonce config
    row ← sent (update_row id user_id name enabled encrypted)
    written_row row
