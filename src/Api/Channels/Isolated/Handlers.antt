-- ===== src/Api/Channels/Isolated/Handlers.antt =====
-- src/api/channels.rs: no handler touches the channels of another user.
use legaltech_contract_autom.Common.{
  ℕ, String, Bool, true, find, Option, none, some, List, Result, ◌≡◌, refl, ◌∙◌, ◌==◌,
}
use legaltech_contract_autom.Errors.{not_found}
use legaltech_contract_autom.Db.Models.{Database, NotificationChannel}
use legaltech_contract_autom.Db.Session.{Db, World, ◌>>=◌}
use legaltech_contract_autom.Db.Preservation.{
  Keeps, IsGood, Keeps-statement, Keeps-bind, Keeps-map_err, Keeps-ignore, Keeps-pure,
  constrained-keep,
}
use legaltech_contract_autom.Notifications.Channel.{Notification, DeliveryError}
use legaltech_contract_autom.Notifications.Config.{
  ChannelConfig, UrlParts, channel_type, validate_config,
}
use legaltech_contract_autom.Notifications.Secrets.{Cipher, encrypt, decrypt}
use legaltech_contract_autom.Notifications.Store.{
  is_owned, insert_row, update_row, update_found, changed_row, delete_channel, record_test_result,
  find_row, insert_channel, update_channel, encrypted_config, opened,
  find_channel_with_config_for_user,
}
use legaltech_contract_autom.Reminders.Types.{ChannelType, as_str_channel}
use legaltech_contract_autom.Auth.Extractor.{AuthenticatedUser}
use legaltech_contract_autom.Api.Requests.{JsonRejection, from_json, from_path}
use legaltech_contract_autom.Api.Channels.{
  CreateChannelRequest, UpdateChannelRequest, test_error, test_response, synthetic, from_channel,
  validate_name, validated, name_of, config_of, map_insert_error, map_store_error, create, update,
  delete_one, test_channel,
}
use legaltech_contract_autom.Api.Blocks.{
  ok_or-Keeps, require-Keeps, from_result-Keeps, sent-Keeps, written_row-Keeps, from_secret-Keeps,
  from_serde-Keeps,
}
use legaltech_contract_autom.Api.Channels.Isolated.{
  OthersKept, others-concat, others-filter, others-update, owner_of, same_owner, find-passes,
  ==_refl,
}

module _ (auth : AuthenticatedUser) (rows : List NotificationChannel) where
  abbrev KeepsOthers : {E A : Type 0} → Db E A → Type 0
  KeepsOthers m = Keeps (OthersKept auth.user_id rows) m

  then :
      {E A B : Type 0} (m : Db E A) (f : A → Db E B)
      → KeepsOthers m
      → ((a : A) → KeepsOthers (f a))
      → KeepsOthers (m >>= f)
  then m f = Keeps-bind (OthersKept auth.user_id rows) m f

  insert_row-Keeps :
      (type_name name : String) (encrypted : List ℕ)
      → KeepsOthers (insert_row auth.user_id type_name name encrypted)
  unfolding insert_row
  insert_row-Keeps type_name name encrypted =
      Keeps-statement (OthersKept auth.user_id rows) _ λ now fresh db v.
        constrained-keep (OthersKept auth.user_id rows) _ _ _ db _ v λ free. record {
          kept = others-concat auth.user_id _ db.channels (==_refl auth.user_id) ∙ v.kept;
        }

  find_row-Keeps : (id : ℕ) → KeepsOthers (find_row id auth.user_id)
  unfolding find_row
  find_row-Keeps id = Keeps-statement (OthersKept auth.user_id rows) _ (λ now fresh db v. v)

  update_found-keep :
      (db : Database) (now id : ℕ) (name : Option String) (enabled : Option Bool)
      (encrypted : Option (List ℕ)) (o : Option NotificationChannel)
      → find (is_owned id auth.user_id) db.channels ≡ o
      → OthersKept auth.user_id rows db
      → OthersKept auth.user_id rows (update_found db (changed_row now name enabled encrypted) o).1
  unfolding update_found changed_row
  update_found-keep db now id name enabled encrypted none found v = v
  update_found-keep db now id name enabled encrypted (some c) found v =
      let mine : (c.user_id == auth.user_id) ≡ true =
        owner_of id auth.user_id c (find-passes (is_owned id auth.user_id) db.channels c found) in
      constrained-keep (OthersKept auth.user_id rows) _ _ _ db _ v λ free. record {
        kept =
            others-update auth.user_id (is_owned c.id c.user_id)
              (changed_row now name enabled encrypted) db.channels
              (λ x h. same_owner c.id c.user_id auth.user_id x mine h) (λ x. refl)
            ∙ v.kept;
      }

  update_row-Keeps :
      (id : ℕ) (name : Option String) (enabled : Option Bool) (encrypted : Option (List ℕ))
      → KeepsOthers (update_row id auth.user_id name enabled encrypted)
  unfolding update_row
  update_row-Keeps id name enabled encrypted =
      Keeps-statement (OthersKept auth.user_id rows) _
        λ now fresh db v. update_found-keep db now id name enabled encrypted _ refl v

  delete_channel-Keeps : (id : ℕ) → KeepsOthers (delete_channel id auth.user_id)
  unfolding delete_channel
  delete_channel-Keeps id = sent-Keeps (OthersKept auth.user_id rows) _ (
      Keeps-statement (OthersKept auth.user_id rows) _
        λ now fresh db v. record { kept = others-filter auth.user_id id db.channels ∙ v.kept })

  record_test-Keeps :
      (id : ℕ) (error : Option String) → KeepsOthers (record_test_result id auth.user_id error)
  unfolding record_test_result
  record_test-Keeps id error = sent-Keeps (OthersKept auth.user_id rows) _ (
      Keeps-statement (OthersKept auth.user_id rows) _ λ now fresh db v. record {
        kept =
            others-update auth.user_id (is_owned id auth.user_id) _ db.channels
              (λ x h. owner_of id auth.user_id x h) (λ x. refl)
            ∙ v.kept;
      })

  module _ (parse_url : String → Option UrlParts) (cipher : Cipher)
      (to_json : ChannelConfig → Option (List ℕ)) (from_bytes : List ℕ → Option ChannelConfig)
      (dispatch : ChannelConfig → Notification → Result DeliveryError (Unit {0})) where
    insert_channel-Keeps :
        (nonce : List ℕ) (type : ChannelType) (name : String) (config : ChannelConfig)
        → KeepsOthers (insert_channel cipher to_json from_bytes nonce auth.user_id type name config)
    unfolding insert_channel
    insert_channel-Keeps nonce type name config =
        then _ _ (from_serde-Keeps (OthersKept auth.user_id rows) (to_json config)) λ json.
          then _ _ (from_secret-Keeps (OthersKept auth.user_id rows) (encrypt cipher nonce json))
            λ bytes.
              then _ _
                (sent-Keeps (OthersKept auth.user_id rows) _
                  (insert_row-Keeps (as_str_channel type) name bytes))
                λ row. written_row-Keeps (OthersKept auth.user_id rows) row

    create-Keeps :
        (nonce : List ℕ) (payload : Result JsonRejection CreateChannelRequest)
        → KeepsOthers (create parse_url cipher to_json from_bytes nonce auth payload)
    unfolding create
    create-Keeps nonce payload =
        then _ _ (from_result-Keeps (OthersKept auth.user_id rows) (from_json payload)) λ req.
          then _ _ (from_result-Keeps (OthersKept auth.user_id rows) (validate_name req.name))
            λ name.
              then _ _
                (from_result-Keeps (OthersKept auth.user_id rows)
                  (validated (validate_config parse_url req.config)))
                λ _.
                  then _ _
                    (Keeps-map_err (OthersKept auth.user_id rows) map_insert_error _
                      (insert_channel-Keeps nonce (channel_type req.config) name req.config))
                    λ channel. Keeps-pure (OthersKept auth.user_id rows) (from_channel channel)

    encrypted_config-Keeps :
        (nonce : List ℕ) (config : Option ChannelConfig)
        → KeepsOthers (encrypted_config cipher to_json from_bytes nonce config)
    unfolding encrypted_config
    encrypted_config-Keeps nonce none = Keeps-pure (OthersKept auth.user_id rows) none
    encrypted_config-Keeps nonce (some config) =
        then _ _ (from_serde-Keeps (OthersKept auth.user_id rows) (to_json config)) λ json.
          then _ _ (from_secret-Keeps (OthersKept auth.user_id rows) (encrypt cipher nonce json))
            λ bytes. Keeps-pure (OthersKept auth.user_id rows) (some bytes)

    update_channel-Keeps :
        (nonce : List ℕ) (id : ℕ) (name : Option String) (enabled : Option Bool)
        (config : Option ChannelConfig)
        → KeepsOthers
            (update_channel cipher to_json from_bytes nonce id auth.user_id name enabled config)
    unfolding update_channel
    update_channel-Keeps nonce id name enabled config =
        then _ _ (encrypted_config-Keeps nonce config) λ encrypted.
          then _ _
            (sent-Keeps (OthersKept auth.user_id rows) _
              (update_row-Keeps id name enabled encrypted))
            λ row. written_row-Keeps (OthersKept auth.user_id rows) row

    update-Keeps :
        (nonce : List ℕ) (path : Option ℕ) (payload : Result JsonRejection UpdateChannelRequest)
        → KeepsOthers (update parse_url cipher to_json from_bytes nonce auth path payload)
    unfolding update
    update-Keeps nonce path payload =
        then _ _ (from_result-Keeps (OthersKept auth.user_id rows) (from_path path)) λ id.
          then _ _ (from_result-Keeps (OthersKept auth.user_id rows) (from_json payload)) λ req.
            then _ _ (from_result-Keeps (OthersKept auth.user_id rows) (name_of req.name)) λ name.
              then _ _
                (from_result-Keeps (OthersKept auth.user_id rows)
                  (config_of parse_url cipher to_json from_bytes req.config))
                λ _.
                  then _ _
                    (Keeps-map_err (OthersKept auth.user_id rows) map_store_error _
                      (update_channel-Keeps nonce id name req.enabled req.config))
                    λ changed.
                      then _ _
                        (ok_or-Keeps (OthersKept auth.user_id rows) (not_found "channel") changed)
                        λ updated. Keeps-pure (OthersKept auth.user_id rows) (from_channel updated)

    delete_one-Keeps :
        (path : Option ℕ) → KeepsOthers (delete_one parse_url cipher to_json from_bytes auth path)
    unfolding delete_one
    delete_one-Keeps path =
        then _ _ (from_result-Keeps (OthersKept auth.user_id rows) (from_path path)) λ id.
          then _ _
            (Keeps-map_err (OthersKept auth.user_id rows) map_store_error _
              (delete_channel-Keeps id))
            λ removed. require-Keeps (OthersKept auth.user_id rows) removed (not_found "channel")

    opened-Keeps :
        (o : Option NotificationChannel) → KeepsOthers (opened cipher to_json from_bytes o)
    unfolding opened
    opened-Keeps none = Keeps-pure (OthersKept auth.user_id rows) none
    opened-Keeps (some c) =
        then _ _
          (from_secret-Keeps (OthersKept auth.user_id rows) (decrypt cipher c.encrypted_config))
          λ bytes.
            then _ _ (from_serde-Keeps (OthersKept auth.user_id rows) (from_bytes bytes))
              λ config. Keeps-pure (OthersKept auth.user_id rows) (some (c, config))

    test_channel-Keeps :
        (reminder_id contract_id : ℕ) (path : Option ℕ)
        → KeepsOthers (
            test_channel parse_url cipher to_json from_bytes dispatch reminder_id contract_id auth
              path)
    unfolding test_channel find_channel_with_config_for_user
    test_channel-Keeps reminder_id contract_id path =
        then _ _ (from_result-Keeps (OthersKept auth.user_id rows) (from_path path)) λ id.
          then _ _
            (Keeps-map_err (OthersKept auth.user_id rows) map_store_error _ (
              then _ _ (sent-Keeps (OthersKept auth.user_id rows) _ (find_row-Keeps id))
                λ row. opened-Keeps row))
            λ found.
              then _ _ (ok_or-Keeps (OthersKept auth.user_id rows) (not_found "channel") found)
                λ row. then _ _ (require-Keeps (OthersKept auth.user_id rows) row.0.enabled _) λ _.
                  then _ _
                    (Keeps-ignore (OthersKept auth.user_id rows) _ (
                      record_test-Keeps id
                        (test_error (dispatch row.1 (synthetic reminder_id contract_id row.1)))))
                    λ _.
                      Keeps-pure (OthersKept auth.user_id rows)
                        (test_response (dispatch row.1 (synthetic reminder_id contract_id row.1)))

    -- Whatever a user asks for, with whatever failures of the database, the cipher and the provider:
    -- creating, changing, deleting and testing a channel leave the channels of all other users as they
    -- are and in their order, whatever id the path names, as long as the other connections do not touch
    -- those meanwhile.
    pub handlers-KeepOthers :
        (nonce : List ℕ) (path : Option ℕ) (creation : Result JsonRejection CreateChannelRequest)
        (change : Result JsonRejection UpdateChannelRequest) (reminder_id contract_id : ℕ)
        (w : World)
        → IsGood (OthersKept auth.user_id rows) w
        → OthersKept auth.user_id rows
            (create parse_url cipher to_json from_bytes nonce auth creation w).1.db
          × OthersKept auth.user_id rows
              (update parse_url cipher to_json from_bytes nonce auth path change w).1.db
          × OthersKept auth.user_id rows
              (delete_one parse_url cipher to_json from_bytes auth path w).1.db
          × OthersKept auth.user_id rows
              (test_channel parse_url cipher to_json from_bytes dispatch reminder_id contract_id
                auth path w).1.db
    handlers-KeepOthers nonce path creation change reminder_id contract_id w good = (
      ((create-Keeps nonce creation).keeps w good).holds,
      ((update-Keeps nonce path change).keeps w good).holds,
      ((delete_one-Keeps path).keeps w good).holds,
      ((test_channel-Keeps reminder_id contract_id path).keeps w good).holds,
    )
