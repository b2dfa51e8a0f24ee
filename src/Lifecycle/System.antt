-- ===== src/Lifecycle/System.antt =====
-- The operations of the backend that write to `reminders` or `contracts`, in any order: the handlers
-- behind src/api/ and the worker of src/worker/poller.rs.
use Prim.Native.Char.{Char}
use legaltech_contract_autom.Common.{ℕ, ℤ, String, Bool, Option, List, [], ◌∷◌, Result}
use legaltech_contract_autom.Db.Models.{Database}
use legaltech_contract_autom.Db.Session.{Db, DbError, World, pure, ignore, ◌>>◌}
use legaltech_contract_autom.Db.Preservation.{Keeps-pure, Keeps-ignore}
use legaltech_contract_autom.Reminders.Types.{ChannelType}
use legaltech_contract_autom.Reminders.Service.{regenerate_system_reminders, create_custom, cancel}
use legaltech_contract_autom.Notifications.Channel.{Notification, DeliveryError}
use legaltech_contract_autom.Notifications.Config.{ChannelConfig}
use legaltech_contract_autom.Ai.Provider.{AiProvider}
use legaltech_contract_autom.Services.Contracts.{create, update, delete}
use legaltech_contract_autom.Services.Analysis.{analyze_contract}
use legaltech_contract_autom.Worker.Poller.{tick}
use legaltech_contract_autom.Lifecycle.{IsValid}
use legaltech_contract_autom.Lifecycle.Reminders.{KeepsValid}
use legaltech_contract_autom.Lifecycle.Service.{
  Keeps-then, regenerate-Keeps, create_custom-Keeps, cancel-Keeps, create-Keeps, update-Keeps,
  delete-Keeps,
}
use legaltech_contract_autom.Lifecycle.Analysis.{analyze_contract-Keeps}
use legaltech_contract_autom.Lifecycle.Delivery.{tick-Keeps}

pub data Operation : Type 0 where
  create_contract : (user_id : ℕ) (title raw_text : String) → Operation
  edit_contract : (user_id contract_id : ℕ) (title raw_text : Option String) → Operation
  delete_contract : (user_id contract_id : ℕ) → Operation
  analyze : (provider : AiProvider) (max_input max_retries user_id contract_id : ℕ) → Operation
  regenerate : (today user_id contract_id : ℕ) → Operation
  create_reminder :
      (user_id contract_id : ℕ) (obligation_id : Option ℕ) (date : ℕ) (channel : ChannelType)
      → Operation
  cancel_reminder : (user_id reminder_id : ℕ) → Operation
  work :
      (worker_id : String) (claim_timeout batch_size max_retries : ℕ) (locked : ℕ → Bool)
      (early late : ℕ)
      → Operation

module _ (parse_date : String → Option ℕ) (is_alphanumeric : Char → Bool)
    (to_lowercase : Char → String) (duration_seconds : ℤ → Option ℤ)
    (decrypt : List ℕ → Option (List ℕ)) (decode : List ℕ → Option ChannelConfig)
    (deliver : ChannelConfig → Notification → Result DeliveryError (Unit {0})) where
  -- One operation, whatever it answers.
  unfoldable pub perform : Operation → Db DbError (Unit {0})
  perform (create_contract user_id title raw_text) = ignore (create user_id title raw_text)
  perform (edit_contract user_id contract_id title raw_text) =
      ignore (update user_id contract_id title raw_text)
  perform (delete_contract user_id contract_id) = ignore (delete user_id contract_id)
  perform (analyze provider max_input max_retries user_id contract_id) = ignore (
      analyze_contract parse_date is_alphanumeric to_lowercase provider max_input max_retries
        user_id contract_id)
  perform (regenerate today user_id contract_id) =
      ignore (regenerate_system_reminders today user_id contract_id)
  perform (create_reminder user_id contract_id obligation_id date channel) =
      ignore (create_custom user_id contract_id obligation_id date channel)
  perform (cancel_reminder user_id reminder_id) = ignore (cancel user_id reminder_id)
  perform (work worker_id claim_timeout batch_size max_retries locked early late) = ignore (
      tick duration_seconds decrypt decode deliver worker_id claim_timeout batch_size max_retries
        locked early late)

  unfoldable pub perform_all : List Operation → Db DbError (Unit {0})
  unfolding perform
  perform_all [] = pure tt
  perform_all (o ∷ os) = do perform o; perform_all os

  perform-Keeps : (o : Operation) → KeepsValid (perform o)
  unfolding perform
  perform-Keeps (create_contract user_id title raw_text) =
      Keeps-ignore IsValid _ (create-Keeps user_id title raw_text)
  perform-Keeps (edit_contract user_id contract_id title raw_text) =
      Keeps-ignore IsValid _ (update-Keeps user_id contract_id title raw_text)
  perform-Keeps (delete_contract user_id contract_id) =
      Keeps-ignore IsValid _ (delete-Keeps user_id contract_id)
  perform-Keeps (analyze provider max_input max_retries user_id contract_id) =
      Keeps-ignore IsValid _ (
        analyze_contract-Keeps parse_date is_alphanumeric to_lowercase provider max_input
          max_retries user_id contract_id)
  perform-Keeps (regenerate today user_id contract_id) =
      Keeps-ignore IsValid _ (regenerate-Keeps today user_id contract_id)
  perform-Keeps (create_reminder user_id contract_id obligation_id date channel) =
      Keeps-ignore IsValid _ (create_custom-Keeps user_id contract_id obligation_id date channel)
  perform-Keeps (cancel_reminder user_id reminder_id) =
      Keeps-ignore IsValid _ (cancel-Keeps user_id reminder_id)
  perform-Keeps (work worker_id claim_timeout batch_size max_retries locked early late) =
      Keeps-ignore IsValid _ (
        tick-Keeps duration_seconds decrypt decode deliver worker_id claim_timeout batch_size
          max_retries locked early late)

  perform_all-Keeps : (os : List Operation) → KeepsValid (perform_all os)
  unfolding perform_all
  perform_all-Keeps [] = Keeps-pure IsValid tt
  perform_all-Keeps (o ∷ os) = Keeps-then _ _ (perform-Keeps o) λ _. perform_all-Keeps os

  -- Whatever operations run, in whatever order, with whatever faults of the database, the provider
  -- and the channels: if the tables are valid and each step of the other connections keeps them
  -- valid, then they are valid afterwards.
  pub perform_all-IsValid :
      (os : List Operation) (w : World)
      → IsValid w.db
      → ((k : ℕ) (db : Database) → IsValid db → IsValid ((w.turns k).others db))
      → IsValid (perform_all os w).1.db
  perform_all-IsValid os w now rely =
      ((perform_all-Keeps os).keeps w (record { holds = now; rely = rely })).holds
