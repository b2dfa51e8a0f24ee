-- ===== src/Api/Blocks.antt =====
-- src/api/: the steps of a handler that end it early or go on, and what they keep.
use legaltech_contract_autom.Common.{Bool, true, false, Option, none, some, Result, ok, err}
use legaltech_contract_autom.Errors.{AppError}
use legaltech_contract_autom.Db.Models.{Database}
use legaltech_contract_autom.Db.Session.{
  Db, DbError, Written, written, unique_violation, other_violation,
}
use legaltech_contract_autom.Db.Preservation.{Keeps, Keeps-pure, Keeps-throw, Keeps-map_err}
use legaltech_contract_autom.Notifications.Secrets.{SecretError}
use legaltech_contract_autom.Notifications.Store.{
  store_database, written_row, from_secret, from_serde, sent,
}
use legaltech_contract_autom.Reminders.Service.{ok_or, require}
use legaltech_contract_autom.Auth.Handlers.{from_result}

module _ (P : Database → Type 0) where
  pub ok_or-Keeps : {A : Type 0} (e : AppError) (o : Option A) → Keeps P (ok_or e o)
  ok_or-Keeps e none = Keeps-throw P e
  ok_or-Keeps e (some a) = Keeps-pure P a

  pub require-Keeps : (b : Bool) (e : AppError) → Keeps P (require b e)
  require-Keeps true e = Keeps-pure P tt
  require-Keeps false e = Keeps-throw P e

  pub from_result-Keeps : {A : Type 0} (r : Result AppError A) → Keeps P (from_result r)
  from_result-Keeps (err e) = Keeps-throw P e
  from_result-Keeps (ok a) = Keeps-pure P a

  pub sent-Keeps : {A : Type 0} (m : Db DbError A) → Keeps P m → Keeps P (sent m)
  sent-Keeps m = Keeps-map_err P (λ e. store_database) m

  pub written_row-Keeps : {A : Type 0} (r : Written A) → Keeps P (written_row r)
  written_row-Keeps (written a) = Keeps-pure P a
  written_row-Keeps unique_violation = Keeps-throw P _
  written_row-Keeps other_violation = Keeps-throw P _

  pub from_secret-Keeps : {A : Type 0} (r : Result SecretError A) → Keeps P (from_secret r)
  from_secret-Keeps (ok a) = Keeps-pure P a
  from_secret-Keeps (err e) = Keeps-throw P _

  pub from_serde-Keeps : {A : Type 0} (o : Option A) → Keeps P (from_serde o)
  from_serde-Keeps (some a) = Keeps-pure P a
  from_serde-Keeps none = Keeps-throw P _
