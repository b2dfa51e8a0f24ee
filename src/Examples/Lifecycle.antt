-- ===== src/Examples/Lifecycle.antt =====
-- The invariant of the tables at a concrete run.
use legaltech_contract_autom.Common.{true, false, List, [], ◌∷◌, none, some, ok, refl, arith}
use legaltech_contract_autom.Lifecycle.{IsValid}
use legaltech_contract_autom.Lifecycle.System.{
  perform_all, perform_all-IsValid, Operation, regenerate, cancel_reminder, work,
}
use legaltech_contract_autom.Examples.Data.{quiet, small}

abbrev operations : List Operation
operations = work "w2" 300 10 3 (λ id. false) 0 0 ∷ regenerate 10 2 1 ∷ cancel_reminder 2 7 ∷ []

small-IsValid : IsValid small
small-IsValid = record {
  reminders = (
    record { claim_time = refl; claim_holder = refl; sent_time = refl; failure = refl },
    (record { claim_time = refl; claim_holder = refl; sent_time = refl; failure = refl }, tt),
  );
  contracts = (record { positive = omega arith; past = refl; current = refl }, tt);
}

perform_all-IsValid_example :
    IsValid
      (perform_all
        (λ s. none)
        (λ c. true)
        (λ c. "")
        some
        (λ bytes. none)
        (λ bytes. none)
        (λ c n. ok tt)
        operations
        (quiet small)).1.db
perform_all-IsValid_example =
    perform_all-IsValid (λ s. none) (λ c. true) (λ c. "") some (λ bytes. none) (λ bytes. none)
      (λ c n. ok tt) operations (quiet small) small-IsValid (λ k db v. v)
