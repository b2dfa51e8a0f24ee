-- ===== src/Db/Session.antt =====
-- A database connection: statements, transactions, and their do notation.
-- A transaction is one step against the other connections: what they commit is seen when it begins,
-- not between its statements. A failed body or a failed commit leaves the tables as they were.
use legaltech_contract_autom.Common.{
  ℕ, suc, Bool, Option, none, some, if◌then◌else◌, Result, ok, err,
}
use legaltech_contract_autom.Db.Models.{Database}

-- sqlx::Error
pub data DbError : Type 0 where
  query_failed : DbError

-- What a writing statement meets when its row breaks a constraint (SQLSTATE 23505, or another).
pub data Written (A : Type 0) : Type 0 where
  written : A → Written A
  unique_violation other_violation : Written A

-- A write is dropped if its row breaks a CHECK, is taken, or lacks the row that it refers to.
unfoldable pub constrained :
    {A : Type 0}
    → (breaks_check taken lacks_reference : Bool) → (before : Database) → A × Database
    → Written A × Database
constrained breaks_check taken lacks_reference before (a, db) =
    if breaks_check
    then (other_violation, before)
    else if taken
    then (unique_violation, before)
    else if lacks_reference
    then (other_violation, before)
    else (written a, db)

pub record Turn : Type 0 where
  pub now : ℕ
  pub fresh : ℕ
  pub refused : Bool
  pub others : Database → Database

-- `tx` holds the start of the open transaction, at which NOW() stands still.
pub record World : Type 0 where
  pub db : Database
  pub turns : ℕ → Turn
  pub tick : ℕ
  pub tx : Option ℕ

abbrev pub Db : Type 0 → Type 0 → Type 0
Db E A = World → Result E A × World

infixl 5 ◌>>=◌ ◌>>◌
-- The rest of a block, after a part that ended in a result and a world.
abbrev pub after : {E A B : Type 0} → (A → Db E B) → Result E A × World → Result E B × World
after f (ok a, w) = f a w
after f (err e, w) = (err e, w)

abbrev pub ◌>>=◌ : {E A B : Type 0} → Db E A → (A → Db E B) → Db E B
◌>>=◌ m f w = after f (m w)

abbrev pub ◌>>◌ : {E A B : Type 0} → Db E A → Db E B → Db E B
◌>>◌ m k = m >>= λ _. k

abbrev pub pure : {E A : Type 0} → A → Db E A
pure a w = (ok a, w)

abbrev pub throw : {E A : Type 0} → E → Db E A
throw e w = (err e, w)

abbrev pub lifted : {E F A : Type 0} → (E → F) → Result E A × World → Result F A × World
lifted f (ok a, w) = (ok a, w)
lifted f (err e, w) = (err (f e), w)

-- Result::map_err
abbrev pub map_err : {E F A : Type 0} → (E → F) → Db E A → Db F A
map_err f m w = lifted f (m w)

-- `let _ = ...`: the outcome of a step is dropped, its effect stays.
abbrev pub ignore : {E F A : Type 0} → Db E A → Db F (Unit {0})
ignore m w = (ok tt, (m w).1)

-- A failure that the caller goes on with, as a value.
abbrev pub attempt : {E F A : Type 0} → Db E A → Db F (Result E A)
attempt m w = (ok (m w).0, (m w).1)

-- What the connection sees when it sends its next statement.
abbrev pub seen : World → Database
seen w = elim w.tx [ none ↦ (w.turns w.tick).others w.db | some _ ↦ w.db ]

abbrev pub clock : World → ℕ
clock w = elim w.tx [ none ↦ (w.turns w.tick).now | some start ↦ start ]

-- One SQL statement: a function of NOW(), gen_random_uuid() and the tables.
unfoldable pub statement : {A : Type 0} → (ℕ → ℕ → Database → A × Database) → Db DbError A
statement run w =
    let turn = w.turns w.tick in
    let w' = record w { db = seen w; tick = suc w.tick } in
    if turn.refused
    then (err query_failed, w')
    else (let (a, after) = run (clock w) turn.fresh (seen w) in (ok a, record w' { db = after }))

-- COMMIT after a body that succeeded; an error in the body dropped the transaction.
unfoldable pub commit :
    {E A : Type 0} → (DbError → E) → Database → Result E A × World → Result E A × World
commit lift before (err e, w) = (err e, record w { db = before; tx = none })
commit lift before (ok a, w) =
    if (w.turns w.tick).refused
    then (err (lift query_failed), record w { db = before; tx = none; tick = suc w.tick })
    else (ok a, record w { tx = none; tick = suc w.tick })

-- BEGIN, the body, COMMIT; `?` in the body drops the transaction, which rolls it back.
unfoldable pub transaction : {E A : Type 0} → (DbError → E) → Db E A → Db E A
unfolding commit
transaction lift body w =
    let turn = w.turns w.tick in
    let w' = record w { db = seen w; tick = suc w.tick } in
    let done = commit lift (seen w) (body (record w' { tx = some turn.now })) in
    if turn.refused then (err (lift query_failed), w') else done

-- The world in which a transaction's body starts.
abbrev pub start : World → World
start w = record w { db = seen w; tick = suc w.tick; tx = some (w.turns w.tick).now }
