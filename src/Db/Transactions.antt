-- ===== src/Db/Transactions.antt =====
-- What a transaction of src/db/ and its callers leaves behind.
use legaltech_contract_autom.Common.{
  ◌≡◌, refl, ok, err, arith, Result, inl, inr, Bool-cases, suc, none,
}
use legaltech_contract_autom.Db.Session.{Db, DbError, World, seen, start, commit, transaction}

module _ {E A : Type 0} (lift : DbError → E) (body : Db E A) (w : World) {w' : World} where
  -- A transaction that returns a value ran its body to the end, and the tables are the body's.
  pub transaction-ok :
      {a : A}
      → transaction lift body w ≡ (ok a, w')
      → (v : World) × (body (start w) ≡ (ok a, v))
        × (w' ≡ record v { tx = none; tick = suc v.tick })
  unfolding transaction
  transaction-ok {a} h = go (body (start w)) refl (ground arith)
    where
      go :
          (p : Result E A × World)
          → body (start w) ≡ p
          → commit lift (seen w) p ≡ (ok a, w')
          → (v : World) × (body (start w) ≡ (ok a, v))
            × (w' ≡ record v { tx = none; tick = suc v.tick })
      go (ok x, v) e k = (v, ground arith, ground arith)
      go (err x, v) e k = absurd (cc)

  -- A transaction that returns an error leaves the tables as it found them.
  pub transaction-err : {e : E} → transaction lift body w ≡ (err e, w') → w'.db ≡ seen w
  unfolding transaction
  transaction-err {e} h = elim (Bool-cases (w.turns w.tick).refused) [
    | inl bad ↦ ground arith
    | inr good ↦ go (body (start w)) (ground arith)
  ]
    where
      go : (p : Result E A × World) → commit lift (seen w) p ≡ (err e, w') → w'.db ≡ seen w
      go (ok x, v) k = ground arith
      go (err x, v) k = ground arith
