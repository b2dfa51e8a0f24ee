-- ===== src/Db/Preservation.antt =====
-- Properties of the tables that hold at every statement, whatever the other connections do, as long
-- as what they commit keeps them too.
use legaltech_contract_autom.Common.{
  Bool, ◌≡◌, refl, ℕ, ok, err, Result, Bool-cases, inl, inr, Option, some, none,
}
use legaltech_contract_autom.Db.Models.{Database}
use legaltech_contract_autom.Db.Session.{
  Db, DbError, World, constrained, seen, clock, statement, commit, transaction, after, lifted, pure,
  throw, map_err, ignore, attempt, ◌>>=◌, start,
}

module _ (P : Database → Type 0) where
  -- The property holds now, and each turn of the other connections keeps it.
  pub record IsGood (w : World) : Type 0 where
    pub holds : P w.db
    pub rely : (k : ℕ) (db : Database) → P db → P ((w.turns k).others db)

  -- A step keeps the property, with whatever result it ends.
  pub record Keeps {E A : Type 0} (m : Db E A) : Type 0 where
    pub keeps : (w : World) → IsGood w → IsGood (m w).1

  -- A write under constraints keeps what it keeps when it is not dropped.
  pub constrained-keep :
      {A : Type 0} (breaks_check taken lacks_reference : Bool) (before : Database)
      (done : A × Database)
      → P before
      → (taken ≡ Bool.false → P done.1)
      → P (constrained breaks_check taken lacks_reference before done).1
  unfolding constrained
  constrained-keep Bool.true taken lacks before (a, db) p q = p
  constrained-keep Bool.false Bool.true lacks before (a, db) p q = p
  constrained-keep Bool.false Bool.false Bool.true before (a, db) p q = p
  constrained-keep Bool.false Bool.false Bool.false before (a, db) p q = q refl

  pub seen-holds : (w : World) → IsGood w → P (seen w)
  seen-holds w g = go w.tx
    where
      go : (o : Option ℕ) → P (elim o [ none ↦ (w.turns w.tick).others w.db | some _ ↦ w.db ])
      go none = g.rely w.tick w.db g.holds
      go (some start) = g.holds

  pub Keeps-statement :
      {A : Type 0} (run : ℕ → ℕ → Database → A × Database)
      → ((now fresh : ℕ) (db : Database) → P db → P (run now fresh db).1)
      → Keeps (statement run)
  unfolding statement
  Keeps-statement run keep = record {
    keeps = λ w g. elim (Bool-cases (w.turns w.tick).refused) [
      | inl e ↦ rw e (record { holds = seen-holds w g; rely = g.rely })
      | inr e ↦ rw e (record {
        holds = keep (clock w) (w.turns w.tick).fresh (seen w) (seen-holds w g);
        rely = g.rely;
      })
    ];
  }

  Keeps-after :
      {E A B : Type 0} (f : A → Db E B) (p : Result E A × World)
      → ((a : A) → Keeps (f a))
      → IsGood p.1
      → IsGood (after f p).1
  Keeps-after f (ok a, w) keep g = (keep a).keeps w g
  Keeps-after f (err e, w) keep g = g

  pub Keeps-bind :
      {E A B : Type 0} (m : Db E A) (f : A → Db E B)
      → Keeps m
      → ((a : A) → Keeps (f a))
      → Keeps (m >>= f)
  Keeps-bind m f first rest = record { keeps = λ w g. Keeps-after f (m w) rest (first.keeps w g) }

  Keeps-lifted :
      {E F A : Type 0} (f : E → F) (p : Result E A × World) → IsGood p.1 → IsGood (lifted f p).1
  Keeps-lifted f (ok a, w) g = g
  Keeps-lifted f (err e, w) g = g

  pub Keeps-map_err : {E F A : Type 0} (f : E → F) (m : Db E A) → Keeps m → Keeps (map_err f m)
  Keeps-map_err f m keep = record { keeps = λ w g. Keeps-lifted f (m w) (keep.keeps w g) }

  Keeps-commit :
      {E A : Type 0} (lift : DbError → E) (before : Database) (p : Result E A × World)
      → P before
      → IsGood p.1
      → IsGood (commit lift before p).1
  unfolding commit
  Keeps-commit lift before (err e, w) b g = record { holds = b; rely = g.rely }
  Keeps-commit lift before (ok a, w) b g = elim (Bool-cases (w.turns w.tick).refused) [
    | inl e ↦ rw e (record { holds = b; rely = g.rely })
    | inr e ↦ rw e (record { holds = g.holds; rely = g.rely })
  ]

  pub Keeps-transaction :
      {E A : Type 0} (lift : DbError → E) (body : Db E A)
      → Keeps body
      → Keeps (transaction lift body)
  unfolding transaction
  Keeps-transaction lift body keep = record {
    keeps = λ w g.
        let began : IsGood (start w) = record { holds = seen-holds w g; rely = g.rely } in
        elim (Bool-cases (w.turns w.tick).refused) [
          | inl e ↦ rw e (record { holds = seen-holds w g; rely = g.rely })
          | inr e ↦ rw e (
              Keeps-commit lift (seen w) (body (start w)) (seen-holds w g)
                (keep.keeps (start w) began))
        ];
  }

  pub Keeps-pure : {E A : Type 0} (a : A) → Keeps {E = E} (pure a)
  Keeps-pure a = record { keeps = λ w g. g }

  pub Keeps-throw : {E A : Type 0} (e : E) → Keeps {A = A} (throw e)
  Keeps-throw e = record { keeps = λ w g. g }

  pub Keeps-ignore : {E F A : Type 0} (m : Db E A) → Keeps m → Keeps {E = F} (ignore m)
  Keeps-ignore m keep = record { keeps = λ w g. keep.keeps w g }

  pub Keeps-attempt : {E F A : Type 0} (m : Db E A) → Keeps m → Keeps {E = F} (attempt m)
  Keeps-attempt m keep = record { keeps = λ w g. keep.keeps w g }
