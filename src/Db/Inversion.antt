-- ===== src/Db/Inversion.antt =====
-- What a do block of statements that succeeded went through.
use legaltech_contract_autom.Common.{ℕ, suc, ◌≡◌, refl, ok, err, arith, Result}
use legaltech_contract_autom.Db.Models.{Database}
use legaltech_contract_autom.Db.Session.{Db, World, clock, seen, statement, after, lifted}

-- A block that returns a value ran its first part, then the rest where that ended.
pub after-ok :
    {E A B : Type 0} (f : A → Db E B) (p : Result E A × World) {w' : World} {b : B}
    → after f p ≡ (ok b, w')
    → (a : A) × (v : World) × (p ≡ (ok a, v)) × (f a v ≡ (ok b, w'))
after-ok f (ok a, v) h = (a, v, refl, h)
after-ok f (err x, v) h = absurd (cc)

pub lifted-ok :
    {E F A : Type 0} (f : E → F) (p : Result E A × World) {w' : World} {a : A}
    → lifted f p ≡ (ok a, w')
    → p ≡ (ok a, w')
lifted-ok f (ok x, v) h = cc
lifted-ok f (err x, v) h = absurd (cc)

-- A statement that succeeds ran on the tables that it saw.
pub statement-ok :
    {A : Type 0} (run : ℕ → ℕ → Database → A × Database) (w : World) {w' : World} {a : A}
    → statement run w ≡ (ok a, w')
    → (a ≡ (run (clock w) (w.turns w.tick).fresh (seen w)).0)
      × (w'
          ≡ record w { db = (run (clock w) (w.turns w.tick).fresh (seen w)).1; tick = suc w.tick })
unfolding statement
statement-ok run w h = ground arith
