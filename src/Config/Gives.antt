-- ===== src/Config/Gives.antt =====
-- src/config/mod.rs: what a reader of variables gives, when it gives a value.
use legaltech_contract_autom.Common.{
  ℕ, String, Bool, true, ltb, ◌≡◌, refl, Result, ok, err, ◌>>=◌, Bool-cases, inl, inr,
}
use mathlib.Core.Path.{subst}
use legaltech_contract_autom.Config.Parse.{ConfigError, Lookup, ensure, parse_u32, parse_u64}
use legaltech_contract_autom.Config.Server.{u32_within}
use legaltech_contract_autom.Config.Worker.{u64_positive}

-- What a reader gives, when it gives a value.
pub record Gives {A : Type 0} (P : A → Type 0) (r : Result ConfigError A) : Type 0 where
  pub gives : (a : A) → r ≡ ok a → P a

pub Gives-bind :
    {A B : Type 0} (Q : A → Type 0) {P : B → Type 0} (m : Result ConfigError A)
    (f : A → Result ConfigError B)
    → Gives Q m
    → ((a : A) → Q a → Gives P (f a))
    → Gives P (m >>= f)
Gives-bind Q (ok a) f first rest = rest a (first.gives a refl)
Gives-bind Q (err e) f first rest = record { gives = λ b h. absurd (cc) }

pub Gives-ok : {A : Type 0} {P : A → Type 0} (a : A) → P a → Gives P (ok a)
Gives-ok {A} {P} a p = record { gives = λ b e. let same : a ≡ b = cc in subst P (same) p }

pub Gives-any : {A : Type 0} (r : Result ConfigError A) → Gives (λ a. Unit {0}) r
Gives-any r = record { gives = λ a e. tt }

-- What an early return has ruled out is false of the value.
pub Gives-ensure :
    {A : Type 0} (test : A → Bool) (name reason : String) (a : A)
    → Gives (λ b. test b ≡ true) (ensure (test a) name reason a)
Gives-ensure test name reason a = elim (Bool-cases (test a)) [
  | inl e ↦ record {
    gives =
        λ b h. let h' = rw e at h in let same : a ≡ b = cc in subst (λ x. test x ≡ true) (same) e;
  }
  | inr e ↦ record { gives = λ b h. let h' = rw e at h in absurd (cc) }
]

pub Gives-u32_within :
    (test : ℕ → Bool) (reason : String) (lookup : Lookup) (name : String) (default : ℕ)
    → Gives (λ n. test n ≡ true) (u32_within test reason lookup name default)
unfolding u32_within
Gives-u32_within test reason lookup name default =
    Gives-bind (λ n. Unit {0}) _ _ (Gives-any (parse_u32 lookup name default))
      λ n _. Gives-ensure test name reason n

pub Gives-u64_positive :
    (lookup : Lookup) (name : String) (default : ℕ)
    → Gives (λ n. ltb 0 n ≡ true) (u64_positive lookup name default)
unfolding u64_positive
Gives-u64_positive lookup name default =
    Gives-bind (λ n. Unit {0}) _ _ (Gives-any (parse_u64 lookup name default))
      λ n _. Gives-ensure (ltb 0) name "must be greater than 0" n
