-- ===== src/Api/Channels/Isolated.antt =====
-- src/notifications/store.rs: the rows of other users, which no statement of a user touches.
pub mod Handlers
use mathlib.Core.Path.{subst}
use legaltech_contract_autom.Common.{
  ℕ, Bool, true, false, not, ◌&&◌, ◌==◌, ==_iff, find, Option, some, ◌≡◌, refl, inl, inr, List, [],
  ◌∷◌, ◌++◌, filter, update_if, Bool-cases, arith,
}
use legaltech_contract_autom.Db.Models.{Database, NotificationChannel}
use legaltech_contract_autom.Notifications.Store.{is_owned}

abbrev pub is_other : ℕ → NotificationChannel → Bool
is_other user_id c = not (c.user_id == user_id)

-- The channels of all other users are these rows, in this order.
pub record OthersKept (user_id : ℕ) (rows : List NotificationChannel) (db : Database) : Type 0 where
  pub kept : filter (is_other user_id) db.channels ≡ rows

pub ==_refl : (n : ℕ) → (n == n) ≡ true
==_refl n = (==_iff n n).1 refl

pub others-concat :
    (u : ℕ) (c : NotificationChannel) (cs : List NotificationChannel)
    → (c.user_id == u) ≡ true
    → filter (is_other u) (cs ++ c ∷ []) ≡ filter (is_other u) cs
others-concat u c [] mine = rw mine refl
others-concat u c (x ∷ cs) mine = elim (Bool-cases (x.user_id == u)) [
  | inl e ↦ rw e (others-concat u c cs mine)
  | inr e ↦ rw (e, others-concat u c cs mine) refl
]

pub owner_of :
    (id u : ℕ) (c : NotificationChannel) → is_owned id u c ≡ true → (c.user_id == u) ≡ true
owner_of id u c h = ground arith

pub same_owner :
    (id v u : ℕ) (c : NotificationChannel)
    → (v == u) ≡ true
    → is_owned id v c ≡ true
    → (c.user_id == u) ≡ true
same_owner id v u c mine h = ground arith

pub others-filter :
    (u id : ℕ) (cs : List NotificationChannel)
    → filter (is_other u) (filter (λ c. not (is_owned id u c)) cs) ≡ filter (is_other u) cs
others-filter u id [] = refl
others-filter u id (x ∷ cs) = elim (Bool-cases (is_owned id u x)) [
  | inl e ↦ rw (e, owner_of id u x e) (others-filter u id cs)
  | inr e ↦ elim (Bool-cases (x.user_id == u)) [
    | inl m ↦ rw (e, m) (others-filter u id cs)
    | inr m ↦ rw (e, m, others-filter u id cs) refl
  ]
]

pub others-update :
    (u : ℕ) (test : NotificationChannel → Bool) (change : NotificationChannel → NotificationChannel)
    (cs : List NotificationChannel)
    → ((x : NotificationChannel) → test x ≡ true → (x.user_id == u) ≡ true)
    → ((x : NotificationChannel) → (change x).user_id ≡ x.user_id)
    → filter (is_other u) (update_if test change cs) ≡ filter (is_other u) cs
others-update u test change [] mine same = refl
others-update u test change (x ∷ cs) mine same = elim (Bool-cases (test x)) [
  | inl e ↦ rw (e, same x, mine x e) (others-update u test change cs mine same)
  | inr e ↦ elim (Bool-cases (x.user_id == u)) [
    | inl m ↦ rw (e, m) (others-update u test change cs mine same)
    | inr m ↦ rw (e, m, others-update u test change cs mine same) refl
  ]
]

pub find-passes :
    (p : NotificationChannel → Bool) (cs : List NotificationChannel) (c : NotificationChannel)
    → find p cs ≡ some c
    → p c ≡ true
find-passes p [] c h = absurd (cc)
find-passes p (x ∷ cs) c h = elim (Bool-cases (p x)) [
  | inl e ↦
      let same : some x ≡ some c = rw e at h in
      let here : x ≡ c = cc in subst (λ z. p z ≡ true) here e
  | inr e ↦ find-passes p cs c (rw e at h)
]
