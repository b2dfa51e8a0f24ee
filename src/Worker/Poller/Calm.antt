-- ===== src/Worker/Poller/Calm.antt =====
-- Steps of src/worker/poller.rs during which the database refuses nothing.
use legaltech_contract_autom.Common.{ℕ, Option, some, none, false, ◌≡◌, ok, err, Result}
use legaltech_contract_autom.Db.Models.{Contract, Database}
use legaltech_contract_autom.Db.Session.{Db, World, statement, pure, after, ◌>>=◌}
use legaltech_contract_autom.Reminders.Types.{ChannelType, parse_channel}
use legaltech_contract_autom.Worker.Claim.{ClaimedReminder}
use legaltech_contract_autom.Worker.Poller.{
  find_contract_row, find_due_date, with_contract, with_channel, build_notification,
}

-- No statement from here on is refused.
abbrev pub IsCalm : World → Type 0
IsCalm w = (k : ℕ) → (w.turns k).refused ≡ false

-- A step that stays calm.
pub record Calm {E A : Type 0} (m : Db E A) : Type 0 where
  pub calm : (w : World) → IsCalm w → IsCalm (m w).1

pub Calm-statement : {A : Type 0} (run : ℕ → ℕ → Database → A × Database) → Calm (statement run)
unfolding statement
Calm-statement run = record { calm = λ w c. rw (c w.tick) c }

Calm-after :
    {E A B : Type 0} (f : A → Db E B) (p : Result E A × World)
    → ((a : A) → Calm (f a))
    → IsCalm p.1
    → IsCalm (after f p).1
Calm-after f (ok a, w) rest c = (rest a).calm w c
Calm-after f (err e, w) rest c = c

Calm-bind :
    {E A B : Type 0} (m : Db E A) (f : A → Db E B)
    → Calm m
    → ((a : A) → Calm (f a))
    → Calm (m >>= f)
Calm-bind m f first rest = record { calm = λ w c. Calm-after f (m w) rest (first.calm w c) }

Calm-pure : {E A : Type 0} (a : A) → Calm {E = E} (pure a)
Calm-pure a = record { calm = λ w c. c }

find_due_date-Calm : (o : Option ℕ) → Calm (find_due_date o)
unfolding find_due_date
find_due_date-Calm none = Calm-pure none
find_due_date-Calm (some id) = Calm-statement _

with_contract-Calm :
    (claimed : ClaimedReminder) (channel : ChannelType) (o : Option Contract)
    → Calm (with_contract claimed channel o)
unfolding with_contract
with_contract-Calm claimed channel none = Calm-pure none
with_contract-Calm claimed channel (some c) =
    Calm-bind _ _ (find_due_date-Calm claimed.obligation_id) λ d. Calm-pure _

with_channel-Calm :
    (claimed : ClaimedReminder) (o : Option ChannelType) → Calm (with_channel claimed o)
unfolding with_channel find_contract_row
with_channel-Calm claimed none = Calm-pure none
with_channel-Calm claimed (some channel) =
    Calm-bind _ _ (Calm-statement _) λ row. with_contract-Calm claimed channel row

pub build_notification-Calm : (claimed : ClaimedReminder) → Calm (build_notification claimed)
unfolding build_notification
build_notification-Calm claimed = with_channel-Calm claimed (parse_channel claimed.channel_type)
