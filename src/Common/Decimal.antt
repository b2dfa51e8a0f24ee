-- ===== src/Common/Decimal.antt =====
-- Display of an unsigned integer: its decimal digits.
use Prim.Native.Nat.{ℕ, zero, suc, ◌/◌, ◌%◌}
use Prim.Native.String.{String, ◌++◌}
use legaltech_contract_autom.Common.Tests.{ltb, ◌==◌, if◌then◌else◌}

digit : ℕ → String
digit n =
    if n == 0
    then "0"
    else if n == 1
    then "1"
    else if n == 2
    then "2"
    else if n == 3
    then "3"
    else if n == 4
    then "4"
    else if n == 5
    then "5"
    else if n == 6
    then "6"
    else if n == 7
    then "7"
    else if n == 8
    then "8"
    else "9"

-- A number has no more digits than its successor, so `show` gives enough fuel.
show_from : ℕ → ℕ → String
unfolding digit
show_from zero n = ""
show_from (suc fuel) n =
    let rest = show_from fuel (n / 10) in if ltb n 10 then digit n else rest ++ digit (n % 10)

unfoldable pub show : ℕ → String
unfolding show_from
show n = show_from (suc n) n
