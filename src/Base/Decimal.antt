-- ===== src/Base/Decimal.antt =====
-- Decimal numerals, as `format!` prints an unsigned integer of 32 bits.
use Prim.Native.Nat.{ℕ, zero, suc, ◌/◌, ◌%◌}
use Prim.Native.String.{String, ◌++◌}
use mathlib.Core.Path.{◌≡◌, refl}
use dds_llm_orchestrator.Base.Tests.{ltb, ◌==◌, if◌then◌else◌}

abbrev pub digit : ℕ → String
digit d =
    if d == 0
    then "0"
    else if d == 1
    then "1"
    else if d == 2
    then "2"
    else if d == 3
    then "3"
    else if d == 4
    then "4"
    else if d == 5
    then "5"
    else if d == 6
    then "6"
    else if d == 7
    then "7"
    else if d == 8
    then "8"
    else "9"

-- Ten digits are enough for 32 bits.
unfoldable pub numeral : ℕ → ℕ → String
numeral zero n = ""
numeral (suc fuel) n =
    let front = numeral fuel (n / 10) in if ltb n 10 then digit n else front ++ digit (n % 10)

unfoldable pub decimal : ℕ → String
unfolding numeral
decimal n = numeral 10 n

decimal_test : decimal 4294967295 ≡ "4294967295"
unfolding decimal numeral
decimal_test = refl
