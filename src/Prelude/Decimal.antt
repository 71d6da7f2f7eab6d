-- ===== src/Prelude/Decimal.antt =====
-- Decimal text of a natural number, as Rust's `to_string` and `{:0w}` print it.
use Prim.Native.Nat.{ℕ, zero, suc, ◌/◌, ◌%◌}
use Prim.Native.String.{String, ◌++◌, count}
use mathlib.Core.Path.{◌≡◌, refl}
use open_eo_ru_stac.Prelude.Tests.{ltb, ◌==◌, if◌then◌else◌}

digit : ℕ → String
digit n =
    if n == 0
    then "0"
    else if n == 1
    then "1"
    else if n == 2
    then "2"
    else if n == 3
    then "3"
    else if n == 4
    then "4"
    else if n == 5
    then "5"
    else if n == 6
    then "6"
    else if n == 7
    then "7"
    else if n == 8
    then "8"
    else "9"

decimal_fuel : ℕ → ℕ → String
decimal_fuel zero n = ""
decimal_fuel (suc f) n =
    let rest = decimal_fuel f (n / 10) ++ digit (n % 10) in if ltb n 10 then digit n else rest

-- A number has fewer digits than its successor counts.
unfoldable pub decimal : ℕ → String
unfolding decimal_fuel digit
decimal n = decimal_fuel (suc n) n

pad_fuel : ℕ → ℕ → String → String
pad_fuel zero w s = s
pad_fuel (suc f) w s = let longer = pad_fuel f w ("0" ++ s) in if ltb (count s) w then longer else s

-- `{n:0w}`.
unfoldable pub zero_padded : ℕ → ℕ → String
unfolding decimal pad_fuel
zero_padded w n = pad_fuel w w (decimal n)

decimal_runs : decimal 2026 ≡ "2026"
unfolding decimal
decimal_runs = refl

zero_padded_runs : zero_padded 4 7 ≡ "0007"
unfolding zero_padded
zero_padded_runs = refl
