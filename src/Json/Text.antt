-- ===== src/Json/Text.antt =====
-- Decimal numerals, as `str` of Python writes an int.
use Prim.Native.String.{◌++◌}
use agent_wake.Prelude.{ℕ, zero, suc, ◌/◌, ◌%◌, String, ◌≡◌, refl, eqb, ltb, if◌then◌else◌}

digit : ℕ → String
digit d =
    if eqb d 0
    then "0"
    else if eqb d 1
    then "1"
    else if eqb d 2
    then "2"
    else if eqb d 3
    then "3"
    else if eqb d 4
    then "4"
    else if eqb d 5
    then "5"
    else if eqb d 6
    then "6"
    else if eqb d 7
    then "7"
    else if eqb d 8
    then "8"
    else "9"

-- the digits of n in front of those already written; n + 1 rounds are more than enough
digits : ℕ → ℕ → String → String
unfolding digit
digits zero n rest = rest
digits (suc f) n rest =
    let more = digits f (n / 10) (digit (n % 10) ++ rest) in
    if ltb n 10 then digit n ++ rest else more

unfoldable pub decimal : ℕ → String
unfolding digits
decimal n = digits (suc n) n ""

decimal_test : decimal 1048576 ≡ "1048576"
unfolding decimal
decimal_test = refl
