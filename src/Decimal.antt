-- ===== src/Decimal.antt =====
-- `String(n)` and `padStart` for the whole numbers that codes and sentences carry.
use hrm_backend.Prelude.{
  ℕ, zero, suc, ◌+◌, ◌-◌, ◌/◌, ◌%◌, String, ltb, ◌==◌, if◌then◌else◌, ◌+++◌, text_length,
}

unfoldable pub digit : ℕ → String
digit d =
    if d == 0
    then "0"
    else if d == 1
    then "1"
    else if d == 2
    then "2"
    else if d == 3
    then "3"
    else if d == 4
    then "4"
    else if d == 5
    then "5"
    else if d == 6
    then "6"
    else if d == 7
    then "7"
    else if d == 8
    then "8"
    else "9"

-- One round for each digit; `n + 1` rounds are more than `n` has digits.
unfoldable pub decimal_from : ℕ → ℕ → String
decimal_from zero n = ""
decimal_from (suc f) n =
    let front = decimal_from f (n / 10) in if ltb n 10 then digit n else front +++ digit (n % 10)

unfoldable pub decimal : ℕ → String
unfolding digit decimal_from
decimal n = decimal_from (n + 1) n

unfoldable pub zeros : ℕ → String → String
zeros zero s = s
zeros (suc k) s = "0" +++ zeros k s

-- `s.padStart(width, '0')`
unfoldable pub pad_start : ℕ → String → String
unfolding zeros
pad_start width s = zeros (width - text_length s) s
