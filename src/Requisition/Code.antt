-- ===== src/Requisition/Code.antt =====
-- Requisition numbers, REQ-<year>-<sequence> (requisition-code.ts), and `withFreshCode`, which runs a
-- create again where the code was taken (requisition.service.ts).
pub mod RoundTrip
pub mod Fresh
use Prim.Native.Char.{Char, code}
use Prim.Native.String.{[], ◌∷◌}
use mathlib.Core.List
use hrm_backend.Prelude.{
  ℕ, zero, suc, ◌+◌, ◌-◌, ◌*◌, String, Bool, true, false, ◌&&◌, ◌||◌, Option, none, some, leb, ltb,
  if◌then◌else◌, or_else, ◌+++◌, ◌===◌, List, is_space, Result, ok, err, Refusal,
}
use hrm_backend.Decimal.{decimal, pad_start}

abbrev is_digit : Char → Bool
is_digit c = leb 48 (code c) && leb (code c) 57

-- One character of the scan for the digits that end a text, white space after them aside: the number
-- read so far, if the text so far ends in digits, and whether white space followed it.
abbrev scan : Option ℕ × Bool → Char → Option ℕ × Bool
scan (n, spaced) c =
    if is_digit c
    then (some ((if spaced then 0 else or_else n 0) * 10 + (code c - 48)), false)
    else if is_space c
    then (n, true)
    else (none, false)

unfoldable pub scan_all : Option ℕ × Bool → String → Option ℕ × Bool
scan_all st [] = st
scan_all st (c ∷ s) = scan_all (scan st c) s

-- `Number(/(\d+)\s*$/.exec(code)?.[1] ?? 0)`
unfoldable pub code_sequence : String → ℕ
code_sequence s = or_else (scan_all (none, false) s).0 0

pub format_requisition_code : ℕ → ℕ → String
format_requisition_code year sequence =
    "REQ-" +++ decimal year +++ "-" +++ pad_start 3 (decimal sequence)

-- The fold of `Math.max`, from the left.
highest : ℕ → List String → ℕ
highest top List.[] = top
highest top (List.◌∷◌ c cs) =
    highest (if ltb top (code_sequence c) then code_sequence c else top) cs

pub next_requisition_code : List String → ℕ → String
next_requisition_code existing year = format_requisition_code year (highest 0 existing + 1)
