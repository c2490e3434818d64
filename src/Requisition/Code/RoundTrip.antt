-- ===== src/Requisition/Code/RoundTrip.antt =====
-- Reading a formatted code's sequence back, and the order of the next code (requisition-code.ts).
use Prim.Native.String.{[], ◌∷◌}
use Prim.Native.String.append
use hrm_backend.Prelude.{
  ℕ, zero, suc, ◌+◌, ◌-◌, ◌*◌, ◌/◌, ◌%◌, ◌<◌, ◌≤◌, String, ◌≡◌, refl, ap, ◌∙◌, Bool, false,
  Bool-cases, inl, inr, Option, none, some, ltb, if◌then◌else◌, or_else, is_space, ◌+++◌, List, All,
  arith, text_length,
}
use hrm_backend.Decimal.{digit, decimal, decimal_from, zeros, pad_start}
use hrm_backend.Requisition.Code.{
  scan, scan_all, code_sequence, format_requisition_code, highest, next_requisition_code,
}

scan_append :
    (st : Option ℕ × Bool) (s t : String) → scan_all st (s +++ t) ≡ scan_all (scan_all st s) t
unfolding scan_all
scan_append st [] t = ap (scan_all st) (append.nil t)
scan_append st (c ∷ s) t = ap (scan_all st) (append.cons c s t) ∙ scan_append (scan st c) s t

scan_digit :
    (o : Option ℕ) (d : ℕ)
    → d < 10
    → scan_all (o, false) (digit d) ≡ (some (or_else o 0 * 10 + d), false)
unfolding scan_all digit
scan_digit o zero h = refl
scan_digit o (suc zero) h = refl
scan_digit o (suc (suc zero)) h = refl
scan_digit o (suc (suc (suc zero))) h = refl
scan_digit o (suc (suc (suc (suc zero)))) h = refl
scan_digit o (suc (suc (suc (suc (suc zero))))) h = refl
scan_digit o (suc (suc (suc (suc (suc (suc zero)))))) h = refl
scan_digit o (suc (suc (suc (suc (suc (suc (suc zero))))))) h = refl
scan_digit o (suc (suc (suc (suc (suc (suc (suc (suc zero)))))))) h = refl
scan_digit o (suc (suc (suc (suc (suc (suc (suc (suc (suc zero))))))))) h = refl
scan_digit o (suc (suc (suc (suc (suc (suc (suc (suc (suc (suc d)))))))))) h = absurd (omega arith)

scan_decimal :
    (f n : ℕ) (o : Option ℕ)
    → or_else o 0 ≡ 0
    → n < f
    → scan_all (o, false) (decimal_from f n) ≡ (some n, false)
unfolding decimal_from
scan_decimal zero n o z h = absurd (omega arith)
scan_decimal (suc f) n o z h = elim (Bool-cases (ltb n 10)) [
  | inl p ↦ rw p (scan_digit o n (ground arith) ∙ ap (λ k. (some k, false)) (omega arith))
  | inr p ↦ rw p (
      scan_append (o, false) (decimal_from f (n / 10)) (digit (n % 10))
      ∙ ap (λ st. scan_all st (digit (n % 10))) (scan_decimal f (n / 10) o z (ground arith))
      ∙ scan_digit (some (n / 10)) (n % 10) (omega arith)
      ∙ ap (λ k. (some k, false)) (omega arith))
]

scan_zeros :
    (k : ℕ) (o : Option ℕ) (s : String)
    → or_else o 0 ≡ 0
    → (o' : Option ℕ) × (or_else o' 0 ≡ 0)
      × (scan_all (o, false) (zeros k s) ≡ scan_all (o', false) s)
unfolding zeros digit
scan_zeros zero o s z = (o, z, refl)
scan_zeros (suc k) o s z =
    let (o', z', same) = scan_zeros k (some (or_else o 0 * 10 + 0)) s (omega arith) in
    (
      o',
      z',
      scan_append (o, false) "0" (zeros k s)
          ∙ ap (λ st. scan_all st (zeros k s)) (scan_digit o 0 (omega arith))
          ∙ same,
    )

-- A padded number, read after a text that ends in no digit.
scan_padded : (k n : ℕ) → scan_all (none, false) (pad_start k (decimal n)) ≡ (some n, false)
unfolding pad_start decimal
scan_padded k n =
    let (o, z, same) =
      scan_zeros (k - text_length (decimal_from (n + 1) n)) none (decimal_from (n + 1) n) refl in
    same ∙ scan_decimal (n + 1) n o z (omega arith)

scan_prefix :
    (year : ℕ) (rest : String)
    → scan_all (none, false) ("REQ-" +++ decimal year +++ "-" +++ rest)
      ≡ scan_all (none, false) rest
unfolding scan_all is_space decimal
scan_prefix year rest =
    scan_append (none, false) "REQ-" (decimal year +++ "-" +++ rest)
    ∙ scan_append (none, false) (decimal year) ("-" +++ rest)
    ∙ ap (λ st. scan_all st ("-" +++ rest)) (scan_decimal (year + 1) year none refl (omega arith))
    ∙ scan_append (some year, false) "-" rest

-- A formatted code has the sequence that it was made from, whatever the year.
pub code_sequence-format : (year n : ℕ) → code_sequence (format_requisition_code year n) ≡ n
unfolding code_sequence format_requisition_code
code_sequence-format year n =
    ap (λ st. or_else st.0 0) (scan_prefix year (pad_start 3 (decimal n)) ∙ scan_padded 3 n)

highest_bounds :
    (top : ℕ) (cs : List String)
    → (top ≤ highest top cs) × All (λ c. code_sequence c ≤ highest top cs) cs
unfolding highest
highest_bounds top List.[] = (omega arith, tt)
highest_bounds top (List.◌∷◌ c cs) =
    let next = if ltb top (code_sequence c) then code_sequence c else top in
    let (above, rest) = highest_bounds next cs in ((ground arith), ((ground arith), rest))

raise-All :
    (n : ℕ) (cs : List String)
    → All (λ c. code_sequence c ≤ n) cs
    → All (λ c. code_sequence c < n + 1) cs
raise-All n List.[] h = tt
raise-All n (List.◌∷◌ c cs) h = (omega (arith, h.0), raise-All n cs h.1)

-- The next code's sequence is above the sequence of every code in use.
pub next_requisition_code-above :
    (existing : List String) (year : ℕ)
    → All (λ c. code_sequence c < code_sequence (next_requisition_code existing year)) existing
unfolding next_requisition_code
next_requisition_code-above existing year =
    rw (code_sequence-format year (highest 0 existing + 1))
      (raise-All (highest 0 existing) existing (highest_bounds 0 existing).1)
