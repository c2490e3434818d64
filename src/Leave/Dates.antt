-- ===== src/Leave/Dates.antt =====
-- The day a leave ends, and the days that are left of it (src/modules/leave/leave-dates.ts).
use hrm_backend.Prelude.{
  ℕ, ◌+◌, ◌-◌, ◌*◌, ◌/◌, ◌%◌, ◌≤◌, ◌<◌, ◌≡◌, ◌≢◌, refl, false, Option, none, some, String, nonempty,
  leb, if◌then◌else◌, arith, zero, suc, Bool-cases, inl, inr, ==_iff, Result, ok, err, bad_request,
  ◌==◌, ap, sym, ◌∙◌,
}
use hrm_backend.Leave.{Problem, date_unreadable}

abbrev pub day : ℕ
day = 86400000

-- The calls of `Date` that the code makes read the server's own zone: `zone` is how many milliseconds
-- its clock is ahead, for a zone that keeps its offset, as the office's does. Local midnight is where
-- `(t + zone) % day` is 0; a clock that is behind is one that is ahead by the rest of a day.
-- `setHours(23, 59, 59, 999)`
abbrev pub end_of_day : (zone : ℕ) → ℕ → ℕ
end_of_day zone t = t + (day - 1 - (t + zone) % day)

-- `setDate(getDate() + days)`: the same time of day so many days on.
abbrev pub add_days : ℕ → ℕ → ℕ
add_days t days = t + days * day

abbrev of_days : (zone : ℕ) → Option ℕ → ℕ → Option ℕ
of_days zone none now = none
of_days zone (some n) now = if n == 0 then none else some (end_of_day zone (add_days now (n - 1)))

-- `parse` is `new Date(text)`.
unfoldable pub resolve_leave_end :
    (parse : String → Option ℕ)
    → (zone : ℕ) → Option ℕ
    → Option String
    → ℕ
    → Result Problem (Option ℕ)
resolve_leave_end parse zone days until now = elim until [
  | none ↦ ok (of_days zone days now)
  | some text ↦
      if nonempty text
      then (elim (parse text) [
        | none ↦ err (bad_request date_unreadable)
        | some t ↦ ok (some (end_of_day zone t))
      ])
      else ok (of_days zone days now)
]

-- `Math.ceil(ms / 86_400_000)`
unfoldable pub leave_days_left : Option ℕ → ℕ → Option ℕ
leave_days_left none now = none
leave_days_left (some ends) now =
    if leb ends now then some 0 else some ((ends - now + (day - 1)) / day)

some_eq : (a b : ℕ) → some a ≡ some b → a ≡ b
some_eq a b e = cc

days_left_while :
    (ends now : ℕ)
    → now < ends
    → leave_days_left (some ends) now ≡ some ((ends - now + 86399999) / 86400000)
unfolding leave_days_left
days_left_while ends now h = ground arith

ceiling :
    (m : ℕ)
    → 0 < m
    → (1 ≤ (m + 86399999) / 86400000)
      × (m ≤ (m + 86399999) / 86400000 * 86400000)
      × ((m + 86399999) / 86400000 * 86400000 < m + 86400000)
ceiling m h = (omega arith, omega arith, omega arith)

-- While someone is away, the days that the button reads are at least one, they reach the end of the
-- leave, and one day fewer would not.
pub leave_days_left_bounds :
    (ends now n : ℕ)
    → now < ends
    → leave_days_left (some ends) now ≡ some n
    → (1 ≤ n) × (ends ≤ now + n * day) × (now + n * day < ends + day)
leave_days_left_bounds ends now n h e =
    let same : (ends - now + 86399999) / 86400000 ≡ n =
      some_eq _ n (sym (days_left_while ends now h) ∙ e) in
    let (least, enough, tight) = ceiling (ends - now) (omega arith) in
    (omega (arith, same, least), omega (arith, same, enough), omega (arith, same, tight))

days_left_over : (ends now : ℕ) → ends ≤ now → leave_days_left (some ends) now ≡ some 0
unfolding leave_days_left
days_left_over ends now h = ground arith

-- The end of the day `n` days on.
last_day :
    (zone n now : ℕ)
    → ((now + n * 86400000 + (86399999 - (now + n * 86400000 + zone) % 86400000) + zone) / 86400000
        ≡ (now + zone) / 86400000 + n)
      × ((now + n * 86400000 + (86399999 - (now + n * 86400000 + zone) % 86400000) + zone)
            % 86400000
          ≡ 86399999)
last_day zone n now = (omega arith, omega arith)

ceil_days :
    (n m : ℕ) → n * 86400000 < m → m ≤ (n + 1) * 86400000 → (m + 86399999) / 86400000 ≡ n + 1
ceil_days n m low high = omega arith

left_within :
    (n m now : ℕ)
    → 0 < m
    → m < 86400000
    → leave_days_left (some (now + n * 86400000 + m)) now ≡ some (n + 1)
left_within n m now some_left short =
    days_left_while (now + n * 86400000 + m) now (omega arith)
    ∙ ap some (ceil_days n (now + n * 86400000 + m - now) (omega arith) (omega arith))

left_at_last : (n now : ℕ) → leave_days_left (some (now + n * 86400000 + 0)) now ≡ some n
left_at_last zero now = days_left_over (now + 0 * 86400000 + 0) now (omega arith)
left_at_last (suc n) now =
    days_left_while (now + suc n * 86400000 + 0) now (omega arith)
    ∙ ap some
        (ceil_days n (now + suc n * 86400000 + 0 - now) (omega arith) (omega arith) ∙ omega arith)

before_last : (x : ℕ) → (x == 86399999) ≡ false → x ≢ 86399999
before_last x h = ground arith

left_of :
    (zone n now : ℕ)
    → leave_days_left
        (some (now + n * 86400000 + (86399999 - (now + n * 86400000 + zone) % 86400000)))
        now
      ≡ some (if (now + zone) % 86400000 == 86399999 then n else n + 1)
left_of zone n now = elim (Bool-cases ((now + zone) % 86400000 == 86399999)) [
  | inl e ↦
      let here : (now + zone) % 86400000 ≡ 86399999 = (==_iff _ _).0 e in
      let nothing : 86399999 - (now + n * 86400000 + zone) % 86400000 ≡ 0 = omega (arith, here) in
      rw (e, nothing) (left_at_last n now)
  | inr e ↦
      let positive : 0 < 86399999 - (now + n * 86400000 + zone) % 86400000 =
        omega (arith, before_last _ e) in
      rw e (
        left_within n (86399999 - (now + n * 86400000 + zone) % 86400000) now positive
          (omega arith))
]

-- A leave of `n + 1` days lasts to the last millisecond of the calendar day `n` days after today, in
-- the server's zone, and reads `n + 1` days left when it is set, `n` only where it is set in the last
-- millisecond of a day.
pub leave_days_left-resolve_leave_end :
    (parse : String → Option ℕ) (zone n now : ℕ)
    → (ends : ℕ) × (resolve_leave_end parse zone (some (n + 1)) none now ≡ ok (some ends))
      × ((ends + zone) / day ≡ (now + zone) / day + n)
      × ((ends + zone) % day ≡ day - 1)
      × (leave_days_left (some ends) now
          ≡ some (if (now + zone) % day == day - 1 then n else n + 1))
unfolding resolve_leave_end
leave_days_left-resolve_leave_end parse zone n now =
    let ends = end_of_day zone (add_days now n) in
    let positive : ((n + 1) == 0) ≡ false = ground arith in
    let one_less : n + 1 - 1 ≡ n = omega arith in
    let (on_day, last) = last_day zone n now in
    (ends, rw (positive, one_less) refl, on_day, last, left_of zone n now)
