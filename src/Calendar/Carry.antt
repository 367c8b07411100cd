-- ===== src/Calendar/Carry.antt =====
-- Adding days to a date, by day numbers.
use v_backend.Base.{
  ℕ, zero, suc, ◌+◌, ◌-◌, ◌≤◌, ◌<◌, ◌≡◌, refl, arith, ◌==◌, if◌then◌else◌, leb, Bool-cases, inl,
  inr, ◌∙◌,
}
use v_backend.Calendar.{
  LocalDate, days_in_month, days_before_month, days_before_year, day_number, get_day, carry,
  add_days, IsDate,
}

pub days_in_month_bounds : (y m : ℕ) → (28 ≤ days_in_month y m) × (days_in_month y m ≤ 31)
unfolding days_in_month
days_in_month_bounds y m = ground arith

-- December's end: the next year begins where the months of this one end.
year_end :
    (y : ℕ)
    → days_before_year (y + 1) ≡ days_before_year y + days_before_month y 11 + days_in_month y 11
unfolding days_before_year days_before_month
year_end y = ground arith

abbrev days_to : ℕ → ℕ → ℕ
days_to y m = days_before_year y + days_before_month y m

next_month :
    (y m : ℕ)
    → m ≤ 11
    → days_to (if m == 11 then y + 1 else y) (if m == 11 then 0 else m + 1)
      ≡ days_to y m + days_in_month y m
unfolding days_before_month
next_month y m h = elim (Bool-cases (m == 11)) [
  | inl last ↦ ground (arith, year_end y)
  | inr more ↦ ground arith
]

-- Running over keeps the day number, and ends at a day of its month.
carry_lem :
    (f y m d t : ℕ)
    → d ≤ f
    → 1 ≤ d
    → m ≤ 11
    → t < 86400000
    → (day_number (carry f y m d t) ≡ days_to y m + d)
      × IsDate (carry f y m d t)
      × ((carry f y m d t).ms ≡ t)
unfolding carry day_number
carry_lem zero y m d t hf hd hm ht = absurd (omega arith)
carry_lem (suc f) y m d t hf hd hm ht = elim (Bool-cases (leb d (days_in_month y m))) [
  | inl fits ↦ rw fits (refl, ground arith, refl)
  | inr over ↦
      let y' = if m == 11 then y + 1 else y in
      let m' = if m == 11 then 0 else m + 1 in
      let d' = d - days_in_month y m in
      let rest =
        carry_lem f y' m' d' t (ground (arith, days_in_month_bounds y m)) (ground arith)
          (ground arith) ht in
      rw over (rest.0 ∙ ground (arith, next_month y m hm), rest.1, rest.2)
]

-- `setDate(getDate() + n)` is n days later, at the same time of day, for every n.
pub day_number-add_days :
    (d : LocalDate) (n : ℕ)
    → IsDate d
    → (day_number (add_days d n) ≡ day_number d + n)
      × IsDate (add_days d n)
      × ((add_days d n).ms ≡ d.ms)
unfolding add_days
day_number-add_days d n v =
    let moved =
      carry_lem (d.day + n) d.year d.month (d.day + n) d.ms (omega arith) (omega (arith, v.day_pos))
        v.month_le v.ms_lt in
    (moved.0 ∙ unfold day_number in omega arith, moved.1, moved.2)

pub get_day-lt : (d : LocalDate) → get_day d < 7
unfolding get_day
get_day-lt d = omega arith
