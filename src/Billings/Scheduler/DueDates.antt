-- ===== src/Billings/Scheduler/DueDates.antt =====
-- What the due dates are, mode by mode.
use v_backend.Base.{
  ℕ, ◌+◌, ◌≤◌, ◌≡◌, refl, min, true, some, arith, Bool-cases, inl, inr, suc, zero, if◌then◌else◌,
  ◌==◌, false, ◌%◌,
}
use v_backend.Calendar.{
  LocalDate, days_in_month, day_number, get_day, midnight, add_days, make_date, is_after, IsDate,
}
use v_backend.Calendar.Carry.{days_in_month_bounds, day_number-add_days}
use v_backend.Db.Rows.{weekly}
use v_backend.Billings.Scheduler.{compute_due_date, next_monthly, days_until}

days_until_bounds :
    (target current : ℕ) → (1 ≤ days_until target current) × (days_until target current ≤ 7)
days_until_bounds target current = ground arith

weekday_reached :
    (n target : ℕ) → target ≤ 6 → (n + days_until target ((n + 5) % 7) + 5) % 7 ≡ target
weekday_reached n target h = ground arith

-- From a valid date and a weekday from 0 to 6, the weekly due date is the next day of that
-- weekday, one to seven days ahead, at midnight, and is a valid date.
pub compute_due_date_weekly :
    (target : ℕ) (reference : LocalDate)
    → IsDate reference
    → target ≤ 6
    → (due : LocalDate) × (compute_due_date weekly (some target) reference ≡ some due)
      × (get_day due ≡ target)
      × (day_number reference + 1 ≤ day_number due)
      × (day_number due ≤ day_number reference + 7)
      × (due.ms ≡ 0)
      × IsDate due
unfolding compute_due_date get_day day_number
compute_due_date_weekly target reference v h =
    let ahead = days_until target (get_day reference) in
    let moved = day_number-add_days reference ahead v in
    (
      midnight (add_days reference ahead),
      refl,
      rw moved.0 (weekday_reached (day_number reference) target h),
      omega (arith, moved.0, days_until_bounds target (get_day reference)),
      omega (arith, moved.0, days_until_bounds target (get_day reference)),
      refl,
      record {
        month_le = moved.1.month_le;
        day_pos = moved.1.day_pos;
        day_le = moved.1.day_le;
        ms_lt = omega arith;
      },
    )

make_date_lem :
    (y m d : ℕ) → 1 ≤ d → make_date y m d ≡ record { year = y; month = m; day = d; ms = 0 }
unfolding make_date
make_date_lem y zero zero h = elim h [ ]
make_date_lem y (suc m) zero h = elim h [ ]
make_date_lem y zero (suc d) h = refl
make_date_lem y (suc m) (suc d) h = refl

-- The first of a month's billing day, or its last day if the month is too short for it.
abbrev billing_date : ℕ → ℕ → ℕ → LocalDate
billing_date day y m = record { year = y; month = m; day = min day (days_in_month y m); ms = 0 }

make_date-billing :
    (day y m : ℕ) → 1 ≤ day → make_date y m (min day (days_in_month y m)) ≡ billing_date day y m
make_date-billing day y m h = make_date_lem y m _ (omega (arith, days_in_month_bounds y m))

next_monthly-cases :
    (day : ℕ) (reference : LocalDate)
    → 1 ≤ day
    → next_monthly day reference ≡ (
        if is_after (billing_date day reference.year reference.month) reference
        then billing_date day reference.year reference.month
        else (if reference.month == 11
            then billing_date day (reference.year + 1) 0
            else billing_date day reference.year (reference.month + 1)))
unfolding next_monthly
next_monthly-cases day reference h = elim (Bool-cases (reference.month == 11)) [
  | inl e ↦ rw (
    e,
    make_date-billing day reference.year reference.month h,
    make_date-billing day (reference.year + 1) 0 h,
  )
  | inr e ↦ rw (
    e,
    make_date-billing day reference.year reference.month h,
    make_date-billing day reference.year (reference.month + 1) h,
  )
]

-- From a valid date and a billing day of 1 or more, the monthly due date falls on the billing
-- day, or on the last day of a month that is too short, lies after the reference, and is a valid
-- date.
pub next_monthly_lem :
    (day : ℕ) (reference : LocalDate)
    → IsDate reference
    → 1 ≤ day
    → let due = next_monthly day reference in
      (is_after due reference ≡ true)
      × (due.day ≡ min day (days_in_month due.year due.month))
      × IsDate due
unfolding is_after
next_monthly_lem day reference v h = rw (next_monthly-cases day reference h) (
    ground (
      arith,
      days_in_month_bounds reference.year reference.month,
      days_in_month_bounds (reference.year + 1) 0,
      days_in_month_bounds reference.year (reference.month + 1),
    ))

-- No midnight on the billing day, or on the last day of a month that is too short, that lies
-- after the reference comes before the monthly due date; the dates are valid and the billing day
-- is 1 or more.
pub next_monthly_earliest :
    (day : ℕ) (reference x : LocalDate)
    → IsDate reference
    → 1 ≤ day
    → IsDate x
    → x.ms ≡ 0
    → x.day ≡ min day (days_in_month x.year x.month)
    → is_after x reference ≡ true
    → is_after (next_monthly day reference) x ≡ false
unfolding is_after
next_monthly_earliest day reference x v h w at_midnight on_day after =
    rw (next_monthly-cases day reference h)
      (elim (Bool-cases (is_after (billing_date day reference.year reference.month) reference)) [
        | inl soon ↦ rw soon (ground arith)
        | inr late ↦ elim (Bool-cases (reference.month == 11)) [
          | inl last ↦ rw (late, last) (ground arith)
          | inr more ↦ rw (late, more) (ground arith)
        ]
      ])
