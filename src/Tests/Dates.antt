-- ===== src/Tests/Dates.antt =====
-- Due dates around the end of January 2026.
use v_backend.Base.{◌≡◌, refl, ◌+◌, ◌≤◌, min, true, false, some, arith}
use v_backend.Calendar.{LocalDate, IsDate, day_number, get_day, is_after, days_in_month}
use v_backend.Db.Rows.{weekly}
use v_backend.Billings.Scheduler.{compute_due_date, next_monthly}
use v_backend.Billings.Scheduler.DueDates.{
  compute_due_date_weekly, next_monthly_lem, next_monthly_earliest,
}

abbrev reference : LocalDate
reference = record { year = 2026; month = 0; day = 31; ms = 7200000 }

reference-IsDate : IsDate reference
unfolding days_in_month
reference-IsDate = record {
  month_le = omega arith;
  day_pos = omega arith;
  day_le = omega arith;
  ms_lt = omega arith;
}

compute_due_date_weekly_example :
    (due : LocalDate) × (compute_due_date weekly (some 1) reference ≡ some due)
    × (get_day due ≡ 1)
    × (day_number reference + 1 ≤ day_number due)
    × (day_number due ≤ day_number reference + 7)
    × (due.ms ≡ 0)
    × IsDate due
compute_due_date_weekly_example = compute_due_date_weekly 1 reference reference-IsDate (omega arith)

next_monthly_lem_example :
    let due = next_monthly 31 reference in
    (is_after due reference ≡ true)
    × (due.day ≡ min 31 (days_in_month due.year due.month))
    × IsDate due
next_monthly_lem_example = next_monthly_lem 31 reference reference-IsDate (omega arith)

abbrev march : LocalDate
march = record { year = 2026; month = 2; day = 31; ms = 0 }

march-IsDate : IsDate march
unfolding days_in_month
march-IsDate = record {
  month_le = omega arith;
  day_pos = omega arith;
  day_le = omega arith;
  ms_lt = omega arith;
}

next_monthly_earliest_example : is_after (next_monthly 31 reference) march ≡ false
unfolding days_in_month is_after
next_monthly_earliest_example =
    next_monthly_earliest 31 reference march reference-IsDate (omega arith) march-IsDate refl refl
      refl
