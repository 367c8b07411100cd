-- ===== src/Billings/Scheduler.antt =====
-- shared/billing/billing-scheduler.ts: the due date of a charge by the customer's billing mode.
pub mod DueDates
use v_backend.Base.{ℕ, ◌+◌, ◌-◌, ◌%◌, min, Option, none, some, Option-cases, ◌==◌, if◌then◌else◌}
use v_backend.Calendar.{LocalDate, days_in_month, get_day, midnight, add_days, make_date, is_after}
use v_backend.Db.Rows.{BillingMode, per_sale, weekly, biweekly, monthly, custom}

-- `a ?? b`
abbrev or_else : Option ℕ → ℕ → ℕ
or_else none b = b
or_else (some a) b = a

-- `(target - current + 7) % 7 || 7`
abbrev days_until : ℕ → ℕ → ℕ
days_until target current = let days = (target + 7 - current) % 7 in if days == 0 then 7 else days

-- The `monthly` case: this month's billing day if it is still to come, else next month's.
unfoldable pub next_monthly : ℕ → LocalDate → LocalDate
next_monthly day reference =
    let year = reference.year in
    let month = reference.month in
    let candidate = make_date year month (min day (days_in_month year month)) in
    let next_year = if month == 11 then year + 1 else year in
    let next_month = if month == 11 then 0 else month + 1 in
    if is_after candidate reference
    then candidate
    else make_date next_year next_month (min day (days_in_month next_year next_month))

unfoldable pub compute_due_date : BillingMode → Option ℕ → LocalDate → Option LocalDate
unfolding next_monthly
compute_due_date per_sale billing_day reference = some (midnight reference)
compute_due_date weekly billing_day reference =
    some (midnight (add_days reference (days_until (or_else billing_day 1) (get_day reference))))
compute_due_date biweekly billing_day reference = some (midnight (add_days reference 14))
compute_due_date monthly billing_day reference =
    some (next_monthly (or_else billing_day 5) reference)
compute_due_date custom billing_day reference = none
