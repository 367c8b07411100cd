-- ===== src/Calendar.antt =====
-- The parts of JavaScript's Date that the billing code uses, in the server's local time: a civil
-- date with the milliseconds since local midnight. Clock changes for daylight saving are left out.
pub mod Carry
use v_backend.Base.{
  ℕ, zero, suc, ◌+◌, ◌-◌, ◌*◌, ◌/◌, ◌%◌, Bool, ◌&&◌, ◌||◌, not, ◌==◌, ltb, leb, if◌then◌else◌, ◌≤◌,
  ◌<◌, ◌≡◌, refl,
}

-- `month` counts from 0 (January) to 11, `day` from 1.
pub record LocalDate : Type 0 where
  pub year : ℕ
  pub month : ℕ
  pub day : ℕ
  pub ms : ℕ

abbrev pub is_leap : ℕ → Bool
is_leap y = y % 4 == 0 && (not (y % 100 == 0) || y % 400 == 0)

-- `new Date(y, m + 1, 0).getDate()`: the last day of month m.
unfoldable pub days_in_month : ℕ → ℕ → ℕ
days_in_month y m =
    if m == 1
    then (if is_leap y then 29 else 28)
    else (if m == 3 || m == 5 || m == 8 || m == 10 then 30 else 31)

-- The days of the year before month m.
unfoldable pub days_before_month : ℕ → ℕ → ℕ
unfolding days_in_month
days_before_month y zero = 0
days_before_month y (suc m) = days_before_month y m + days_in_month y m

-- The days before year y, counted from year 0.
unfoldable pub days_before_year : ℕ → ℕ
days_before_year y = 365 * y + (y + 3) / 4 - (y + 99) / 100 + (y + 399) / 400

unfoldable pub day_number : LocalDate → ℕ
unfolding days_before_year days_before_month
day_number d = days_before_year d.year + days_before_month d.year d.month + d.day

-- `getDay()`: 0 is Sunday.
unfoldable pub get_day : LocalDate → ℕ
unfolding day_number
get_day d = (day_number d + 5) % 7

-- `getTime()`, up to a constant.
unfoldable pub to_ms : LocalDate → ℕ
unfolding day_number
to_ms d = day_number d * 86400000 + d.ms

-- `setHours(0, 0, 0, 0)`
abbrev pub midnight : LocalDate → LocalDate
midnight d = record d { ms = 0 }

-- A day past the end of its month runs over into the months that follow.
unfoldable pub carry : ℕ → ℕ → ℕ → ℕ → ℕ → LocalDate
unfolding days_in_month
carry zero y m d t = record { year = y; month = m; day = d; ms = t }
carry (suc f) y m d t =
    let over =
      carry f (if m == 11 then y + 1 else y) (if m == 11 then 0 else m + 1) (d - days_in_month y m)
        t in
    if leb d (days_in_month y m) then record { year = y; month = m; day = d; ms = t } else over

-- `setDate(getDate() + n)`
unfoldable pub add_days : LocalDate → ℕ → LocalDate
unfolding carry
add_days d n = carry (d.day + n) d.year d.month (d.day + n) d.ms

-- `new Date(y, m, d, 0, 0, 0, 0)` for a day that is at most the month's last; day 0 is the last day
-- of the month before.
unfoldable pub make_date : ℕ → ℕ → ℕ → LocalDate
unfolding days_in_month
make_date y zero zero = record { year = y - 1; month = 11; day = 31; ms = 0 }
make_date y (suc m) zero = record { year = y; month = m; day = days_in_month y m; ms = 0 }
make_date y m (suc d) = record { year = y; month = m; day = suc d; ms = 0 }

-- `a > b`
unfoldable pub is_after : LocalDate → LocalDate → Bool
is_after a b =
    ltb b.year a.year
    || (b.year == a.year
        && (ltb b.month a.month
            || (b.month == a.month && (ltb b.day a.day || (b.day == a.day && ltb b.ms a.ms)))))

-- A date as JavaScript keeps it, with every field in its range.
pub record IsDate (d : LocalDate) : Type 0 where
  pub month_le : d.month ≤ 11
  pub day_pos : 1 ≤ d.day
  pub day_le : d.day ≤ days_in_month d.year d.month
  pub ms_lt : d.ms < 86400000

abbrev pub noon_2026_11_27 : LocalDate
noon_2026_11_27 = record { year = 2026; month = 10; day = 27; ms = 43200000 }

-- 27 November 2026 is a Friday, and the Tuesday of the week after next is 8 December.
get_day-friday : get_day noon_2026_11_27 ≡ 5
unfolding get_day
get_day-friday = refl

add_days-december :
    add_days noon_2026_11_27 11 ≡ record { year = 2026; month = 11; day = 8; ms = 43200000 }
unfolding add_days
add_days-december = refl
