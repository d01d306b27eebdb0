-- ===== src/Calendar.antt =====
-- Python's `datetime.date` and `datetime.datetime` in UTC, as the program uses them: the
-- proleptic Gregorian calendar, ordinals, weekdays, comparison and steps by days. The model has no
-- last year (Python refuses years above 9999), and a year below 1 is refused by `make_date`.
pub mod Order
pub mod Ordinal
mod Tests
use nyzrating.Prelude.{
  ℕ, zero, suc, ◌+◌, ◌-◌, ◌*◌, ◌/◌, ◌%◌, ◌≤◌, ◌<◌, Bool, true, false, not, ◌&&◌, ◌||◌, Option, none,
  some, ltb, leb, ◌==◌, if◌then◌else◌,
}
use nyzrating.Prelude.Int.{ℤ, pos, negsuc}

pub record Date : Type 0 where
  pub year : ℕ
  pub month : ℕ
  pub day : ℕ

-- `calendar.isleap`
unfoldable pub is_leap : ℕ → Bool
is_leap y = y % 4 == 0 && (not (y % 100 == 0) || y % 400 == 0)

-- `calendar.monthrange(year, month)[1]`
unfoldable pub days_in_month : ℕ → ℕ → ℕ
unfolding is_leap
days_in_month y m =
    if m == 2
    then (if is_leap y then 29 else 28)
    else if m == 4 || m == 6 || m == 9 || m == 11
    then 30
    else 31

-- What `date(year, month, day)` accepts.
pub record IsDate (d : Date) : Type 0 where
  pub year_pos : 1 ≤ d.year
  pub month_pos : 1 ≤ d.month
  pub month_le : d.month ≤ 12
  pub day_pos : 1 ≤ d.day
  pub day_le : d.day ≤ days_in_month d.year d.month

-- `date(year, month, day)` for a month and a day that are in range; `none` is the `ValueError`.
abbrev pub make_date : ℤ → ℕ → ℕ → Option Date
make_date (pos zero) m d = none
make_date (pos (suc y)) m d = some (record { year = suc y; month = m; day = d })
make_date (negsuc y) m d = none

unfoldable pub days_before_year : ℕ → ℕ
days_before_year y = (y - 1) * 365 + (y - 1) / 4 + (y - 1) / 400 - (y - 1) / 100

unfoldable pub days_before_month : ℕ → ℕ → ℕ
unfolding days_in_month
days_before_month y zero = 0
days_before_month y (suc zero) = 0
days_before_month y (suc (suc m)) = days_before_month y (suc m) + days_in_month y (suc m)

-- `date.toordinal`
unfoldable pub to_ordinal : Date → ℕ
to_ordinal d = days_before_year d.year + days_before_month d.year d.month + d.day

-- `date.weekday`, Monday is 0.
unfoldable pub weekday : Date → ℕ
weekday d = (to_ordinal d + 6) % 7

-- `d + timedelta(days=1)`
unfoldable pub next_day : Date → Date
next_day d =
    if ltb d.day (days_in_month d.year d.month)
    then record d { day = d.day + 1 }
    else if ltb d.month 12
    then record d { month = d.month + 1; day = 1 }
    else record { year = d.year + 1; month = 1; day = 1 }

-- `d - timedelta(days=1)`
unfoldable pub prev_day : Date → Date
prev_day d =
    if ltb 1 d.day
    then record d { day = d.day - 1 }
    else if ltb 1 d.month
    then record d { month = d.month - 1; day = days_in_month d.year (d.month - 1) }
    else record { year = d.year - 1; month = 12; day = 31 }

unfoldable pub add_days : Date → ℕ → Date
unfolding next_day
add_days d zero = d
add_days d (suc n) = next_day (add_days d n)

unfoldable pub sub_days : Date → ℕ → Date
unfolding prev_day
sub_days d zero = d
sub_days d (suc n) = prev_day (sub_days d n)

-- `a < b` and `a <= b` compare year, month and day in this order.
unfoldable pub date_lt : Date → Date → Bool
date_lt a b =
    ltb a.year b.year
    || (a.year == b.year && (ltb a.month b.month || (a.month == b.month && ltb a.day b.day)))

unfoldable pub date_le : Date → Date → Bool
unfolding date_lt
date_le a b = not (date_lt b a)

-- A UTC instant: its date, and the microseconds since midnight.
pub record DateTime : Type 0 where
  pub date : Date
  pub time : ℕ

unfoldable pub datetime_lt : DateTime → DateTime → Bool
datetime_lt a b = date_lt a.date b.date || (not (date_lt b.date a.date) && ltb a.time b.time)

unfoldable pub datetime_le : DateTime → DateTime → Bool
unfolding datetime_lt
datetime_le a b = not (datetime_lt b a)

-- `datetime.combine(day, datetime.min.time(), tzinfo=UTC)`
abbrev pub midnight : Date → DateTime
midnight d = record { date = d; time = 0 }

-- `t + timedelta(days=n)`
abbrev pub datetime_add_days : DateTime → ℕ → DateTime
datetime_add_days t n = record t { date = add_days t.date n }
