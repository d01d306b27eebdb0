-- ===== src/Calendar/Tests.antt =====
-- Runs of the calendar.
use nyzrating.Prelude.{◌≡◌, refl}
use nyzrating.Calendar.{
  Date, to_ordinal, weekday, add_days, days_in_month, days_before_year, days_before_month,
}

abbrev leap_eve : Date
leap_eve = record { year = 2024; month = 2; day = 28 }

to_ordinal_run : to_ordinal leap_eve ≡ 738944
unfolding to_ordinal days_before_year days_before_month
to_ordinal_run = refl

-- 28 February 2024 was a Wednesday.
weekday_run : weekday leap_eve ≡ 2
unfolding weekday to_ordinal days_before_year days_before_month
weekday_run = refl

add_days_run : add_days leap_eve 3 ≡ record { year = 2024; month = 3; day = 2 }
unfolding add_days days_in_month
add_days_run = refl
