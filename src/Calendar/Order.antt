-- ===== src/Calendar/Order.antt =====
-- The order of dates.
use nyzrating.Prelude.{◌≡◌, true, arith}
use nyzrating.Calendar.{Date, date_lt}

pub date_lt_trans : (a b c : Date) → date_lt a b ≡ true → date_lt b c ≡ true → date_lt a c ≡ true
unfolding date_lt
date_lt_trans a b c p q = ground arith
