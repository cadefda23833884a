-- ===== src/Kernel/Mktime/Calendar.antt =====
-- kernel/mktime.c against the Gregorian calendar, counted day by day.
use rv.Common.{
  ℕ, zero, suc, ◌+◌, ◌-◌, ◌*◌, ◌%◌, ◌≤◌, ◌<◌, ◌^◌, ◌≡◌, refl, Bool, true, false, ltb, ◌==◌, not,
  ◌&&◌, ◌||◌, if◌then◌else◌, arith, get_or,
}
use rv.Kernel.Mktime.{Tm, day, hour, minute, month, mktime_year, mktime_month, kernel_mktime}

abbrev pub is_leap : ℕ → Bool
is_leap y = (y % 4 == 0) && not (y % 100 == 0) || (y % 400 == 0)

pub days_in_year : ℕ → ℕ
days_in_year y = if is_leap y then 366 else 365

-- The months count from 0, as in `tm_mon`.
pub days_in_month : ℕ → ℕ → ℕ
days_in_month y m =
    if m == 1
    then (if is_leap y then 29 else 28)
    else if m == 3 || m == 5 || m == 8 || m == 10
    then 30
    else 31

-- The days of the first n years from 1970, and of the first m months of a year.
pub days_of_years : ℕ → ℕ
days_of_years zero = 0
days_of_years (suc n) = days_of_years n + days_in_year (1970 + n)

pub days_of_months : ℕ → ℕ → ℕ
days_of_months y zero = 0
days_of_months y (suc m) = days_of_months y m + days_in_month y m

-- 2000 is a leap year, so no year before 2100 breaks the rule of four.
leap-before_2100 : (n : ℕ) → n < 130 → is_leap (1970 + n) ≡ ((n + 2) % 4 == 0)
leap-before_2100 n h = ground arith

year-days : (n : ℕ) → n ≤ 130 → mktime_year n ≡ day * days_of_years n
unfolding mktime_year days_of_years days_in_year
year-days zero h = refl
year-days (suc n) h =
    rw (leap-before_2100 n (omega arith)) (ground (arith, year-days n (omega arith)))

-- The days of the first m months, given whether the year is a leap year.
leap_months : Bool → ℕ → ℕ
leap_months leap zero = 0
leap_months leap (suc m) =
    leap_months leap m
    + (if m == 1
        then (if leap then 29 else 28)
        else if m == 3 || m == 5 || m == 8 || m == 10
        then 30
        else 31)

month-days-leap :
    (n m : ℕ) → n < 130 → days_of_months (1970 + n) m ≡ leap_months ((n + 2) % 4 == 0) m
unfolding days_of_months days_in_month leap_months
month-days-leap n zero h = refl
month-days-leap n (suc m) h = rw (leap-before_2100 n h, month-days-leap n m h)

month-table :
    (leap : Bool) (m : ℕ)
    → m < 12
    → (if ltb 1 m && not leap then get_or month m 0 - day else get_or month m 0)
      ≡ day * leap_months leap m
unfolding leap_months
month-table true zero h = refl
month-table true (suc zero) h = refl
month-table true (suc (suc zero)) h = refl
month-table true (suc (suc (suc zero))) h = refl
month-table true (suc (suc (suc (suc zero)))) h = refl
month-table true (suc (suc (suc (suc (suc zero))))) h = refl
month-table true (suc (suc (suc (suc (suc (suc zero)))))) h = refl
month-table true (suc (suc (suc (suc (suc (suc (suc zero))))))) h = refl
month-table true (suc (suc (suc (suc (suc (suc (suc (suc zero)))))))) h = refl
month-table true (suc (suc (suc (suc (suc (suc (suc (suc (suc zero))))))))) h = refl
month-table true (suc (suc (suc (suc (suc (suc (suc (suc (suc (suc zero)))))))))) h = refl
month-table true (suc (suc (suc (suc (suc (suc (suc (suc (suc (suc (suc zero))))))))))) h = refl
month-table true (suc (suc (suc (suc (suc (suc (suc (suc (suc (suc (suc (suc m)))))))))))) h =
    absurd (omega arith)
month-table false zero h = refl
month-table false (suc zero) h = refl
month-table false (suc (suc zero)) h = refl
month-table false (suc (suc (suc zero))) h = refl
month-table false (suc (suc (suc (suc zero)))) h = refl
month-table false (suc (suc (suc (suc (suc zero))))) h = refl
month-table false (suc (suc (suc (suc (suc (suc zero)))))) h = refl
month-table false (suc (suc (suc (suc (suc (suc (suc zero))))))) h = refl
month-table false (suc (suc (suc (suc (suc (suc (suc (suc zero)))))))) h = refl
month-table false (suc (suc (suc (suc (suc (suc (suc (suc (suc zero))))))))) h = refl
month-table false (suc (suc (suc (suc (suc (suc (suc (suc (suc (suc zero)))))))))) h = refl
month-table false (suc (suc (suc (suc (suc (suc (suc (suc (suc (suc (suc zero))))))))))) h = refl
month-table false (suc (suc (suc (suc (suc (suc (suc (suc (suc (suc (suc (suc m)))))))))))) h =
    absurd (omega arith)

month-days : (n m : ℕ) → n < 130 → m < 12 → mktime_month n m ≡ day * days_of_months (1970 + n) m
unfolding mktime_month
month-days n m h hm = rw (month-days-leap n m h) (month-table ((n + 2) % 4 == 0) m hm)

-- From 1970 to 2099 kernel_mktime() counts the days of the years, months and days before by the
-- Gregorian calendar, and adds the time of the day (as a 32-bit pattern).
pub mktime-calendar :
    (tm : Tm)
    → tm.tm_year < 200
    → tm.tm_mon < 12
    → let y = tm.tm_year - 70 in
      kernel_mktime tm
      ≡ (day * (days_of_years y + days_of_months (1970 + y) tm.tm_mon + (tm.tm_mday - 1))
          + hour * tm.tm_hour
          + minute * tm.tm_min
          + tm.tm_sec)
        % 2 ^ 32
unfolding kernel_mktime
mktime-calendar tm hy hm = omega (
  arith,
  year-days (tm.tm_year - 70) (omega arith),
  month-days (tm.tm_year - 70) tm.tm_mon (omega arith) hm,
)
