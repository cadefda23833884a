-- ===== src/Kernel/Mktime.antt =====
-- kernel/mktime.c: seconds since 1970 of a broken-down time. The fields are not negative, the year
-- is 70 or more, and the result is a `long`, so its 32-bit pattern.
pub mod Calendar
use rv.Common.{
  ℕ, ◌+◌, ◌-◌, ◌*◌, ◌/◌, ◌%◌, ◌^◌, Bool, ltb, ◌==◌, not, ◌&&◌, if◌then◌else◌, List, [], ◌∷◌, get_or,
}

pub record Tm : Type 0 where
  pub tm_sec : ℕ
  pub tm_min : ℕ
  pub tm_hour : ℕ
  pub tm_mday : ℕ
  pub tm_mon : ℕ
  pub tm_year : ℕ

abbrev pub minute : ℕ
minute = 60

abbrev pub hour : ℕ
hour = 60 * minute

abbrev pub day : ℕ
day = 24 * hour

abbrev pub year : ℕ
year = 365 * day

-- `month[12]`, as if every year were a leap year
abbrev pub month : List ℕ
month =
    0
    ∷ day * 31
    ∷ day * (31 + 29)
    ∷ day * (31 + 29 + 31)
    ∷ day * (31 + 29 + 31 + 30)
    ∷ day * (31 + 29 + 31 + 30 + 31)
    ∷ day * (31 + 29 + 31 + 30 + 31 + 30)
    ∷ day * (31 + 29 + 31 + 30 + 31 + 30 + 31)
    ∷ day * (31 + 29 + 31 + 30 + 31 + 30 + 31 + 31)
    ∷ day * (31 + 29 + 31 + 30 + 31 + 30 + 31 + 31 + 30)
    ∷ day * (31 + 29 + 31 + 30 + 31 + 30 + 31 + 31 + 30 + 31)
    ∷ day * (31 + 29 + 31 + 30 + 31 + 30 + 31 + 31 + 30 + 31 + 30)
    ∷ []

unfoldable pub mktime_year : ℕ → ℕ
mktime_year y = year * y + day * ((y + 1) / 4)

-- The months before: February has 29 days only if `(year+2)%4` is 0.
unfoldable pub mktime_month : ℕ → ℕ → ℕ
mktime_month y mon =
    if ltb 1 mon && not ((y + 2) % 4 == 0) then get_or month mon 0 - day else get_or month mon 0

unfoldable pub kernel_mktime : Tm → ℕ
unfolding mktime_year mktime_month
kernel_mktime tm =
    let y = tm.tm_year - 70 in
    (mktime_year y
      + mktime_month y tm.tm_mon
      + day * (tm.tm_mday - 1)
      + hour * tm.tm_hour
      + minute * tm.tm_min
      + tm.tm_sec)
    % 2 ^ 32
