-- ===== src/Tests/Clock.antt =====
-- kernel/sched.c, kernel/mktime.c: two timers and a few ticks; the day this clock was set.
use rv.Common.{◌≡◌, ◌+◌, ◌*◌, ◌%◌, ◌^◌, refl, some, [], ◌∷◌, ◌++◌, map, arith, false, All}
use rv.Kernel.Task.{Task, init_task, modify}
use rv.Kernel.Sched.{Kernel}
use rv.Kernel.Timer.{Timers, bubble, run_timers, expire, do_timer, charge, spend}
use rv.Kernel.Timer.Expiry.{Splits, expiries, IsPending, bubble-expiries, run_timers-expiries}
use rv.Kernel.Mktime.{Tm, day, hour, minute, kernel_mktime}
use rv.Kernel.Mktime.Calendar.{days_of_years, days_of_months, mktime-calendar}

abbrev timers : Timers
timers = record { jiffies = 1; fn = 7 } ∷ record { jiffies = 9; fn = 8 } ∷ []

bubble-expiries_example : Splits 100 5 9 timers (bubble 5 9 timers)
bubble-expiries_example = bubble-expiries 100 5 9 timers (omega arith)

run_timers-expiries_example :
    (expiries 100 timers
      ≡ map (λ fn. (101, fn)) (run_timers timers).0 ++ expiries 101 (run_timers timers).1)
    × All IsPending (run_timers timers).1
run_timers-expiries_example = run_timers-expiries 100 timers (omega arith, (omega arith, tt))

abbrev ticking : Kernel
ticking = record {
  task = some init_task ∷ some (record init_task { pid = 1 }) ∷ [];
  current = 1;
  jiffies = 100;
}

abbrev charged : Task
charged = record init_task { pid = 1; counter = 14; stime = 1 }

abbrev ticked : Kernel
ticked = record ticking { task = some init_task ∷ some charged ∷ [] }

do_timer-ticking :
    do_timer 2 false ticking timers ≡ some (ticked, 7 ∷ [], record { jiffies = 9; fn = 8 } ∷ [])
unfolding do_timer run_timers expire charge spend modify
do_timer-ticking = refl

abbrev leap_day : Tm
leap_day = record {
  tm_sec = 30;
  tm_min = 15;
  tm_hour = 12;
  tm_mday = 29;
  tm_mon = 1;
  tm_year = 124;
}

mktime-calendar_example :
    kernel_mktime leap_day
    ≡ (day * (days_of_years 54 + days_of_months 2024 1 + 28) + hour * 12 + minute * 15 + 30)
      % 2 ^ 32
mktime-calendar_example = mktime-calendar leap_day (omega arith) (omega arith)
