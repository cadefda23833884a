-- ===== src/Tests/Printing.antt =====
-- kernel/vsprintf.c: -7 in a field of five.
use rv.Common.{ℕ, ◌<◌, ◌≤◌, ◌≡◌, ◌⊎◌, ◌-◌, ◌^◌, List, some, none, true, arith}
use rv.Kernel.Vsprintf.{Flags, no_flags, number}
use rv.Kernel.Vsprintf.Digits.{IsPrinted, number-IsPrinted}

abbrev signed : Flags
signed = record no_flags { sign = true }

number-IsPrinted_example :
    ((2 ≤ 10)
      × (10 ≤ 36)
      × ((s : List ℕ) × (number (2 ^ 32 - 7) 10 5 0 signed ≡ some s)
          × IsPrinted (2 ^ 32 - 7) 10 5 0 signed s))
    ⊎ (((10 < 2) ⊎ (36 < 10)) × (number (2 ^ 32 - 7) 10 5 0 signed ≡ none))
number-IsPrinted_example = number-IsPrinted (2 ^ 32 - 7) 10 5 0 signed (omega arith)
