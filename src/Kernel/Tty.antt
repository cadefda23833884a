-- ===== src/Kernel/Tty.antt =====
-- kernel/chr_drv/tty_io.c: tty_intr() and copy_to_cooked(), with the queues of include/linux/tty.h. A
-- character is its byte; `signed char c` is below 32 also for the bytes from 128 on. `write` of a tty is
-- a function on it.
use mathlib.Core.Option
use rv.Common.{
  ℕ, zero, suc, ◌+◌, ◌-◌, ◌%◌, Option, none, some, Bool, true, false, ltb, leb, ◌==◌, not, ◌&&◌,
  ◌||◌, if◌then◌else◌, map,
}
use rv.Common.Bits.{set_bit}
use rv.Kernel.Task.{Tasks, is_pos}

abbrev pub tty_buf_size : ℕ
tty_buf_size = 1024

-- `lines` is the field data.
pub record TtyQueue : Type 0 where
  pub lines : ℕ
  pub head : ℕ
  pub tail : ℕ
  pub buf : ℕ → ℕ

-- INC and DEC
abbrev pub inc : ℕ → ℕ
inc a = (a + 1) % tty_buf_size

abbrev pub dec : ℕ → ℕ
dec a = (a + tty_buf_size - 1) % tty_buf_size

abbrev pub is_empty : TtyQueue → Bool
is_empty q = q.head == q.tail

-- LEFT
abbrev pub left : TtyQueue → ℕ
left q = (q.tail + tty_buf_size - q.head + tty_buf_size - 1) % tty_buf_size

abbrev pub is_full : TtyQueue → Bool
is_full q = left q == 0

abbrev pub last : TtyQueue → ℕ
last q = q.buf (dec q.head)

abbrev pub putch : ℕ → TtyQueue → TtyQueue
putch c q = record q { head = inc q.head; buf = λ i. if q.head == i then c % 256 else q.buf i }

-- The flags of termios that copy_to_cooked() reads, and the characters of c_cc.
pub record Termios : Type 0 where
  pub icrnl : Bool
  pub igncr : Bool
  pub inlcr : Bool
  pub iuclc : Bool
  pub icanon : Bool
  pub isig : Bool
  pub echo : Bool
  pub echoe : Bool
  pub echoctl : Bool
  pub intr_char : ℕ
  pub quit_char : ℕ
  pub erase_char : ℕ
  pub kill_char : ℕ
  pub eof_char : ℕ
  pub start_char : ℕ
  pub stop_char : ℕ

-- A tty_struct, and the task table that tty_intr() writes.
pub record Tty : Type 0 where
  pub termios : Termios
  pub pgrp : ℕ
  pub stopped : Bool
  pub read_q : TtyQueue
  pub write_q : TtyQueue
  pub secondary : TtyQueue
  pub task : Tasks

-- The comparison of the signed c with an unsigned character.
abbrev pub is_char : ℕ → ℕ → Bool
is_char c x = ltb c 128 && c == x

abbrev pub is_control : ℕ → Bool
is_control c = ltb c 32 || leb 128 c

abbrev pub to_lower : ℕ → ℕ
to_lower c = if leb 65 c && leb c 90 then c + 32 else c

-- For the mask with the bit `k`.
unfoldable pub tty_intr : ℕ → Tty → Tty
tty_intr k tty =
    if is_pos tty.pgrp
    then record tty {
      task =
          map
            (Option.map
              (λ t. if t.pgrp == tty.pgrp then record t { signal = set_bit t.signal k } else t))
            tty.task;
    }
    else tty

abbrev pub echo_char : ℕ → Tty → Tty
echo_char c tty = record tty { write_q = putch c tty.write_q }

abbrev pub add_char : ℕ → Tty → Tty
add_char c tty = record tty { secondary = putch c tty.secondary }

abbrev pub drop_last : Tty → Tty
drop_last tty = record tty { secondary = record tty.secondary { head = dec tty.secondary.head } }

-- `EMPTY(tty->secondary) || (c=LAST(tty->secondary))==10 || c==EOF_CHAR(tty)`
abbrev pub at_line_start : Tty → Bool
at_line_start tty =
    is_empty tty.secondary
    || last tty.secondary == 10
    || is_char (last tty.secondary) tty.termios.eof_char

-- 127 for each column of the character.
abbrev pub echo_rubout : ℕ → Tty → Tty
echo_rubout c tty = echo_char 127 (if is_control c then echo_char 127 tty else tty)

-- Blank, one column back.
abbrev pub echo_erase : Tty → Tty
echo_erase tty = echo_char 8 (echo_char 32 (echo_char 8 tty))

-- The loop for KILL_CHAR, over at most the 1024 characters of the queue.
unfoldable pub kill_line : ℕ → (Tty → Tty) → Tty → Tty
kill_line zero write tty = tty
kill_line (suc fuel) write tty =
    let rest = kill_line fuel write (
      drop_last (if tty.termios.echo then write (echo_rubout (last tty.secondary) tty) else tty)) in
    if at_line_start tty then tty else rest

-- For ERASE_CHAR and backspace.
unfoldable pub erase_one : (Tty → Tty) → Tty → Tty
erase_one write tty =
    let c = last tty.secondary in
    if at_line_start tty
    then tty
    else drop_last (
        if tty.termios.echo
        then write (
            if tty.termios.echoe
            then (if is_control c then echo_erase (echo_erase tty) else echo_erase tty)
            else echo_rubout c tty)
        else tty)

unfoldable pub echo_input : (Tty → Tty) → ℕ → Tty → Tty
echo_input write c tty =
    if not tty.termios.echo
    then tty
    else write (
        if c == 10
        then echo_char 13 (echo_char 10 tty)
        else if is_control c
        then (if tty.termios.echoctl then echo_char (c + 64) (echo_char 94 tty) else tty)
        else echo_char c tty)

abbrev pub count_line : ℕ → Tty → Tty
count_line c tty =
    if c == 10 || is_char c tty.termios.eof_char
    then record tty { secondary = record tty.secondary { lines = tty.secondary.lines + 1 } }
    else tty

-- The end of a round, for a character that is no control of the line.
unfoldable pub accept_char : (Tty → Tty) → ℕ → Tty → Tty
accept_char write c tty =
    let t = tty.termios in
    if t.isig && is_char c t.intr_char
    then tty_intr 1 tty
    else if t.isig && is_char c t.quit_char
    then tty_intr 2 tty
    else add_char c (echo_input write c (count_line c tty))

-- A round with the character c, after its translation.
unfoldable pub cook_char : (Tty → Tty) → ℕ → Tty → Tty
cook_char write c tty =
    let t = tty.termios in
    if not t.icanon
    then accept_char write c tty
    else if is_char c t.kill_char
    then kill_line tty_buf_size write tty
    else if is_char c t.erase_char || c == 8
    then erase_one write tty
    else if is_char c t.stop_char
    then record tty { stopped = true }
    else if is_char c t.start_char
    then record tty { stopped = false }
    else accept_char write c tty

-- CR, NL and upper case; `none` for a CR that is dropped.
unfoldable pub translate : Termios → ℕ → Option ℕ
translate t c =
    if c == 13
    then if t.icrnl then some 10 else if t.igncr then none else some 13
    else if c == 10 && t.inlcr
    then some 13
    else some (if t.iuclc then to_lower c else c)

-- A round: GETCH, and what is done with the character.
unfoldable pub cook_round : (Tty → Tty) → Tty → Tty
cook_round write tty =
    let got : Tty = record tty { read_q = record tty.read_q { tail = inc tty.read_q.tail } } in
    elim (translate tty.termios (tty.read_q.buf tty.read_q.tail)) [
      | none ↦ got
      | some c ↦ cook_char write c got
    ]

-- The loop, with one round for each character of the read queue.
unfoldable pub copy_to_cooked : ℕ → (Tty → Tty) → Tty → Tty
copy_to_cooked zero write tty = tty
copy_to_cooked (suc fuel) write tty =
    let rest = copy_to_cooked fuel write (cook_round write tty) in
    if is_empty tty.read_q || is_full tty.secondary then tty else rest
