-- ===== src/Fs/Pipe.antt =====
-- fs/pipe.c: read_pipe() and write_pipe(). The page of the pipe is a function from its 4096 offsets to
-- bytes; the user's buffer is a list of bytes. A call that would sleep ends in `sleeps`, with what
-- it has moved so far, and goes on from there when it is woken.
pub mod Window
pub mod Queue
use rv.Common.{
  ℕ, zero, suc, ◌+◌, ◌-◌, ◌%◌, Bool, true, false, ltb, ◌==◌, not, if◌then◌else◌, List, [], ◌∷◌,
  ◌++◌, length, drop, take,
}

abbrev pub page_size : ℕ
page_size = 4096

-- PIPE_HEAD and PIPE_TAIL are i_zone[0] and i_zone[1]; `users` is i_count.
pub record Pipe : Type 0 where
  pub head : ℕ
  pub tail : ℕ
  pub users : ℕ
  pub page : ℕ → ℕ

-- PIPE_SIZE
abbrev pub pipe_size : Pipe → ℕ
pipe_size p = (p.head + page_size - p.tail) % page_size

abbrev pub at_most : ℕ → ℕ → ℕ
at_most x bound = if ltb bound x then bound else x

-- `while (chars-->0) page[size++] = get_fs_byte(buf++)`
unfoldable pub put_bytes : ℕ → ℕ → List ℕ → (ℕ → ℕ) → ℕ → ℕ
put_bytes zero pos src page = page
put_bytes (suc n) pos [] page = page
put_bytes (suc n) pos (b ∷ bs) page = put_bytes n (pos + 1) bs (λ i. if pos == i then b else page i)

-- `while (chars-->0) put_fs_byte(page[size++],buf++)`
unfoldable pub get_bytes : ℕ → ℕ → (ℕ → ℕ) → List ℕ
get_bytes zero pos page = []
get_bytes (suc n) pos page = page pos ∷ get_bytes n (pos + 1) page

-- How many bytes a round of the loop moves.
abbrev pub chunk : ℕ → ℕ → ℕ → ℕ
chunk room count size = at_most (at_most room count) size

unfoldable pub write_chunk : ℕ → List ℕ → Pipe → Pipe
write_chunk chars src p = record p {
  head = (p.head + chars) % page_size;
  page = put_bytes chars p.head src p.page;
}

unfoldable pub read_chunk : ℕ → Pipe → Pipe
read_chunk chars p = record p { tail = (p.tail + chars) % page_size }

pub data Written : Type 0 where
  -- the value returned
  returns : ℕ → Pipe → Written
  -- no reader: SIGPIPE, and -1 if nothing was written before
  broken : ℕ → Pipe → Written
  -- the pipe is full: the bytes written so far and those left
  sleeps : ℕ → List ℕ → Pipe → Written
  out_of_fuel : Written

unfoldable pub write_pipe : ℕ → Pipe → List ℕ → ℕ → Written
write_pipe zero p src written = out_of_fuel
write_pipe (suc fuel) p src written =
    let size = page_size - 1 - pipe_size p in
    let chars = chunk (page_size - p.head) (length src) size in
    let rest = write_pipe fuel (write_chunk chars src p) (drop chars src) (written + chars) in
    if length src == 0
    then returns written p
    else if size == 0
    then (if not (p.users == 2) then broken written p else sleeps written src p)
    else rest

pub data Read : Type 0 where
  returns : List ℕ → Pipe → Read
  -- the pipe is empty: the bytes read so far and the count left
  sleeps : List ℕ → ℕ → Pipe → Read
  out_of_fuel : Read

unfoldable pub read_pipe : ℕ → Pipe → ℕ → List ℕ → Read
read_pipe zero p count out = out_of_fuel
read_pipe (suc fuel) p count out =
    let size = pipe_size p in
    let chars = chunk (page_size - p.tail) count size in
    let rest =
      read_pipe fuel (read_chunk chars p) (count - chars) (out ++ get_bytes chars p.tail p.page) in
    if count == 0
    then returns out p
    else if size == 0
    then (if not (p.users == 2) then returns out p else sleeps out count p)
    else rest
