-- ===== src/Block/Buffers.antt =====
-- include/linux/fs.h: struct buffer_head. A buffer is its number in the array from start_buffer on; the
-- data block is a function from its 1024 offsets to bytes.
use rv.Common.{ℕ, ◌/◌, ◌%◌, List, get_or, set, Bool, false}

pub record Buffer : Type 0 where
  pub b_blocknr : ℕ
  pub b_dev : ℕ
  pub b_uptodate : Bool
  pub b_dirt : Bool
  pub b_count : ℕ
  pub b_lock : Bool
  pub b_data : ℕ → ℕ

-- What stands in a slot that buffer_init() has not made.
abbrev pub no_buffer : Buffer
no_buffer = record {
  b_blocknr = 0;
  b_dev = 0;
  b_uptodate = false;
  b_dirt = false;
  b_count = 0;
  b_lock = false;
  b_data = λ _. 0;
}

abbrev pub Buffers : Type 0
Buffers = List Buffer

abbrev pub buffer_at : Buffers → ℕ → Buffer
buffer_at bs i = get_or bs i no_buffer

abbrev pub on_buffer : Buffers → ℕ → (Buffer → Buffer) → Buffers
on_buffer bs i f = set bs i (f (buffer_at bs i))

-- MAJOR and MINOR
abbrev pub major : ℕ → ℕ
major a = a / 256

abbrev pub minor : ℕ → ℕ
minor a = a % 256
