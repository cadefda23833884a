-- ===== src/Tests/Descriptors.antt =====
-- fs/fcntl.c and fs/open.c: a task with two open descriptors.
use rv.Common.{
  true, ℕ, suc, zero, ◌<◌, ◌≡◌, refl, Option, some, none, [], ◌∷◌, length, replicate, arith,
  some-inj, get_or-replicate, sym, ◌∙◌,
}
use rv.Fs.Files.{Files, file_at, dupfd}
use rv.Fs.Open.{named, sys_open}
use rv.Fs.Open.Slots.{IsOpened, sys_open-IsOpened}
use rv.Fs.Files.Dup.{Duplicates, dupfd-Duplicates}

abbrev files : Files
files = record {
  filp = some 1 ∷ some 0 ∷ replicate 18 none;
  close_on_exec = 3;
  f_count = 1 ∷ 1 ∷ [];
  f_flags = 0 ∷ 0 ∷ [];
}

in_table : (fd f : ℕ) → file_at files fd ≡ some f → f < length files.f_count
in_table zero f e = let q : 1 ≡ f = some-inj e in omega arith
in_table (suc zero) f e = let q : 0 ≡ f = some-inj e in omega arith
in_table (suc (suc fd)) f e = cc (sym (get_or-replicate 18 fd (nothing)) ∙ e)
  where
    nothing : Option ℕ
    nothing = none

dupfd-Duplicates_example : Duplicates 0 1 files (dupfd 0 1 files)
dupfd-Duplicates_example = dupfd-Duplicates 0 1 files (record { all = refl; in_table = in_table })

sys_open-IsOpened_example : IsOpened files (
    sys_open true none 2
      (named (record { i_mode = 0x2180; i_uid = 0; i_gid = 0; i_zone0 = 0x401 }))
      files)
sys_open-IsOpened_example =
    sys_open-IsOpened true none 2
      (named (record { i_mode = 0x2180; i_uid = 0; i_gid = 0; i_zone0 = 0x401 })) files
