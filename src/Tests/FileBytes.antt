-- ===== src/Tests/FileBytes.antt =====
-- fs/file_dev.c and fs/read_write.c: a file of one block, and a seek in it.
use rv.Common.{ℕ, none, some, true, false, List, [], ◌∷◌, ◌==◌, if◌then◌else◌, arith}
use rv.Fs.Inode.{Disk}
use rv.Fs.FileDev.{Node, file_read, file_write}
use rv.Fs.FileDev.Content.{IsFileRead, file_read-IsFileRead}
use rv.Fs.FileDev.Growth.{IsFileWrite, file_write-IsFileWrite}
use rv.Fs.Seek.{File, negsuc, sys_lseek}
use rv.Fs.Seek.Position.{IsSought, sys_lseek-IsSought}

abbrev zones : List ℕ
zones = 30 ∷ 0 ∷ 0 ∷ 0 ∷ 0 ∷ 0 ∷ 0 ∷ 0 ∷ 0 ∷ []

-- Block 30 holds 256 words that count up.
abbrev disk : Disk
disk = record {
  super = record { s_nzones = 100; s_firstdatazone = 20; s_zmap = [] };
  cached = λ _. none;
  readable = λ b. b == 30;
  word = λ b i. if b == 30 then i else 0;
}

file_read-IsFileRead_example : IsFileRead zones disk 1020 8 (file_read zones disk 1020 8)
file_read-IsFileRead_example = file_read-IsFileRead zones disk 1020 8

abbrev node : Node
node = record { zones = zones; i_size = 2; disk = disk }

abbrev bytes : List ℕ
bytes = 7 ∷ 8 ∷ 9 ∷ []

file_write-IsFileWrite_example : IsFileWrite true 0 2 bytes node (file_write true bytes 0 node)
file_write-IsFileWrite_example =
    file_write-IsFileWrite true bytes 0 node (omega arith, (omega arith, (omega arith, tt)))

abbrev file : File
file = record {
  f_mode = 3;
  f_pos = 10;
  i_mode = 0x8000;
  i_dev = 0x101;
  i_size = 100;
  i_pipe = false;
  i_zone0 = 30;
}

sys_lseek-IsSought_example : IsSought 3 file (negsuc 19) 2 (sys_lseek 3 (some file) (negsuc 19) 2)
sys_lseek-IsSought_example =
    sys_lseek-IsSought 3 file (negsuc 19) 2 (omega arith, omega arith) (omega arith, omega arith)
      (omega arith, omega arith)
