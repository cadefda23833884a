-- ===== src/Tests/Pipes.antt =====
-- fs/pipe.c: a pipe whose window goes over the end of its page.
use rv.Common.{ℕ, ◌%◌, List, [], ◌∷◌, arith}
use rv.Fs.Pipe.{Pipe, write_pipe, read_pipe}
use rv.Fs.Pipe.Queue.{IsPipe, Wrote, Got, write_pipe-Wrote, read_pipe-Got}

abbrev pipe : Pipe
pipe = record { head = 4095; tail = 4093; users = 2; page = λ i. i % 256 }

pipe-IsPipe : IsPipe pipe
pipe-IsPipe = record { head_in = omega arith; tail_in = omega arith }

abbrev text : List ℕ
text = 104 ∷ 105 ∷ 10 ∷ []

write_pipe-Wrote_example : Wrote pipe text 0 (write_pipe 4 pipe text 0)
write_pipe-Wrote_example = write_pipe-Wrote 4 pipe text 0 pipe-IsPipe (omega arith)

read_pipe-Got_example : Got pipe 5 [] (read_pipe 6 pipe 5 [])
read_pipe-Got_example = read_pipe-Got 6 pipe 5 [] pipe-IsPipe (omega arith)
