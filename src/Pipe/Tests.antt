-- ===== src/Pipe/Tests.antt =====
-- Runs of a pipe, and its theorems at concrete pipes.
use intro2os_project.Prelude.{
  ℕ, ◌+◌, ◌≤◌, ◌≡◌, refl, true, false, [], ◌∷◌, ◌++◌, some, arith, length,
}
use intro2os_project.Pipe.{
  Pipe, Writer, Reader, wakeup_nwrite, free_page, asleep, returned, fresh, close, write_from, write,
  read_from, read, pipe_size,
}
use intro2os_project.Pipe.Queue.{IsValid, contents}
use intro2os_project.Pipe.Stream.{Stream, writing, reading, start, later, fifo}

abbrev page : ℕ → ℕ
page _ = 0

abbrev writer : Writer
writer = record { killed = λ _. false; copyin = λ i. some (i + 65) }

abbrev reader : Reader
reader = record { killed = false; copyout = λ _. true }

abbrev opened : Pipe
opened = fresh page

abbrev filled : Pipe
filled = (write writer opened 0 600).pipe

written_three :
    ((write writer opened 0 3).end ≡ returned (some 3))
    × (contents (write writer opened 0 3).pipe ≡ 65 ∷ 66 ∷ 67 ∷ [])
unfolding write write_from fresh contents
written_three = (refl, refl)

sleeps_when_full : (write writer opened 0 600).end ≡ asleep 512
unfolding write write_from fresh
sleeps_when_full = refl

read_two : (read reader (write writer opened 0 3).pipe 2).copied ≡ 65 ∷ 66 ∷ []
unfolding write write_from read read_from fresh
read_two = refl

closed_twice : (close false (close true opened).0).1 ≡ wakeup_nwrite ∷ free_page ∷ []
unfolding close fresh
closed_twice = refl

opened-IsValid : IsValid opened
unfolding fresh
opened-IsValid = omega arith

abbrev begun : Stream
begun = record { pipe = opened; sent = []; received = [] }

abbrev sent_three : Stream
sent_three = record {
  pipe = (write writer opened 0 3).pipe;
  sent = [] ++ (write writer opened 0 3).stored;
  received = [];
}

abbrev received_two : Stream
received_two = record {
  pipe = (read reader sent_three.pipe 2).pipe;
  sent = sent_three.sent;
  received = [] ++ (read reader sent_three.pipe 2).taken;
}

fifo_example :
    (received_two.sent ≡ received_two.received ++ contents received_two.pipe)
    × (length (contents received_two.pipe) ≤ pipe_size)
fifo_example = fifo {page = page} (later (later start (writing writer 0 3)) (reading reader 2))
