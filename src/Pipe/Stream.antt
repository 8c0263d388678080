-- ===== src/Pipe/Stream.antt =====
-- A pipe that any number of processes write, read and close, one turn after the other.
use intro2os_project.Prelude.{
  ℕ, ◌-◌, ◌≤◌, ◌≡◌, refl, sym, ap, ◌∙◌, Bool, true, false, List, [], ◌++◌, append_assoc, arith,
  length,
}
use intro2os_project.Pipe.{Pipe, Writer, Reader, fresh, close, write_from, write, read, pipe_size}
use intro2os_project.Pipe.Queue.{IsValid, contents, length-contents}
use intro2os_project.Pipe.Refine.{write_from_appends, read_from_takes}

-- The pipe, with all bytes ever stored in it and all ever taken from it.
pub record Stream : Type 0 where
  pub pipe : Pipe
  pub sent : List ℕ
  pub received : List ℕ

-- One turn of any process, whatever it meets in user memory.
pub data Step (s : Stream) : Stream → Type 0 where
  writing :
      (w : Writer) (i n : ℕ)
      → Step s (record s {
        pipe = (write w s.pipe i n).pipe;
        sent = s.sent ++ (write w s.pipe i n).stored;
      })
  reading :
      (r : Reader) (n : ℕ)
      → Step s (record s {
        pipe = (read r s.pipe n).pipe;
        received = s.received ++ (read r s.pipe n).taken;
      })
  closing : (writable : Bool) → Step s (record s { pipe = (close writable s.pipe).0 })

pub data Reach (page : ℕ → ℕ) : Stream → Type 0 where
  start : Reach page (record { pipe = fresh page; sent = []; received = [] })
  later : {s t : Stream} → Reach page s → Step s t → Reach page t

pub record InOrder (s : Stream) : Type 0 where
  pub valid : IsValid s.pipe
  pub split : s.sent ≡ s.received ++ contents s.pipe

pub read_takes :
    (r : Reader) (p : Pipe) (n : ℕ)
    → IsValid p
    → IsValid (read r p n).pipe × (contents p ≡ (read r p n).taken ++ contents (read r p n).pipe)
unfolding read
read_takes r p n v = ground (arith, read_from_takes r p 0 n v)

close-IsValid : (b : Bool) (p : Pipe) → IsValid p → IsValid (close b p).0
unfolding close
close-IsValid true p v = omega arith
close-IsValid false p v = omega arith

close-contents : (b : Bool) (p : Pipe) → contents (close b p).0 ≡ contents p
unfolding close contents
close-contents true p = refl
close-contents false p = refl

Step-InOrder : {s t : Stream} → Step s t → InOrder s → InOrder t
unfolding write
Step-InOrder {s} (writing w i n) o = record {
  valid = (write_from_appends w s.pipe i (n - i) o.valid).0;
  split =
      ap (λ l. l ++ (write_from w s.pipe i (n - i)).stored) o.split
      ∙ append_assoc s.received (contents s.pipe) (write_from w s.pipe i (n - i)).stored
      ∙ ap (λ l. s.received ++ l) (sym (write_from_appends w s.pipe i (n - i) o.valid).1);
}
Step-InOrder {s} (reading r n) o = record {
  valid = (read_takes r s.pipe n o.valid).0;
  split =
      o.split
      ∙ ap (λ l. s.received ++ l) (read_takes r s.pipe n o.valid).1
      ∙ sym (append_assoc s.received (read r s.pipe n).taken (contents (read r s.pipe n).pipe));
}
Step-InOrder {s} (closing b) o = record {
  valid = close-IsValid b s.pipe o.valid;
  split = o.split ∙ ap (λ l. s.received ++ l) (sym (close-contents b s.pipe));
}

Reach-InOrder : {page : ℕ → ℕ} {s : Stream} → Reach page s → InOrder s
unfolding fresh contents
Reach-InOrder start = record {
  valid = record { read_word = omega arith; write_word = omega arith; fits = omega arith };
  split = refl;
}
Reach-InOrder (later r st) = Step-InOrder st (Reach-InOrder r)

-- In every state that turns of writers, readers and closers reach from a new pipe, the bytes stored
-- so far are the bytes taken so far followed by the bytes that wait in the buffer, in order, and at
-- most PIPESIZE bytes wait.
pub fifo :
    {page : ℕ → ℕ} {s : Stream}
    → Reach page s
    → (s.sent ≡ s.received ++ contents s.pipe) × (length (contents s.pipe) ≤ pipe_size)
fifo {s} r =
    ((Reach-InOrder r).split, omega (arith, length-contents s.pipe, (Reach-InOrder r).valid.fits))
