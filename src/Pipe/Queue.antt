-- ===== src/Pipe/Queue.antt =====
-- What a pipe promises: a queue of at most PIPESIZE bytes, the oldest first.
use intro2os_project.Prelude.{
  ℕ, ◌≤◌, ◌<◌, ◌^◌, List, window, length, sub32, ◌≡◌, refl, ap, zero, suc, ◌+◌,
}
use intro2os_project.Pipe.{Pipe, pipe_size}

-- The number of bytes in the pipe: `nwrite - nread` on `uint`.
abbrev pub count : Pipe → ℕ
count p = sub32 p.nwrite p.nread

-- The counters are `uint` values, at most PIPESIZE apart.
pub record IsValid (p : Pipe) : Type 0 where
  pub read_word : p.nread < 2 ^ 32
  pub write_word : p.nwrite < 2 ^ 32
  pub fits : count p ≤ pipe_size

-- The bytes that wait in the pipe.
unfoldable pub contents : Pipe → List ℕ
contents p = window pipe_size p.bytes p.nread (count p)

length-window : (f : ℕ → ℕ) (h n : ℕ) → length (window pipe_size f h n) ≡ n
length-window f h zero = refl
length-window f h (suc n) = ap suc (length-window f (h + 1) n)

pub length-contents : (p : Pipe) → length (contents p) ≡ count p
unfolding contents
length-contents p = length-window p.bytes p.nread (count p)
