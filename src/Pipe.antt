-- ===== src/Pipe.antt =====
-- kernel/pipe.c: the ring buffer of a pipe, and what its two ends do while they hold `pi->lock`.
-- A call of `sleep` gives the lock up, so each call of `pipewrite` or `piperead` is a chain of turns:
-- from the start, or from a wakeup, to the next `sleep` or to the return.
pub mod Queue
pub mod Refine
pub mod Stream
pub mod Wake
mod Tests
use intro2os_project.Prelude.{
  ℕ, zero, suc, ◌+◌, ◌-◌, ◌%◌, Bool, true, false, not, ◌&&◌, ◌||◌, Option, none, some, List, [],
  ◌∷◌, ◌==◌, if◌then◌else◌, update, u32,
}

-- PIPESIZE
abbrev pub pipe_size : ℕ
pipe_size = 512

-- `struct pipe`, less its lock: every function below holds that.
pub record Pipe : Type 0 where
  pub bytes : ℕ → ℕ
  pub nread : ℕ
  pub nwrite : ℕ
  pub readopen : Bool
  pub writeopen : Bool

-- What a turn asks of the rest of the kernel. The channels are `&pi->nread` and `&pi->nwrite`.
pub data Call : Type 0 where
  wakeup_nread wakeup_nwrite free_page : Call

-- How a turn ends: in `sleep`, with the loop variable `i`, or with the value returned (`none`: -1).
pub data End : Type 0 where
  asleep : ℕ → End
  returned : Option ℕ → End

-- The part of `pipealloc` that sets the new buffer up.
unfoldable pub fresh : (ℕ → ℕ) → Pipe
fresh page = record { bytes = page; nread = 0; nwrite = 0; readopen = true; writeopen = true }

-- `pipeclose`
unfoldable pub close : Bool → Pipe → Pipe × List Call
close writable p =
    let q = if writable then record p { writeopen = false } else record p { readopen = false } in
    let woken = if writable then wakeup_nread else wakeup_nwrite in
    (q, woken ∷ (if not q.readopen && not q.writeopen then free_page ∷ [] else []))

-- `pi->data[pi->nwrite++ % PIPESIZE] = ch`
abbrev pub put : Pipe → ℕ → Pipe
put p ch = record p {
  bytes = update p.bytes (p.nwrite % pipe_size) ch;
  nwrite = u32 (p.nwrite + 1);
}

abbrev pub is_full : Pipe → Bool
is_full p = p.nwrite == u32 (p.nread + pipe_size)

abbrev pub is_empty : Pipe → Bool
is_empty p = p.nread == p.nwrite

-- What a turn meets outside the pipe: whether the process has been killed when it stands at byte
-- `i`, and the user's memory: the byte that `copyin` fetches, or the failure of it or of `copyout`.
pub record Writer : Type 0 where
  pub killed : ℕ → Bool
  pub copyin : ℕ → Option ℕ

pub record Reader : Type 0 where
  pub killed : Bool
  pub copyout : ℕ → Bool

-- A turn of `pipewrite`: its end, the bytes that it stored, the pipe, and its calls in order.
pub record Written : Type 0 where
  pub end : End
  pub stored : List ℕ
  pub pipe : Pipe
  pub calls : List Call

-- The loop of `pipewrite` at `i`, with `k = n - i` bytes to go.
unfoldable pub write_from : Writer → Pipe → ℕ → ℕ → Written
write_from w p i zero = record {
  end = returned (some i);
  stored = [];
  pipe = p;
  calls = wakeup_nread ∷ [];
}
write_from w p i (suc k) = elim (not p.readopen || w.killed i) [
  | true ↦ record { end = returned none; stored = []; pipe = p; calls = [] }
  | false ↦ elim (is_full p) [
    | true ↦ record { end = asleep i; stored = []; pipe = p; calls = wakeup_nread ∷ [] }
    | false ↦ elim (w.copyin i) [
      | none ↦ record { end = returned (some i); stored = []; pipe = p; calls = wakeup_nread ∷ [] }
      | some ch ↦
          let rest = write_from w (put p ch) (i + 1) k in record rest { stored = ch ∷ rest.stored }
    ]
  ]
]

-- `pipewrite` of `n` bytes, from its start (`i = 0`) or from a wakeup at byte `i`.
unfoldable pub write : Writer → Pipe → ℕ → ℕ → Written
write w p i n = write_from w p i (n - i)

-- A turn of `piperead`: `taken` are the bytes that left the buffer, `copied` those among them that
-- reached the user.
pub record Taken : Type 0 where
  pub end : End
  pub taken : List ℕ
  pub copied : List ℕ
  pub pipe : Pipe
  pub calls : List Call

-- The `for` loop of `piperead` at `i`, with `k = n - i` bytes to go, and the wakeup behind it.
unfoldable pub read_from : Reader → Pipe → ℕ → ℕ → Taken
read_from r p i zero = record {
  end = returned (some i);
  taken = [];
  copied = [];
  pipe = p;
  calls = wakeup_nwrite ∷ [];
}
read_from r p i (suc k) = elim (is_empty p) [
  | true ↦ record {
    end = returned (some i);
    taken = [];
    copied = [];
    pipe = p;
    calls = wakeup_nwrite ∷ [];
  }
  | false ↦
      let ch = p.bytes (p.nread % pipe_size) in
      let q = record p { nread = u32 (p.nread + 1) } in
      elim (r.copyout i) [
        | true ↦
            let rest = read_from r q (i + 1) k in
            record rest { taken = ch ∷ rest.taken; copied = ch ∷ rest.copied }
        | false ↦ record {
          end = returned (some i);
          taken = ch ∷ [];
          copied = [];
          pipe = q;
          calls = wakeup_nwrite ∷ [];
        }
      ]
]

-- `piperead` of `n` bytes, from its start or from a wakeup: both stand at the head of the `while`.
unfoldable pub read : Reader → Pipe → ℕ → Taken
read r p n = elim (is_empty p && p.writeopen) [
  | true ↦ record {
    end = if r.killed then returned none else asleep 0;
    taken = [];
    copied = [];
    pipe = p;
    calls = [];
  }
  | false ↦ read_from r p 0 n
]
