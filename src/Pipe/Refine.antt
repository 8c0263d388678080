-- ===== src/Pipe/Refine.antt =====
-- A turn of `pipewrite` appends to the queue of a pipe, a turn of `piperead` takes from its front.
use intro2os_project.Prelude.{
  ℕ, zero, suc, ◌+◌, ◌%◌, ◌<◌, ◌≡◌, inl, inr, refl, ap, sym, false, List, [], ◌∷◌, ◌++◌, append-nil,
  append_assoc, arith, Option-cases, window-update, window-mod, u32,
}
use intro2os_project.Pipe.{
  Pipe, Writer, Reader, pipe_size, put, is_full, is_empty, write_from, read_from,
}
use intro2os_project.Pipe.Queue.{IsValid, contents, count}

-- The test of `pipewrite` for a full buffer, and of `piperead` for an empty one.
is_full_iff : (p : Pipe) → IsValid p → is_full p ≡ false → count p < pipe_size
is_full_iff p v h = ground arith

put-count : (p : Pipe) (x : ℕ) → IsValid p → count p < pipe_size → count (put p x) ≡ suc (count p)
put-count p x v h = omega arith

pub put-IsValid : (p : Pipe) (x : ℕ) → IsValid p → is_full p ≡ false → IsValid (put p x)
put-IsValid p x v h = ground arith

pub contents-put :
    (p : Pipe) (x : ℕ) → IsValid p → is_full p ≡ false → contents (put p x) ≡ contents p ++ (x ∷ [])
unfolding contents
contents-put p x v h = rw (put-count p x v (is_full_iff p v h)) (
    window-update pipe_size p.bytes p.nread (count p) (p.nwrite % pipe_size) x (is_full_iff p v h)
      (omega arith))

-- The pipe behind `nread++`.
abbrev behind : Pipe → Pipe
behind p = record p { nread = u32 (p.nread + 1) }

behind-count : (p : Pipe) → IsValid p → is_empty p ≡ false → count p ≡ suc (count (behind p))
behind-count p v h = ground arith

behind-IsValid : (p : Pipe) → IsValid p → is_empty p ≡ false → IsValid (behind p)
behind-IsValid p v h = ground arith

contents-behind :
    (p : Pipe)
    → IsValid p
    → is_empty p ≡ false
    → contents p ≡ p.bytes (p.nread % pipe_size) ∷ contents (behind p)
unfolding contents
contents-behind p v h = rw (behind-count p v h) (
    ap (λ (l : List ℕ). p.bytes (p.nread % pipe_size) ∷ l)
      (window-mod pipe_size p.bytes (p.nread + 1) (u32 (p.nread + 1)) (count (behind p))
        (omega arith)))

-- A turn of `pipewrite` keeps the invariant and the flags, and the queue grows by exactly the bytes stored.
pub write_from_appends :
    (w : Writer) (p : Pipe) (i k : ℕ)
    → IsValid p
    → IsValid (write_from w p i k).pipe
      × (contents (write_from w p i k).pipe ≡ contents p ++ (write_from w p i k).stored)
unfolding write_from
write_from_appends w p i zero v = (v, sym (append-nil (contents p)))
write_from_appends w p i (suc k) v = elim (Option-cases (w.copyin i)) [
  | inl c ↦ ground (arith, append-nil (contents p))
  | inr (ch, c) ↦ ground (
    arith,
    append-nil (contents p),
    put-IsValid p ch v,
    contents-put p ch v,
    write_from_appends w (put p ch) (i + 1) k,
    append_assoc (contents p) (ch ∷ []) (write_from w (put p ch) (i + 1) k).stored,
  )
]

-- A turn of `piperead` keeps the invariant, and what it takes is the front of the queue.
pub read_from_takes :
    (r : Reader) (p : Pipe) (i k : ℕ)
    → IsValid p
    → IsValid (read_from r p i k).pipe
      × (contents p ≡ (read_from r p i k).taken ++ contents (read_from r p i k).pipe)
unfolding read_from
read_from_takes r p i zero v = (v, refl)
read_from_takes r p i (suc k) v =
    ground (arith, behind-IsValid p v, contents-behind p v, read_from_takes r (behind p) (i + 1) k)
