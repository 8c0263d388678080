-- ===== src/Pipe/Wake.antt =====
-- When the two ends of a pipe sleep, and whom they wake.
use intro2os_project.Prelude.{
  ℕ, zero, suc, ◌+◌, ◌-◌, ◌%◌, ◌^◌, ◌≡◌, ◌≢◌, refl, true, false, [], ◌∷◌, none, arith, min,
  Option-cases, length, inl, inr,
}
use intro2os_project.Pipe.{
  Pipe, Writer, Reader, write_from, write, read_from, read, pipe_size, put, wakeup_nwrite,
}
use intro2os_project.Pipe.Queue.{IsValid, count}
use intro2os_project.Pipe.Refine.{put-IsValid}

write_from_room :
    (w : Writer) (p : Pipe) (i k : ℕ)
    → IsValid p
    → p.readopen ≡ true
    → ((j : ℕ) → w.killed j ≡ false)
    → ((j : ℕ) → w.copyin j ≢ none)
    → length (write_from w p i k).stored ≡ min k (pipe_size - count p)
unfolding write_from
write_from_room w p i zero v o alive mapped = omega arith
write_from_room w p i (suc k) v o alive mapped = elim (Option-cases (w.copyin i)) [
  | inl c ↦ absurd (mapped i c)
  | inr (ch, c) ↦
      ground
        (arith, alive i, put-IsValid p ch v, write_from_room w (put p ch) (i + 1) k, alive, mapped)
]

-- A writer that is alive, with a reader open and its bytes mapped, stores as many bytes as fit:
-- the smaller of those asked for from byte `i` on and the free room.
pub write_room :
    (w : Writer) (p : Pipe) (i n : ℕ)
    → IsValid p
    → p.readopen ≡ true
    → ((j : ℕ) → w.killed j ≡ false)
    → ((j : ℕ) → w.copyin j ≢ none)
    → length (write w p i n).stored ≡ min (n - i) (pipe_size - count p)
unfolding write
write_room w p i n v o alive mapped = write_from_room w p i (n - i) v o alive mapped

read_from_wakes : (r : Reader) (p : Pipe) (i k : ℕ) → (read_from r p i k).calls ≡ wakeup_nwrite ∷ []
unfolding read_from
read_from_wakes r p i zero = refl
read_from_wakes r p i (suc k) =
    ground (arith, read_from_wakes r (record p { nread = (p.nread + 1) % 2 ^ 32 }) (i + 1) k)

-- Every turn of a reader that takes a byte wakes the writers, and calls nothing else.
pub read_wakes :
    (r : Reader) (p : Pipe) (n : ℕ)
    → (read r p n).taken ≢ []
    → (read r p n).calls ≡ wakeup_nwrite ∷ []
unfolding read
read_wakes r p n t = ground (arith, read_from_wakes r p 0 n)
