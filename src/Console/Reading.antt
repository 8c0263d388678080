-- ===== src/Console/Reading.antt =====
-- The readers of the console: what they take, and where they stop.
use intro2os_project.Prelude.{
  ℕ, zero, suc, ◌+◌, ◌-◌, ◌%◌, ◌≤◌, ◌≡◌, ◌≢◌, refl, ap, false, some, List, [], ◌∷◌, ◌++◌, ◌==◌,
  sub32, u32, arith, window, window-mod, length,
}
use intro2os_project.Console.{
  Cons, Reader, asleep, returned, consoleread, read_from, input_buf_size, newline, ctrl_d,
}
use intro2os_project.Console.Editing.{IsValid}

-- The bytes that the readers may take.
unfoldable pub ready : Cons → List ℕ
ready c = window input_buf_size c.buf c.r (sub32 c.w c.r)

-- The buffer behind `cons.r++`.
abbrev behind : Cons → Cons
behind c = record c { r = u32 (c.r + 1) }

behind-IsValid : (c : Cons) → IsValid c → (c.r == c.w) ≡ false → IsValid (behind c)
behind-IsValid c v h = record {
  r_word = omega arith;
  w_word = v.w_word;
  e_word = v.e_word;
  order = ground (arith, v.order, v.fits);
  fits = ground (arith, v.order, v.fits);
  open_line = v.open_line;
}

ready-behind :
    (c : Cons)
    → IsValid c
    → (c.r == c.w) ≡ false
    → ready c ≡ c.buf (c.r % input_buf_size) ∷ ready (behind c)
unfolding ready
ready-behind c v h = rw (count c v h) (
    ap (λ (l : List ℕ). c.buf (c.r % input_buf_size) ∷ l)
      (window-mod input_buf_size c.buf (c.r + 1) (u32 (c.r + 1)) (sub32 c.w (u32 (c.r + 1)))
        (omega arith)))
  where
    count :
        (c : Cons)
        → IsValid c
        → (c.r == c.w) ≡ false
        → sub32 c.w c.r ≡ suc (sub32 c.w (u32 (c.r + 1)))
    count c v h = ground arith

read_from_takes :
    (rd : Reader) (target n : ℕ) (c : Cons)
    → IsValid c
    → IsValid (read_from rd target n c).cons
      × (ready c ≡ (read_from rd target n c).taken ++ ready (read_from rd target n c).cons)
unfolding read_from
read_from_takes rd target zero c v = (v, refl)
read_from_takes rd target (suc k) c v =
    ground (
      arith,
      v.r_word,
      behind-IsValid c v,
      ready-behind c v,
      read_from_takes rd target k (behind c),
    )

-- No end-of-file mark, and a newline at most at the end.
unfoldable pub IsLine : List ℕ → Type 0
IsLine [] = Unit {0}
IsLine (x ∷ xs) = (x ≢ ctrl_d) × ((x ≡ newline → xs ≡ []) × IsLine xs)

read_from-IsLine : (rd : Reader) (target n : ℕ) (c : Cons) → IsLine (read_from rd target n c).copied
unfolding read_from IsLine
read_from-IsLine rd target zero c = tt
read_from-IsLine rd target (suc k) c = ground (arith, read_from-IsLine rd target k (behind c))

read_from-returned :
    (rd : Reader) (target n : ℕ) (c : Cons) (m : ℕ)
    → n ≤ target
    → (read_from rd target n c).end ≡ returned (some m)
    → m ≡ target - n + length (read_from rd target n c).copied
unfolding read_from
read_from-returned rd target zero c m h e = ground arith
read_from-returned rd target (suc k) c m h e =
    ground (arith, read_from-returned rd target k (behind c) m)

read_from-asleep :
    (rd : Reader) (target n : ℕ) (c : Cons) (m : ℕ)
    → IsValid c
    → (read_from rd target n c).end ≡ asleep m
    → (ready (read_from rd target n c).cons ≡ [])
      × (rd.killed ≡ false)
      × (n ≡ m + length (read_from rd target n c).copied)
unfolding read_from ready
read_from-asleep rd target zero c m v e = ground arith
read_from-asleep rd target (suc k) c m v e =
    ground (arith, v.r_word, behind-IsValid c v, read_from-asleep rd target k (behind c) m)

-- A turn of `consoleread` on a valid buffer takes from the front of the bytes handed to the
-- readers. What it copies has no end-of-file mark, and a newline only at its end. The value
-- returned is the number of bytes copied, and a reader sleeps only if it has taken all that is
-- there.
pub consoleread-IsLine :
    (rd : Reader) (n : ℕ) (c : Cons)
    → IsValid c
    → let t = consoleread rd n c in
      IsValid t.cons
      × (ready c ≡ t.taken ++ ready t.cons)
      × IsLine t.copied
      × ((m : ℕ) → t.end ≡ returned (some m) → m ≡ length t.copied)
      × ((m : ℕ) → t.end ≡ asleep m → (ready t.cons ≡ []) × (n ≡ m + length t.copied))
unfolding consoleread
consoleread-IsLine rd n c v = (
  (read_from_takes rd n n c v).0,
  (read_from_takes rd n n c v).1,
  read_from-IsLine rd n n c,
  λ m e. omega (arith, read_from-returned rd n n c m (omega arith) e),
  λ m e. let a = read_from-asleep rd n n c m v e in (a.0, a.2),
)
