-- ===== src/Console/Editing.antt =====
-- The keys of the line editor.
use intro2os_project.Prelude.{
  ℕ, zero, suc, ◌+◌, ◌-◌, ◌%◌, ◌^◌, ◌≤◌, ◌<◌, ◌≡◌, ◌≢◌, inl, inr, ap, false, ◌==◌, sub32, arith,
  Bool-cases,
}
use intro2os_project.Console.{Cons, kill_line, input_buf_size, newline}

-- The indices are `uint` values in the order read, write, edit, at most a buffer apart, and no newline
-- stands among the bytes that are still edited.
pub record IsValid (c : Cons) : Type 0 where
  pub r_word : c.r < 2 ^ 32
  pub w_word : c.w < 2 ^ 32
  pub e_word : c.e < 2 ^ 32
  pub order : sub32 c.w c.r + sub32 c.e c.w ≡ sub32 c.e c.r
  pub fits : sub32 c.e c.r ≤ input_buf_size
  pub open_line : (j : ℕ) → j < sub32 c.e c.w → c.buf ((c.w + j) % input_buf_size) ≢ newline

same_end : (c : Cons) → c.e ≡ c.w → c ≡ record c { e = c.w }
same_end c h = ap (λ x. record c { e = x }) h

-- One character less in the line.
abbrev shorter : Cons → Cons
shorter c = record c { e = sub32 c.e 1 }

pub shorter-IsValid : (c : Cons) → IsValid c → (c.e == c.w) ≡ false → IsValid (shorter c)
shorter-IsValid c v h = record {
  r_word = v.r_word;
  w_word = v.w_word;
  e_word = omega arith;
  order = ground arith;
  fits = ground arith;
  open_line = λ j lt. v.open_line j (ground arith);
}

-- The last character of the line is not a newline.
last_open :
    (c : Cons)
    → IsValid c
    → (c.e == c.w) ≡ false
    → (c.buf (sub32 c.e 1 % input_buf_size) == newline) ≡ false
last_open c v h = ground (arith, slot c v h, v.open_line (sub32 c.e c.w - 1))
  where
    slot :
        (c : Cons)
        → IsValid c
        → (c.e == c.w) ≡ false
        → (c.w + (sub32 c.e c.w - 1)) % input_buf_size ≡ sub32 c.e 1 % input_buf_size
    slot c v h = ground arith

pub kill_line_clears :
    (fuel : ℕ) (c : Cons)
    → IsValid c
    → sub32 c.e c.w ≤ fuel
    → (kill_line fuel c).0 ≡ record c { e = c.w }
unfolding kill_line
kill_line_clears zero c v h = same_end c (omega (arith, v.e_word, v.w_word))
kill_line_clears (suc fuel) c v h = elim (Bool-cases (c.e == c.w)) [
  | inl e ↦ rw (e, kill_line) (same_end c (ground arith))
  | inr e ↦
      rw (e, last_open c v e, kill_line)
        (kill_line_clears fuel (shorter c) (shorter-IsValid c v e) (ground arith))
]
