-- ===== src/Console/Keys.antt =====
-- What each key does to the input buffer.
use intro2os_project.Prelude.{
  ℕ, ◌+◌, ◌%◌, ◌^◌, ◌<◌, ◌≡◌, ◌≢◌, inl, inr, refl, ap, sym, subst, ◌∙◌, Bool, true, false, not,
  ◌&&◌, ◌||◌, List, [], ◌==◌, ltb, if◌then◌else◌, update, update_self, update_ne, sub32, u32, arith,
  Bool-cases, ℕ_discrete,
}
use intro2os_project.Console.{
  Cons, Handled, consoleintr, kill_line, erase, accept, typed, input_buf_size, newline, ctrl_u,
  ctrl_p, ctrl_h, delete,
}
use intro2os_project.Console.Editing.{IsValid, shorter-IsValid, kill_line_clears}

-- What one character does to the buffer: the readers' bytes stay where they are, nothing is handed to
-- them without a wakeup, and a wakeup hands them the whole line, with no character left to edit.
pub record Edited (c : Cons) (out : Handled) : Type 0 where
  pub valid : IsValid out.cons
  pub same_r : out.cons.r ≡ c.r
  pub kept :
      (j : ℕ)
      → j < sub32 c.w c.r
      → out.cons.buf ((c.r + j) % input_buf_size) ≡ c.buf ((c.r + j) % input_buf_size)
  pub silent : out.wakes ≡ false → out.cons.w ≡ c.w
  pub whole : out.wakes ≡ true → out.cons.w ≡ out.cons.e

unmoved :
    (c : Cons) (echo : List ℕ) (dumps : Bool)
    → IsValid c
    → Edited c (record { cons = c; echo = echo; wakes = false; dumps = dumps })
unmoved c echo dumps v = record {
  valid = v;
  same_r = refl;
  kept = λ j h. refl;
  silent = λ h. refl;
  whole = λ h. absurd (cc);
}

cut-IsValid : (c : Cons) → IsValid c → IsValid (record c { e = c.w })
cut-IsValid c v = record {
  r_word = v.r_word;
  w_word = v.w_word;
  e_word = v.w_word;
  order = omega (arith, v.w_word);
  fits = omega (arith, v.order, v.fits, v.w_word);
  open_line = λ j lt. absurd (omega (arith, v.w_word));
}

killed-Edited :
    (c : Cons)
    → IsValid c
    → Edited c (record {
      cons = (kill_line input_buf_size c).0;
      echo = (kill_line input_buf_size c).1;
      wakes = false;
      dumps = false;
    })
killed-Edited c v =
    subst
      (λ x.
        Edited c (record {
          cons = x;
          echo = (kill_line input_buf_size c).1;
          wakes = false;
          dumps = false;
        }))
      (sym (kill_line_clears input_buf_size c v (omega (arith, v.order, v.fits))))
      (record {
        valid = cut-IsValid c v;
        same_r = refl;
        kept = λ j h. refl;
        silent = λ h. refl;
        whole = λ h. absurd (cc);
      })

erase-Edited : (c : Cons) → IsValid c → Edited c (erase c)
unfolding erase
erase-Edited c v = elim (Bool-cases (c.e == c.w)) [
  | inl e ↦ rw e (unmoved c [] false v)
  | inr e ↦ rw e (record {
    valid = shorter-IsValid c v e;
    same_r = refl;
    kept = λ j h. refl;
    silent = λ h. refl;
    whole = λ h. absurd (cc);
  })
]

-- The slot that a new character takes is none of the readers' or of the line.
free_slot :
    (c : Cons) (start j ch : ℕ)
    → c.e < 2 ^ 32
    → start < 2 ^ 32
    → j < sub32 c.e start
    → sub32 c.e start < input_buf_size
    → update c.buf (c.e % input_buf_size) ch ((start + j) % input_buf_size)
      ≡ c.buf ((start + j) % input_buf_size)
free_slot c start j ch we ws lt room =
    update_ne c.buf (c.e % input_buf_size) ch ((start + j) % input_buf_size) (omega arith)

-- A character goes behind the line.
abbrev longer : ℕ → Cons → Cons
longer ch c = record c { buf = update c.buf (c.e % input_buf_size) ch; e = u32 (c.e + 1) }

longer-kept :
    (ch : ℕ) (c : Cons)
    → IsValid c
    → sub32 c.e c.r < input_buf_size
    → (j : ℕ) → j < sub32 c.w c.r
    → (longer ch c).buf ((c.r + j) % input_buf_size) ≡ c.buf ((c.r + j) % input_buf_size)
longer-kept ch c v h j lt = free_slot c c.r j ch v.e_word v.r_word (omega (arith, v.order)) h

longer-IsValid :
    (ch : ℕ) (c : Cons)
    → IsValid c
    → sub32 c.e c.r < input_buf_size
    → ch ≢ newline
    → IsValid (longer ch c)
longer-IsValid ch c v h plain = record {
  r_word = v.r_word;
  w_word = v.w_word;
  e_word = omega arith;
  order = omega (arith, v.order, v.e_word, v.w_word, v.r_word);
  fits = omega (arith, v.e_word, v.r_word);
  open_line = λ j lt. elim (ℕ_discrete j (sub32 c.e c.w)) [
    | yes last ↦ λ e. plain (
        sym (
          ap (update c.buf (c.e % input_buf_size) ch) (slot j last)
          ∙ update_self c.buf (c.e % input_buf_size) ch)
        ∙ e)
    | no inner ↦ λ e.
        v.open_line j (omega arith)
          (sym (free_slot c c.w j ch v.e_word v.w_word (omega arith) (omega (arith, v.order))) ∙ e)
  ];
}
  where
    slot : (j : ℕ) → j ≡ sub32 c.e c.w → (c.w + j) % input_buf_size ≡ c.e % input_buf_size
    slot j e = omega (arith, v.e_word, v.w_word)

committed-IsValid :
    (ch : ℕ) (c : Cons)
    → IsValid c
    → sub32 c.e c.r < input_buf_size
    → IsValid (record (longer ch c) { w = u32 (c.e + 1) })
committed-IsValid ch c v h = record {
  r_word = v.r_word;
  w_word = omega arith;
  e_word = omega arith;
  order = omega (arith, v.e_word, v.r_word);
  fits = omega (arith, v.e_word, v.r_word);
  open_line = λ j lt. absurd (omega arith);
}

accept-Edited :
    (ch : ℕ) (c : Cons) → IsValid c → sub32 c.e c.r < input_buf_size → Edited c (accept ch c)
unfolding accept
accept-Edited ch c v h =
    elim (Bool-cases (ch == newline || ch == 4 || sub32 (u32 (c.e + 1)) c.r == input_buf_size)) [
      | inl e ↦ rw e (record {
        valid = committed-IsValid ch c v h;
        same_r = refl;
        kept = longer-kept ch c v h;
        silent = λ h. absurd (cc);
        whole = λ h. refl;
      })
      | inr e ↦ rw e (record {
        valid = longer-IsValid ch c v h (ground arith);
        same_r = refl;
        kept = longer-kept ch c v h;
        silent = λ h. refl;
        whole = λ h. absurd (cc);
      })
    ]

typed-Edited : (ch : ℕ) (c : Cons) → IsValid c → Edited c (typed ch c)
unfolding typed
typed-Edited ch c v = elim (Bool-cases (not (ch == 0) && ltb (sub32 c.e c.r) input_buf_size)) [
  | inl e ↦ rw e (accept-Edited (if ch == 13 then newline else ch) c v (ground arith))
  | inr e ↦ rw e (unmoved c [] false v)
]

-- On a valid buffer every character leaves a valid one: the bytes handed to the readers stay where
-- they are, the readers get more only with a wakeup, and then the whole line. The kill-line key
-- leaves no character of the line, and changes nothing else in the buffer.
pub consoleintr-Edited :
    (ch : ℕ) (c : Cons)
    → IsValid c
    → Edited c (consoleintr ch c) × (ch ≡ ctrl_u → (consoleintr ch c).cons ≡ record c { e = c.w })
unfolding consoleintr
consoleintr-Edited ch c v = elim (Bool-cases (ch == ctrl_p)) [
  | inl p ↦ rw p (unmoved c [] true v, λ e. absurd (ground arith))
  | inr p ↦ elim (Bool-cases (ch == ctrl_u)) [
    | inl u ↦
        rw (p, u)
          (
            killed-Edited c v,
            λ e. kill_line_clears input_buf_size c v (omega (arith, v.order, v.fits)),
          )
    | inr u ↦ rw (p, u) (edited, λ e. absurd (ground arith))
  ]
]
  where
    edited : Edited c (if ch == ctrl_h || ch == delete then erase c else typed ch c)
    edited = elim (Bool-cases (ch == ctrl_h || ch == delete)) [
      | inl k ↦ rw k (erase-Edited c v)
      | inr k ↦ rw k (typed-Edited ch c v)
    ]
