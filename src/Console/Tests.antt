-- ===== src/Console/Tests.antt =====
-- A line typed with a mistake, and its reader.
use intro2os_project.Prelude.{
  ℕ, ◌+◌, ◌-◌, ◌^◌, ◌≡◌, refl, true, false, some, none, List, [], ◌∷◌, ◌++◌, ◌==◌, if◌then◌else◌,
  length, arith,
}
use intro2os_project.Console.{
  Cons, Reader, asleep, returned, consoleintr, consoleread, read_from, kill_line, erase, accept,
  typed, ctrl_u, consolewrite, consolewrite_from,
}
use intro2os_project.Console.Editing.{IsValid}
use intro2os_project.Console.Keys.{Edited, consoleintr-Edited}
use intro2os_project.Console.Reading.{ready, IsLine, consoleread-IsLine}

abbrev at_start : Cons
at_start = record { buf = λ _. 0; r = 2 ^ 32 - 1; w = 2 ^ 32 - 1; e = 2 ^ 32 - 1 }

type_all : List ℕ → Cons → Cons
type_all [] c = c
type_all (x ∷ xs) c = type_all xs (consoleintr x c).cons

abbrev willing : Reader
willing = record { killed = false; copyout = λ _. true }

-- "lx", backspace, "s" and return are read as "ls" and a newline, across the wrap of the counters.
ls_read :
    (consoleread willing 9 (type_all (108 ∷ 120 ∷ 8 ∷ 115 ∷ 13 ∷ []) at_start)).copied
    ≡ 108 ∷ 115 ∷ 10 ∷ []
unfolding type_all consoleintr kill_line erase accept typed consoleread read_from
ls_read = refl

-- An end-of-file mark behind "a" ends that read, and the next one returns no byte.
eof_twice :
    let t = consoleread willing 9 (type_all (97 ∷ 4 ∷ []) at_start) in
    (t.end ≡ returned (some 1)) × ((consoleread willing 9 t.cons).end ≡ returned (some 0))
unfolding type_all consoleintr kill_line erase accept typed consoleread read_from
eof_twice = (refl, refl)

two_of_three : consolewrite (λ i. if i == 2 then none else some (i + 97)) 3 ≡ 97 ∷ 98 ∷ []
unfolding consolewrite consolewrite_from
two_of_three = refl

at_start-IsValid : IsValid at_start
at_start-IsValid = record {
  r_word = omega arith;
  w_word = omega arith;
  e_word = omega arith;
  order = refl;
  fits = omega arith;
  open_line = λ j h. absurd (omega arith);
}

consoleintr-Edited_example :
    Edited at_start (consoleintr 21 at_start)
    × (21 ≡ ctrl_u → (consoleintr 21 at_start).cons ≡ record at_start { e = at_start.w })
consoleintr-Edited_example = consoleintr-Edited 21 at_start at_start-IsValid

consoleread-IsLine_example :
    let t = consoleread willing 9 at_start in
    IsValid t.cons
    × (ready at_start ≡ t.taken ++ ready t.cons)
    × IsLine t.copied
    × ((m : ℕ) → t.end ≡ returned (some m) → m ≡ length t.copied)
    × ((m : ℕ) → t.end ≡ asleep m → (ready t.cons ≡ []) × (9 ≡ m + length t.copied))
consoleread-IsLine_example = consoleread-IsLine willing 9 at_start at_start-IsValid
