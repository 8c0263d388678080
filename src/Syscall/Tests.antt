-- ===== src/Syscall/Tests.antt =====
-- A process that traces read, and reads.
use intro2os_project.Prelude.{
  ℕ, ◌+◌, ◌-◌, ◌/◌, ◌%◌, ◌^◌, ◌≡◌, ◌↔◌, refl, Option, some, List, [], ◌∷◌, ◌==◌, if◌then◌else◌,
  update, u32, arith,
}
use intro2os_project.Prelude.Int.{pos, negsuc}
use intro2os_project.Syscall.{
  Caller, Piece, text, int, syscall, served, sys_trace, argint, argraw, print_args, trace_line,
}
use intro2os_project.Syscall.Tracing.{IsTraceTable, traced_iff}

abbrev tracer : Caller ℕ
tracer = record {
  a = λ i. if i == 7 then 22 else 32;
  pid = 3;
  name = λ i. 0;
  sz = 4096;
  trace_mask = 0;
  rest = 0;
}

-- The handlers but `sys_trace` return 10 and count the calls.
abbrev handlers : ℕ → Caller ℕ → Option (ℕ × Caller ℕ)
handlers num c = if num == 22 then sys_trace ℕ c else some (10, record c { rest = c.rest + 1 })

abbrev traced : Caller ℕ
traced = record tracer { a = update tracer.a 0 0; trace_mask = 32 }

abbrev reader : Caller ℕ
reader = record traced { a = λ i. if i == 7 then 5 else if i == 1 then 2 ^ 32 - 1 else 7 }

abbrev read_done : Caller ℕ
read_done = record reader { a = update reader.a 0 10; rest = 1 }

-- The process 3 calls read(7, -1, 7), which returns 10.
abbrev read_line : List Piece
read_line =
    int (pos 3)
    ∷ text ": syscall "
    ∷ text "read"
    ∷ text "("
    ∷ int (pos 7)
    ∷ text " "
    ∷ int (negsuc 0)
    ∷ text " "
    ∷ int (pos 7)
    ∷ text ") -> "
    ∷ int (pos 10)
    ∷ text "\n"
    ∷ []

traced_done : syscall ℕ handlers tracer ≡ some ([], traced)
unfolding syscall served sys_trace argint argraw
traced_done = refl

read_prints : syscall ℕ handlers reader ≡ some (read_line, read_done)
unfolding syscall served trace_line print_args
read_prints = refl

handlers-IsTraceTable : IsTraceTable ℕ handlers
handlers-IsTraceTable = record { trace = λ c. refl; keeps = λ num c d r ne e. ground arith }

traced_iff_example :
    ((read_line ≡ []) ↔ (u32 (tracer.a 0) / 2 ^ 5 % 2 ≡ 0))
    × (read_done.trace_mask ≡ u32 (tracer.a 0))
traced_iff_example =
    traced_iff ℕ handlers tracer reader 5 handlers-IsTraceTable refl traced_done refl refl
      (omega arith) (omega arith) (omega arith) read_prints

-- The word at an address is the address.
abbrev memory : ℕ → Option ℕ
memory addr = some addr
