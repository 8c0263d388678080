-- ===== src/Syscall.antt =====
-- kernel/syscall.c: the arguments of system calls, their dispatch, and the trace lines; `sys_trace` of
-- kernel/sysproc.c. What is printed is a list of pieces in order.
pub mod Arguments
pub mod Tracing
mod Tests
use Prim.Native.String.{String}
use intro2os_project.Prelude.{
  ℕ, zero, suc, ◌+◌, ◌-◌, ◌*◌, ◌/◌, ◌%◌, ◌^◌, Bool, true, false, not, ◌&&◌, ◌||◌, Option, none,
  some, List, [], ◌∷◌, ◌++◌, ◌==◌, ltb, leb, if◌then◌else◌, update, u32, u64, get_or,
}
use intro2os_project.Prelude.Int.{ℤ, pos, negsuc}

-- The `int` that the low 32 bits of a register hold.
abbrev pub int_of : ℕ → ℤ
int_of w = if ltb (u32 w) (2 ^ 31) then pos (u32 w) else negsuc (2 ^ 32 - 1 - u32 w)

-- One piece of a call of `printf`: text of the format, a %d, a %s.
pub data Piece : Type 0 where
  text : String → Piece
  int : ℤ → Piece
  str : (ℕ → ℕ) → Piece

-- The number of entries of `syscalls`: NELEM.
abbrev pub nelem : ℕ
nelem = 24

-- `syscall_names`
abbrev pub syscall_names : List String
syscall_names =
    "" ∷ "fork" ∷ "exit" ∷ "wait" ∷ "pipe" ∷ "read" ∷ "kill" ∷ "exec" ∷ "fstat" ∷ "chdir" ∷ "dup"
    ∷ "getpid" ∷ "sbrk" ∷ "sleep" ∷ "uptime" ∷ "open" ∷ "write" ∷ "mknod" ∷ "unlink" ∷ "link"
    ∷ "mkdir" ∷ "close" ∷ "trace" ∷ "sysinfo" ∷ []

-- `syscall_argc`
abbrev pub syscall_argc : List ℕ
syscall_argc =
    0 ∷ 0 ∷ 1 ∷ 1 ∷ 1 ∷ 3 ∷ 1 ∷ 2 ∷ 2 ∷ 1 ∷ 1 ∷ 0 ∷ 1 ∷ 1 ∷ 0 ∷ 2 ∷ 3 ∷ 3 ∷ 1 ∷ 2 ∷ 1 ∷ 1 ∷ 1 ∷ 1
    ∷ []

-- The loop that prints the arguments from `i` on, with `k` of `n_args` to go.
unfoldable pub print_args : (ℕ → ℕ) → ℕ → ℕ → ℕ → List Piece
print_args args n_args i zero = []
print_args args n_args i (suc k) =
    int (int_of (args i))
    ∷ ((if ltb i (n_args - 1) then text " " ∷ [] else []) ++ print_args args n_args (i + 1) k)

module _ (Rest : Type 0) where
  -- The calling process: the registers a0 to a7 of its trap frame, its pid, name, size and trace mask (as
  -- 32 bits), and the rest of the kernel.
  pub record Caller : Type 0 where
    pub a : ℕ → ℕ
    pub pid : ℕ
    pub name : ℕ → ℕ
    pub sz : ℕ
    pub trace_mask : ℕ
    pub rest : Rest

  -- `argraw`; `none` is a panic.
  unfoldable pub argraw : ℕ → Caller → Option ℕ
  argraw n c = if ltb n 6 then some (c.a n) else none

  -- `argint`: the 32 bits stored.
  unfoldable pub argint : ℕ → Caller → Option ℕ
  unfolding argraw
  argint n c = elim (argraw n c) [ none ↦ none | some v ↦ some (u32 v) ]

  -- `argaddr`
  unfoldable pub argaddr : ℕ → Caller → Option ℕ
  unfolding argraw
  argaddr n c = argraw n c

  -- `fetchaddr`, with `copyin` of the eight bytes at an address; `none` is -1.
  unfoldable pub fetchaddr : (ℕ → Option ℕ) → ℕ → Caller → Option ℕ
  fetchaddr copyin addr c = if leb c.sz addr || ltb c.sz (u64 (addr + 8)) then none else copyin addr

  -- `fetchstr`, with `copyinstr` of a string (its bytes and its length) at an address into a buffer.
  unfoldable pub fetchstr : (ℕ → ℕ → Option ((ℕ → ℕ) × ℕ)) → ℕ → ℕ → Caller → Option ((ℕ → ℕ) × ℕ)
  fetchstr copyinstr addr max c = copyinstr addr max

  -- `argstr`; the outer `none` is a panic.
  unfoldable pub argstr :
      (ℕ → ℕ → Option ((ℕ → ℕ) × ℕ)) → ℕ → ℕ → Caller → Option (Option ((ℕ → ℕ) × ℕ))
  unfolding argaddr fetchstr
  argstr copyinstr n max c = elim (argaddr n c) [
    | none ↦ none
    | some addr ↦ some (fetchstr copyinstr addr max c)
  ]

  -- `sys_trace`
  unfoldable pub sys_trace : Caller → Option (ℕ × Caller)
  unfolding argint
  sys_trace c = elim (argint 0 c) [
    | none ↦ none
    | some mask ↦ some (0, record c { trace_mask = mask })
  ]

  -- What `syscall` prints for a traced call.
  unfoldable pub trace_line : ℕ → (ℕ → ℕ) → Caller → List Piece
  unfolding print_args
  trace_line num args c =
      let n_args = get_or syscall_argc num 0 in
      (int (int_of c.pid) ∷ text ": syscall " ∷ text (get_or syscall_names num "") ∷ text "(" ∷ [])
      ++ (print_args args n_args 0 n_args ++ (text ") -> " ∷ int (int_of (c.a 0)) ∷ text "\n" ∷ []))

  module _ (handlers : ℕ → Caller → Option (ℕ × Caller)) where
    -- The call of number `num`, and its trace; `none` is a panic of the handler.
    unfoldable pub served : ℕ → Caller → Option (List Piece × Caller)
    unfolding trace_line
    served num c = elim (handlers num c) [
      | none ↦ none
      | some (result, c1) ↦
          let c2 = record c1 { a = update c1.a 0 result } in
          some (if c2.trace_mask / 2 ^ num % 2 == 1 then trace_line num c.a c2 else [], c2)
    ]

    -- `syscall`: the pieces printed, and the caller behind it. All of `syscalls` from 1 on are there.
    unfoldable pub syscall : Caller → Option (List Piece × Caller)
    unfolding served
    syscall c =
        let num = u32 (c.a 7) in
        if ltb 0 num && ltb num nelem
        then served num c
        else some (
          int (int_of c.pid)
              ∷ text " "
              ∷ str c.name
              ∷ text ": unknown sys call "
              ∷ int (int_of num)
              ∷ text "\n"
              ∷ [],
          record c { a = update c.a 0 (2 ^ 64 - 1) },
        )
