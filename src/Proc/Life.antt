-- ===== src/Proc/Life.antt =====
-- kernel/proc.c: the operations that create, grow and end processes.
-- What they need of the memory, the file table and the inode table is the interface `Services`; a
-- call that panics returns `none`. `fork`, `exit` and `wait` are one run each, without the other
-- processes that may run where they sleep; Waiting interleaves their critical sections.
use intro2os_project.Prelude.{
  ℕ, zero, suc, ◌+◌, ◌-◌, ◌^◌, Bool, true, false, not, ◌||◌, Option, none, some, ◌==◌, ltb,
  if◌then◌else◌, update, u64,
}
use intro2os_project.Text.{safestrcpy}
use intro2os_project.Proc.{
  Scan, Proc, State, Table, ptr, put, nproc, nofile, pgsize, trampoline, is_unused, allocpid,
  exit_final, scan_children, zombie_at, no_zombie, sleep_on, cleared,
}

-- The rest of the kernel. Pointers are numbers, 0 is null; a Boolean tells success.
pub record Services : Type 1 where
  pub Rest : Type 0
  pub kalloc : Rest → ℕ × Rest
  pub kfree : ℕ → Rest → Option Rest
  pub uvmcreate : Rest → ℕ × Rest
  pub mappages : ℕ → ℕ → ℕ → ℕ → ℕ → Rest → Option (Bool × Rest)
  pub uvmunmap : ℕ → ℕ → ℕ → Bool → Rest → Option Rest
  pub uvmfree : ℕ → ℕ → Rest → Option Rest
  pub uvmcopy : ℕ → ℕ → ℕ → Rest → Option (Bool × Rest)
  pub uvmalloc : ℕ → ℕ → ℕ → ℕ → Rest → Option (ℕ × Rest)
  pub uvmdealloc : ℕ → ℕ → ℕ → Rest → Option (ℕ × Rest)
  -- `copyout` of the four bytes of an exit status
  pub copyout : ℕ → ℕ → ℕ → Rest → Bool × Rest
  -- `*(np->trapframe) = *(p->trapframe); np->trapframe->a0 = 0;`
  pub copy_trapframe : ℕ → ℕ → Rest → Rest
  pub filedup : ℕ → Rest → Option Rest
  pub fileclose : ℕ → Rest → Option Rest
  pub idup : ℕ → Rest → Rest
  -- `begin_op(); iput(ip); end_op();`
  pub iput_op : ℕ → Rest → Option Rest
  -- the addresses of `trampoline` and `forkret`
  pub trampoline_code : ℕ
  pub forkret : ℕ

-- PTE_R, PTE_W, PTE_X; TRAPFRAME
abbrev pub pte_r : ℕ
pte_r = 2

abbrev pub pte_w : ℕ
pte_w = 4

abbrev pub pte_x : ℕ
pte_x = 8

abbrev pub trapframe_va : ℕ
trapframe_va = trampoline - pgsize

-- The first UNUSED process from `i` on, with `k` to go: the loop of `allocproc`.
unfoldable pub find_unused : (ℕ → Proc) → ℕ → ℕ → Option ℕ
find_unused procs i zero = none
find_unused procs i (suc k) =
    let rest = find_unused procs (i + 1) k in if is_unused (procs i).state then some i else rest

-- How one round of the `for (;;)` of `wait` ends: with the value returned (`none` for -1), or asleep.
pub data WaitEnd : Type 0 where
  returned : Option ℕ → WaitEnd
  asleep : WaitEnd

module _ (sv : Services) where
  open sv use {
    Rest, kalloc, kfree, uvmcreate, mappages, uvmunmap, uvmfree, uvmcopy, uvmalloc, uvmdealloc,
    copyout, copy_trapframe, filedup, fileclose, idup, iput_op, trampoline_code, forkret,
  }

  pub record Kernel : Type 0 where
    pub table : Table
    pub rest : Rest

  -- A computation in the kernel; `none` is a panic.
  abbrev pub M : Type 0 → Type 0
  M A = Kernel → Option (A × Kernel)

  abbrev pub pure : {A : Type 0} → A → M A
  pure a k = some (a, k)

  infixl 5 ◌>>=◌ ◌>>◌
  abbrev pub ◌>>=◌ : {A B : Type 0} → M A → (A → M B) → M B
  ◌>>=◌ m f k = elim (m k) [ none ↦ none | some (a, k') ↦ f a k' ]

  abbrev pub ◌>>◌ : {B : Type 0} → M (Unit {0}) → M B → M B
  m >> n = m >>= λ _. n

  abbrev pub panic : {A : Type 0} → M A
  panic k = none

  abbrev pub proc_at : ℕ → M Proc
  proc_at i k = some (k.table.procs i, k)

  abbrev pub set_proc : ℕ → (Proc → Proc) → M (Unit {0})
  set_proc i f k = some (tt, record k { table = put i (f (k.table.procs i)) k.table })

  abbrev pub on_table : {A : Type 0} → (Table → A × Table) → M A
  on_table f k = let (a, t) = f k.table in some (a, record k { table = t })

  abbrev pub change_table : (Table → Table) → M (Unit {0})
  change_table f k = some (tt, record k { table = f k.table })

  abbrev pub call : {A : Type 0} → (Rest → A × Rest) → M A
  call f k = let (a, r) = f k.rest in some (a, record k { rest = r })

  abbrev pub run : (Rest → Option Rest) → M (Unit {0})
  run f k = elim (f k.rest) [ none ↦ none | some r ↦ some (tt, record k { rest = r }) ]

  abbrev pub try : {A : Type 0} → (Rest → Option (A × Rest)) → M A
  try f k = elim (f k.rest) [ none ↦ none | some (a, r) ↦ some (a, record k { rest = r }) ]

  -- `proc_freepagetable`
  unfoldable pub proc_freepagetable : ℕ → ℕ → M (Unit {0})
  proc_freepagetable pagetable sz = do
    run (uvmunmap pagetable trampoline 1 false)
    run (uvmunmap pagetable trapframe_va 1 false)
    run (uvmfree pagetable sz)

  -- `proc_pagetable` for process `i`; 0 if memory ran out.
  unfoldable pub proc_pagetable : ℕ → M ℕ
  proc_pagetable i = do
    p ← proc_at i
    pagetable ← call uvmcreate
    if pagetable == 0 then pure 0 else (do
      mapped ← try (mappages pagetable trampoline pgsize trampoline_code (pte_r + pte_x))
      if not mapped then (do run (uvmfree pagetable 0); pure 0) else (do
        framed ← try (mappages pagetable trapframe_va pgsize p.trapframe (pte_r + pte_w))
        if not framed
            then (do run (uvmunmap pagetable trampoline 1 false); run (uvmfree pagetable 0); pure 0)
            else pure pagetable))

  -- `freeproc`
  unfoldable pub freeproc : ℕ → M (Unit {0})
  unfolding proc_freepagetable
  freeproc i = do
    p ← proc_at i
    if p.trapframe == 0 then pure tt else run (kfree p.trapframe)
    if p.pagetable == 0 then pure tt else proc_freepagetable p.pagetable p.sz
    set_proc i cleared

  -- The two tails of `allocproc`: the process `i` is given up, or made ready to run at `forkret`.
  unfoldable pub give_up : ℕ → M (Option ℕ)
  give_up i = do freeproc i; pure none

  unfoldable pub ready_at_forkret : ℕ → M (Option ℕ)
  ready_at_forkret i = do
    set_proc i
        (λ p. record p { context = update (update (λ _. 0) 0 forkret) 1 (u64 (p.kstack + pgsize)) })
    pure (some i)

  -- `allocproc` from its test of the trapframe page on.
  unfoldable pub with_frame : ℕ → ℕ → M (Option ℕ)
  with_frame i frame = if frame == 0 then give_up i else (do
    pagetable ← proc_pagetable i
    set_proc i (λ p. record p { pagetable = pagetable })
    if pagetable == 0 then give_up i else ready_at_forkret i)

  -- `allocproc` from the label `found` on.
  unfoldable pub found : ℕ → M (Option ℕ)
  found i = do
    pid ← on_table allocpid
    set_proc i (λ p. record p { pid = pid; state = State.used })
    frame ← call kalloc
    set_proc i (λ p. record p { trapframe = frame })
    with_frame i frame

  -- `allocproc`: the index of the process, or `none`.
  unfoldable pub allocproc : M (Option ℕ)
  allocproc k = elim (find_unused k.table.procs 0 nproc) [
    | none ↦ some (none, k)
    | some i ↦ found i k
  ]

  -- `growproc` of process `me` by `grow` bytes, or down by `shrink` bytes where `grow` is 0.
  unfoldable pub growproc : ℕ → ℕ → ℕ → M Bool
  growproc me grow shrink = do
    p ← proc_at me
    if ltb 0 grow
        then (do
          sz ← try (uvmalloc p.pagetable p.sz (u64 (p.sz + grow)) pte_w)
          if sz == 0 then pure false else (do set_proc me (λ q. record q { sz = sz }); pure true))
        else if ltb 0 shrink
        then (do
          sz ← try (uvmdealloc p.pagetable p.sz (u64 (p.sz + 2 ^ 64 - shrink)))
          set_proc me (λ q. record q { sz = sz })
          pure true)
        else pure true

  -- The loop of `fork` that shares the open files, at descriptor `fd` with `k` to go.
  unfoldable pub share_files : ℕ → ℕ → ℕ → ℕ → M (Unit {0})
  share_files me np fd zero = pure tt
  share_files me np fd (suc k) = do
    p ← proc_at me
    if p.ofile fd == 0 then pure tt else (do
      run (filedup (p.ofile fd))
      set_proc np (λ q. record q { ofile = update q.ofile fd (p.ofile fd) }))
    share_files me np (fd + 1) k

  -- `fork` behind `uvmcopy`: the child `np` becomes a copy of its parent, and runnable.
  unfoldable pub fill_child : ℕ → ℕ → M (Option ℕ)
  fill_child me np = do
    p ← proc_at me
    set_proc np (λ q. record q { sz = p.sz; trace_mask = p.trace_mask })
    q ← proc_at np
    call (λ r. (tt, copy_trapframe p.trapframe q.trapframe r))
    share_files me np 0 nofile
    call (λ r. (tt, idup p.cwd r))
    set_proc np (λ q. record q { cwd = p.cwd; name = safestrcpy q.name p.name 16 })
    set_proc np (λ q. record q { parent = ptr me })
    set_proc np (λ q. record q { state = State.runnable })
    pure (some q.pid)

  -- `fork` by process `me`: the pid of the child, or `none` for -1.
  unfoldable pub fork : ℕ → M (Option ℕ)
  fork me = do
    child ← allocproc
    elim child [
      | none ↦ pure none
      | some np ↦ (do
        p ← proc_at me
        q ← proc_at np
        copied ← try (uvmcopy p.pagetable q.pagetable p.sz)
        if copied then fill_child me np else give_up np)
    ]

  -- The loop of `exit` that closes the open files.
  unfoldable pub close_files : ℕ → ℕ → ℕ → M (Unit {0})
  close_files me fd zero = pure tt
  close_files me fd (suc k) = do
    p ← proc_at me
    if p.ofile fd == 0 then pure tt else (do
      run (fileclose (p.ofile fd))
      set_proc me (λ q. record q { ofile = update q.ofile fd 0 }))
    close_files me (fd + 1) k

  -- `exit` up to the critical section of `wait_lock`.
  unfoldable pub exit_close : ℕ → M (Unit {0})
  unfolding close_files
  exit_close me = do
    k ← (λ k. some (k.table, k))
    if k.initproc == ptr me then panic else close_files me 0 nofile
    p ← proc_at me
    run (iput_op p.cwd)
    set_proc me (λ q. record q { cwd = 0 })

  -- `exit` up to its call of `sched`.
  unfoldable pub exit : ℕ → ℕ → M (Unit {0})
  unfolding exit_close
  exit me status = do exit_close me; change_table (exit_final me status)

  -- The end of `wait` on the child `i`.
  unfoldable pub collect : ℕ → ℕ → M WaitEnd
  unfolding freeproc
  collect i pid = do freeproc i; pure (returned (some pid))

  -- `wait` on the zombie child `i`.
  unfoldable pub reap : ℕ → ℕ → ℕ → M WaitEnd
  unfolding collect
  reap me addr i = do
    p ← proc_at me
    q ← proc_at i
    copied ← (if addr == 0 then pure true else call (copyout p.pagetable addr q.xstate))
    if not copied then pure (returned none) else (do freeproc i; pure (returned (some q.pid)))

  -- What `wait` does behind its scan of the table.
  unfoldable pub after_scan : ℕ → ℕ → Scan → M WaitEnd
  unfolding reap
  after_scan me addr (zombie_at i) k = reap me addr i k
  after_scan me addr (no_zombie havekids) k =
      if not havekids || (k.table.procs me).killed
      then some (returned none, k)
      else some (asleep, record k { table = sleep_on me (ptr me) k.table })

  -- One round of `wait`.
  unfoldable pub wait_round : ℕ → ℕ → M WaitEnd
  unfolding after_scan
  wait_round me addr k = after_scan me addr (scan_children k.table.procs me 0 nproc false) k
