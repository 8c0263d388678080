-- ===== src/Proc/LifeTests.antt =====
-- A child that is created and collected, in a kernel where every service succeeds.
use intro2os_project.Prelude.{ℕ, ◌+◌, ◌<◌, ◌≡◌, refl, true, false, Option, none, some, update}
use intro2os_project.Proc.{
  nproc, is_unused, Proc, State, ptr, put, cleared, scan_children, allocpid,
}
use intro2os_project.Proc.Life.{
  Services, Kernel, freeproc, proc_freepagetable, proc_pagetable, reap, collect, after_scan,
  wait_round, returned, fork, allocproc, found, with_frame, find_unused, give_up, fill_child,
  share_files, ready_at_forkret,
}
use intro2os_project.Proc.Sharing.{IsChild}
use intro2os_project.Proc.Forking.{fork-IsChild}
use intro2os_project.Proc.Reaping.{Waited, wait_round-Waited}

-- The rest of the kernel counts its calls of `kalloc`.
abbrev willing : Services
willing = record {
  Rest = ℕ;
  kalloc = λ r. (4096, r + 1);
  kfree = λ pa r. some r;
  uvmcreate = λ r. (8192, r);
  mappages = λ pt va size pa perm r. some (true, r);
  uvmunmap = λ pt va n free r. some r;
  uvmfree = λ pt sz r. some r;
  uvmcopy = λ old new sz r. some (true, r);
  uvmalloc = λ pt old new perm r. some (new, r);
  uvmdealloc = λ pt old new r. some (new, r);
  copyout = λ pt addr v r. (true, r);
  copy_trapframe = λ src dst r. r;
  filedup = λ f r. some r;
  fileclose = λ f r. some r;
  idup = λ ip r. r;
  iput_op = λ ip r. some r;
  trampoline_code = 0;
  forkret = 0;
}

abbrev idle : Proc
idle = record {
  state = State.unused;
  chan = 0;
  killed = false;
  xstate = 0;
  pid = 0;
  parent = 0;
  kstack = 0;
  sz = 0;
  pagetable = 0;
  trapframe = 0;
  context = λ _. 0;
  ofile = λ _. 0;
  cwd = 0;
  name = λ _. 0;
  trace_mask = 0;
}

-- Process 0 runs, and its child, process 1, has exited.
abbrev bereft : Kernel willing
bereft = record {
  table = record {
    procs =
        update
          (update (λ _. idle) 0 (record idle { state = State.running; pid = 1; trace_mask = 34 })) 1
          (record idle {
            state = State.zombie;
            parent = ptr 0;
            pid = 2;
            trapframe = 4096;
            pagetable = 8192;
          });
    nextpid = 3;
    initproc = ptr 0;
  };
  rest = 0;
}

abbrev collected : Kernel willing
collected = record bereft { table = put 1 (cleared (bereft.table.procs 1)) bereft.table }

wait_returns : wait_round willing 0 0 bereft ≡ some (returned (some 2), collected)
unfolding wait_round after_scan scan_children reap collect freeproc proc_freepagetable
wait_returns = refl

wait_round-Waited_example : Waited willing 0 bereft (returned (some 2)) collected
wait_round-Waited_example =
    wait_round-Waited willing 0 0 bereft collected (returned (some 2)) wait_returns

child_mask : Option (Option ℕ × Kernel willing) → ℕ
child_mask none = 0
child_mask (some (pid, k)) = (k.table.procs 2).trace_mask

-- The child of a traced process is traced.
mask_inherited : child_mask (fork willing 0 bereft) ≡ 34
unfolding child_mask fork allocproc found with_frame find_unused give_up fill_child share_files
    ready_at_forkret proc_pagetable allocpid
mask_inherited = refl

abbrev kernel_of : Option (Option ℕ × Kernel willing) → Kernel willing
kernel_of none = bereft
kernel_of (some (pid, k)) = k

fork_returns : fork willing 0 bereft ≡ some (some 3, kernel_of (fork willing 0 bereft))
unfolding fork allocproc found with_frame find_unused give_up fill_child share_files
    ready_at_forkret proc_pagetable allocpid
fork_returns = refl

abbrev third : ℕ
third = 3

fork-IsChild_example :
    (np : ℕ) × (np < nproc)
    × (is_unused (bereft.table.procs np).state ≡ true)
    × (third ≡ bereft.table.nextpid)
    × (((kernel_of (fork willing 0 bereft)).table.procs np).pid ≡ 3)
    × IsChild willing 0 np bereft (kernel_of (fork willing 0 bereft))
fork-IsChild_example =
    fork-IsChild willing 0 3 bereft (kernel_of (fork willing 0 bereft)) refl fork_returns
