-- ===== src/Proc/Tests.antt =====
-- A small process table, and the theorems about it there.
use intro2os_project.Prelude.{◌+◌, ◌-◌, ◌≡◌, refl, false, update}
use intro2os_project.Proc.{
  Proc, State, Table, ptr, wakeup, wakeup_from, wake_one, reparent, reparent_from, reparent_one,
  procinit, exit_final, nproc, ncpu, kcollect_nproc, count_from,
}
use intro2os_project.Proc.Count.{tally, used, kcollect_nproc_misses}
use intro2os_project.Proc.Safe.{NoMissedExit}
use intro2os_project.Proc.Waiting.{here, later, Step, exits, no_missed_exit}

abbrev idle : Proc
idle = record {
  state = State.unused;
  chan = 0;
  killed = false;
  xstate = 0;
  pid = 0;
  parent = 0;
  kstack = 0;
  sz = 0;
  pagetable = 0;
  trapframe = 0;
  context = λ _. 0;
  ofile = λ _. 0;
  cwd = 0;
  name = λ _. 0;
  trace_mask = 0;
}

-- Process 1 waits for its child, process 20.
abbrev family : Table
family = record {
  procs =
      update (update (λ _. idle) 1 (record idle { state = State.sleeping; chan = ptr 1; pid = 2 }))
        20 (record idle { state = State.running; parent = ptr 1; pid = 3 });
  nextpid = 4;
  initproc = ptr 0;
}

kcollect_nproc_misses_example :
    kcollect_nproc family + tally used family.procs ncpu (nproc - ncpu)
    ≡ tally used family.procs 0 nproc
kcollect_nproc_misses_example = kcollect_nproc_misses family

-- The process in slot 20 is not counted.
one_of_two : kcollect_nproc family ≡ 1
unfolding kcollect_nproc count_from
one_of_two = refl

-- The exit of process 20 wakes its parent.
woken_parent : ((exit_final 20 5 family).procs 1).state ≡ State.runnable
unfolding exit_final wakeup wakeup_from wake_one reparent reparent_from reparent_one
woken_parent = refl

no_missed_exit_example : NoMissedExit (exit_final 20 5 (wakeup 3 9 (procinit family)))
no_missed_exit_example = no_missed_exit family (later (later here (Step.wakes 3 9)) (exits 20 5))
