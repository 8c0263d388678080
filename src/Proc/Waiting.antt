-- ===== src/Proc/Waiting.antt =====
-- No exit is missed: `wait` never sleeps on while one of its children is a zombie.
use intro2os_project.Prelude.{
  ℕ, zero, suc, ◌+◌, ◌≤◌, ◌<◌, ◌≡◌, inl, inr, refl, ap, ◌∙◌, subst, true, false, update_self,
  update_ne, arith, ℕ_discrete,
}
use intro2os_project.Proc.{
  Proc, State, Table, ptr, put, cleared, wakeup, kill, nproc, exit_final, scan_children, zombie_at,
  no_zombie, sleep_on, wake_up, procinit, procinit_from, kstack_of, scheduled, yielded,
}
use intro2os_project.Proc.Safe.{
  NoMissedExit, put_safe, exit_safe, sleep_safe, wakeup_safe, kill_safe, scan_none_all,
  scheduled_safe,
}

-- One critical section of `kernel/proc.c`, by any process.
pub data Step (t : Table) : Table → Type 0 where
  -- `exit`, from `acquire(&wait_lock)` on
  exits : (me status : ℕ) → Step t (exit_final me status t)
  -- `wait` that has found children and no zombie among them
  waits :
      (me : ℕ)
      → scan_children t.procs me 0 nproc false ≡ no_zombie true
      → Step t (sleep_on me (ptr me) t)
  -- `wait` that has found the zombie child `i`
  reaps :
      (me i : ℕ)
      → scan_children t.procs me 0 nproc false ≡ zombie_at i
      → Step t (put i (cleared (t.procs i)) t)
  -- `sleep` on any other channel
  sleeps : (me chan : ℕ) → nproc < chan → Step t (sleep_on me chan t)
  -- `sleep` behind `sched`
  resumes : (me : ℕ) → (t.procs me).state ≡ State.running → Step t (wake_up me t)
  wakes : (me chan : ℕ) → Step t (wakeup me chan t)
  kills : (pid : ℕ) → Step t (kill pid t).1
  -- `allocproc`, behind the label `found`
  allocates :
      (i : ℕ) (q : Proc)
      → (t.procs i).state ≡ State.unused
      → q.state ≡ State.used
      → Step t (put i q t)
  -- `fork` by `me`, for the child `i`
  forks :
      (me i : ℕ) (q : Proc)
      → (t.procs i).state ≡ State.used
      → q.parent ≡ ptr me
      → q.state ≡ State.runnable
      → Step t (put i q t)
  -- `scheduler` picks the process, and `yield` gives the processor up
  runs : (i : ℕ) → Step t (scheduled i t)
  yields : (i : ℕ) → (t.procs i).state ≡ State.running → Step t (yielded i t)

pub data Reach (t : Table) : Table → Type 0 where
  here : Reach t t
  later : {u v : Table} → Reach t u → Step u v → Reach t v

Step_safe : {t u : Table} → Step t u → NoMissedExit t → NoMissedExit u
unfolding wake_up yielded
Step_safe {t} (exits me status) safe = exit_safe t me status safe
Step_safe {t} (waits me e) safe = sleep_safe t me (ptr me) (inl (refl, scan_none_all t me e)) safe
Step_safe {t} (reaps me i e) safe =
    put_safe t i (cleared (t.procs i)) (record { asleep = λ s. cc; dead = λ z. cc }) safe
Step_safe {t} (sleeps me chan far) safe = sleep_safe t me chan (inr far) safe
Step_safe {t} (resumes me r) safe =
    put_safe t me _ (record { asleep = λ s. absurd (cc); dead = λ z. (z, refl) }) safe
Step_safe {t} (wakes me chan) safe = wakeup_safe t me chan safe
Step_safe {t} (kills pid) safe = kill_safe t pid safe
Step_safe {t} (allocates i q _ e) safe =
    put_safe t i q (record { asleep = λ s. absurd (cc); dead = λ z. absurd (cc) }) safe
Step_safe {t} (forks me i q _ _ e) safe =
    put_safe t i q (record { asleep = λ s. absurd (cc); dead = λ z. absurd (cc) }) safe
Step_safe {t} (runs i) safe = scheduled_safe t i safe
Step_safe {t} (yields i _) safe =
    put_safe t i _ (record { asleep = λ s. absurd (cc); dead = λ z. absurd (cc) }) safe

Reach-NoMissedExit : {t u : Table} → NoMissedExit t → Reach t u → NoMissedExit u
Reach-NoMissedExit safe here = safe
Reach-NoMissedExit safe (later r st) = Step_safe st (Reach-NoMissedExit safe r)

initial : ℕ → Table → Table
initial i t = let p = t.procs i in put i (record p { state = State.unused; kstack = kstack_of i }) t

initial_self : (i : ℕ) (t : Table) → ((initial i t).procs i).state ≡ State.unused
unfolding initial
initial_self i t = ap (λ q. q.state) (update_self t.procs i _)

initial_keeps :
    (i j : ℕ) (t : Table)
    → (t.procs j).state ≡ State.unused
    → ((initial i t).procs j).state ≡ State.unused
initial_keeps i j t h = elim (ℕ_discrete i j) [
  | yes e ↦ subst (λ m. ((initial i t).procs m).state ≡ State.unused) e (initial_self i t)
  | no ne ↦ other ne
]
  where
    other : (i ≡ j → ⊥) → ((initial i t).procs j).state ≡ State.unused
    other ne = unfold initial in (ap (λ q. q.state) (update_ne t.procs i _ j ne) ∙ h)

procinit_keeps :
    (i k j : ℕ) (t : Table)
    → (t.procs j).state ≡ State.unused
    → ((procinit_from i k t).procs j).state ≡ State.unused
unfolding procinit_from initial
procinit_keeps i zero j t h = h
procinit_keeps i (suc k) j t h = procinit_keeps (i + 1) k j (initial i t) (initial_keeps i j t h)

procinit_unused :
    (i k j : ℕ) (t : Table)
    → i ≤ j
    → j < i + k
    → ((procinit_from i k t).procs j).state ≡ State.unused
unfolding procinit_from initial
procinit_unused i zero j t lo hi = absurd (omega arith)
procinit_unused i (suc k) j t lo hi = elim (ℕ_discrete i j) [
  | yes e ↦
      procinit_keeps (i + 1) k j (initial i t)
        (subst (λ m. ((initial i t).procs m).state ≡ State.unused) e (initial_self i t))
  | no ne ↦ procinit_unused (i + 1) k j (initial i t) (omega arith) (omega arith)
]

-- In every state that critical sections of any processes reach from the table of `procinit`, no process
-- sleeps in `wait` while a child of it is a zombie: the wakeup of an exit is never lost, also for
-- children that `reparent` has given to init.
pub no_missed_exit : (boot : Table) {t : Table} → Reach (procinit boot) t → NoMissedExit t
unfolding procinit
no_missed_exit boot r = Reach-NoMissedExit fresh r
  where
    fresh : NoMissedExit (procinit boot)
    fresh p c hp hc s _ _ z =
        awake ((procinit boot).procs c).state
          (procinit_unused 0 nproc c boot (omega arith) (omega arith)) z
      where
        awake : (x : State) → x ≡ State.unused → x ≡ State.zombie → ⊥
        awake x e f = cc
