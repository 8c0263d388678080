-- ===== src/Proc/Wakeup.antt =====
-- Exactly which processes `wakeup`, `kill` and `reparent` change.
use intro2os_project.Prelude.{
  ℕ, zero, suc, ◌+◌, ◌≤◌, ◌<◌, ◌≡◌, ◌≢◌, ◌⊎◌, inl, inr, refl, ap, ◌∙◌, sym, subst, Bool, true,
  false, ◌==◌, arith, Bool-cases, ==_iff, update_self, update_ne, ℕ_discrete,
}
use intro2os_project.Proc.{
  Proc, State, Table, put, woken, struck, wakeup, wakeup_from, wake_one, kill, kill_from, nproc,
}

wake_one_self :
    (me chan i : ℕ) (t : Table) → i ≢ me → (wake_one me chan i t).procs i ≡ woken chan (t.procs i)
unfolding wake_one
wake_one_self me chan i t h = elim (Bool-cases (i == me)) [
  | inl e ↦ absurd (h (omega (arith, (==_iff i me).0 e)))
  | inr e ↦ rw e (update_self t.procs i (woken chan (t.procs i)))
]

wake_one_ne :
    (me chan i j : ℕ) (t : Table) → (i ≢ j) ⊎ (i ≡ me) → (wake_one me chan i t).procs j ≡ t.procs j
unfolding wake_one
wake_one_ne me chan i j t h = elim (Bool-cases (i == me)) [
  | inl e ↦ rw e refl
  | inr e ↦ rw e (update_ne t.procs i (woken chan (t.procs i)) j (other h e))
]
  where
    other : (i ≢ j) ⊎ (i ≡ me) → (i == me) ≡ false → i ≢ j
    other (inl ne) e = ne
    other (inr same) e = absurd (ground arith)

wakeup_from_ne :
    (me chan i k j : ℕ) (t : Table)
    → ((j < i) ⊎ (i + k ≤ j)) ⊎ (j ≡ me)
    → (wakeup_from me chan i k t).procs j ≡ t.procs j
unfolding wakeup_from
wakeup_from_ne me chan i zero j t h = refl
wakeup_from_ne me chan i (suc k) j t h =
    wakeup_from_ne me chan (i + 1) k j (wake_one me chan i t) (later h)
    ∙ wake_one_ne me chan i j t (one h)
  where
    later : ((j < i) ⊎ (i + suc k ≤ j)) ⊎ (j ≡ me) → ((j < i + 1) ⊎ (i + 1 + k ≤ j)) ⊎ (j ≡ me)
    later h = grind arith

    one : ((j < i) ⊎ (i + suc k ≤ j)) ⊎ (j ≡ me) → (i ≢ j) ⊎ (i ≡ me)
    one h = elim (ℕ_discrete i j) [ yes e ↦ inr (omega arith) | no e ↦ inl e ]

wakeup_from_in :
    (me chan i k j : ℕ) (t : Table)
    → i ≤ j
    → j < i + k
    → j ≢ me
    → (wakeup_from me chan i k t).procs j ≡ woken chan (t.procs j)
unfolding wakeup_from
wakeup_from_in me chan i zero j t lo hi ne = absurd (omega arith)
wakeup_from_in me chan i (suc k) j t lo hi ne = elim (ℕ_discrete i j) [
  | yes e ↦
      wakeup_from_ne me chan (i + 1) k j (wake_one me chan i t) (inl (inl (omega arith)))
      ∙ subst (λ m. (wake_one me chan i t).procs m ≡ woken chan (t.procs m)) e
          (wake_one_self me chan i t (λ s. ne (sym e ∙ s)))
  | no e ↦
      wakeup_from_in me chan (i + 1) k j (wake_one me chan i t) (omega arith) (omega arith) ne
      ∙ ap (woken chan) (wake_one_ne me chan i j t (inl e))
]

-- `wakeup` makes every other process that sleeps on the channel runnable.
pub wakeup_in :
    (me chan j : ℕ) (t : Table)
    → j < nproc
    → j ≢ me
    → (wakeup me chan t).procs j ≡ woken chan (t.procs j)
unfolding wakeup
wakeup_in me chan j t h ne = wakeup_from_in me chan 0 nproc j t (omega arith) (omega arith) ne

-- It leaves its caller alone, and what lies behind the table.
pub wakeup_ne :
    (me chan j : ℕ) (t : Table) → (nproc ≤ j) ⊎ (j ≡ me) → (wakeup me chan t).procs j ≡ t.procs j
unfolding wakeup
wakeup_ne me chan j t (inl h) = wakeup_from_ne me chan 0 nproc j t (inl (inr (omega arith)))
wakeup_ne me chan j t (inr h) = wakeup_from_ne me chan 0 nproc j t (inr h)

wakeup_from-globals :
    (me chan i k : ℕ) (t : Table)
    → ((wakeup_from me chan i k t).initproc ≡ t.initproc)
      × ((wakeup_from me chan i k t).nextpid ≡ t.nextpid)
unfolding wakeup_from wake_one
wakeup_from-globals me chan i zero t = (refl, refl)
wakeup_from-globals me chan i (suc k) t =
    let rest = wakeup_from-globals me chan (i + 1) k (wake_one me chan i t) in ground (arith, rest)

pub wakeup-globals :
    (me chan : ℕ) (t : Table)
    → ((wakeup me chan t).initproc ≡ t.initproc) × ((wakeup me chan t).nextpid ≡ t.nextpid)
unfolding wakeup
wakeup-globals me chan t = wakeup_from-globals me chan 0 nproc t

-- `wakeup` makes the processes other than its caller that sleep on the channel runnable, and changes
-- nothing else in the table.
pub wakeup_exact :
    (me chan j : ℕ) (t : Table)
    → j < nproc
    → ((j ≢ me)
        → (t.procs j).state ≡ State.sleeping
        → (t.procs j).chan ≡ chan
        → (wakeup me chan t).procs j ≡ record (t.procs j) { state = State.runnable })
      × (((j ≡ me) ⊎ (((t.procs j).state ≢ State.sleeping) ⊎ ((t.procs j).chan ≢ chan)))
          → (wakeup me chan t).procs j ≡ t.procs j)
      × ((wakeup me chan t).initproc ≡ t.initproc)
      × ((wakeup me chan t).nextpid ≡ t.nextpid)
wakeup_exact me chan j t h = (
  λ ne s c. wakeup_in me chan j t h ne ∙ (rw (s, c) (ground arith)),
  other,
  (wakeup-globals me chan t).0,
  (wakeup-globals me chan t).1,
)
  where
    unwoken : (p : Proc) → (p.state ≢ State.sleeping) ⊎ (p.chan ≢ chan) → woken chan p ≡ p
    unwoken p k = ground arith

    other :
        (j ≡ me) ⊎ (((t.procs j).state ≢ State.sleeping) ⊎ ((t.procs j).chan ≢ chan))
        → (wakeup me chan t).procs j ≡ t.procs j
    other (inl e) = wakeup_ne me chan j t (inr e)
    other (inr k) = elim (ℕ_discrete j me) [
      | yes e ↦ wakeup_ne me chan j t (inr e)
      | no ne ↦ wakeup_in me chan j t h ne ∙ unwoken (t.procs j) k
    ]

-- What `kill` does: nothing if no process has the pid, and else it strikes the first one that has.
pub data Killing (pid : ℕ) (t : Table) (from : ℕ) (out : Bool × Table) : Type 0 where
  missed :
      ((j : ℕ) → from ≤ j → j < nproc → (t.procs j).pid ≢ pid)
      → out ≡ (false, t)
      → Killing pid t from out
  hit :
      (j : ℕ)
      → from ≤ j
      → j < nproc
      → (t.procs j).pid ≡ pid
      → ((i : ℕ) → from ≤ i → i < j → (t.procs i).pid ≢ pid)
      → out ≡ (true, put j (struck (t.procs j)) t)
      → Killing pid t from out

kill_from-Killing :
    (pid i k : ℕ) (t : Table) → i + k ≡ nproc → Killing pid t i (kill_from pid i k t)
unfolding kill_from
kill_from-Killing pid i zero t e = missed (λ j lo hi. absurd (omega arith)) refl
kill_from-Killing pid i (suc k) t e = elim (Bool-cases ((t.procs i).pid == pid)) [
  | inl m ↦ rw m (
      hit i (omega arith) (omega arith) ((==_iff _ pid).0 m) (λ j lo hi. absurd (omega arith)) refl)
  | inr m ↦ rw m (later (kill_from-Killing pid (i + 1) k t (omega arith)) (λ h. ground arith))
]
  where
    later :
        {out : Bool × Table}
        → Killing pid t (i + 1) out
        → (t.procs i).pid ≢ pid
        → Killing pid t i out
    later (missed none o) ne = missed (λ j lo hi. from none ne j lo hi) o
      where
        from :
            ((j : ℕ) → i + 1 ≤ j → j < nproc → (t.procs j).pid ≢ pid)
            → (t.procs i).pid ≢ pid
            → (j : ℕ) → i ≤ j
            → j < nproc
            → (t.procs j).pid ≢ pid
        from none ne j lo hi = elim (ℕ_discrete i j) [
          | yes s ↦ subst (λ m. (t.procs m).pid ≢ pid) s ne
          | no s ↦ none j (omega arith) hi
        ]
    later (hit j lo hi at first o) ne = hit j (omega arith) hi at (from first ne) o
      where
        from :
            ((m : ℕ) → i + 1 ≤ m → m < j → (t.procs m).pid ≢ pid)
            → (t.procs i).pid ≢ pid
            → (m : ℕ) → i ≤ m
            → m < j
            → (t.procs m).pid ≢ pid
        from first ne m lo hi = elim (ℕ_discrete i m) [
          | yes s ↦ subst (λ m. (t.procs m).pid ≢ pid) s ne
          | no s ↦ first m (omega arith) hi
        ]

-- `kill` finds a process exactly if one of the table has the pid. It then marks the first such process
-- killed and wakes it from any sleep; it changes nothing else, and nothing at all if it finds none.
pub kill-Killing : (pid : ℕ) (t : Table) → Killing pid t 0 (kill pid t)
unfolding kill
kill-Killing pid t = kill_from-Killing pid 0 nproc t (omega arith)
