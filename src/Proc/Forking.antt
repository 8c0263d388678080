-- ===== src/Proc/Forking.antt =====
-- `fork` as a whole.
use intro2os_project.Prelude.{
  ℕ, ◌<◌, ◌≡◌, ◌≢◌, inl, inr, ap, ◌∙◌, sym, true, false, none, some, arith, Option-cases,
}
use intro2os_project.Proc.{State, nproc, is_unused}
use intro2os_project.Proc.Life.{Services, Kernel, allocproc, fork}
use intro2os_project.Proc.Sharing.{IsChild, fill_child-IsChild}
use intro2os_project.Proc.Taking.{give_up-none, allocproc-IsTaken}

module _ (sv : Services) where
  -- The slot was taken between `k` and `k1`.
  IsChild-back :
      (me np : ℕ) (k k1 k' : Kernel sv)
      → me ≢ np
      → ((j : ℕ) → j ≢ np → k1.table.procs j ≡ k.table.procs j)
      → IsChild sv me np k1 k'
      → IsChild sv me np k k'
  IsChild-back me np k k1 k' ne others c = record {
    state = c.state;
    parent = c.parent;
    trace_mask = c.trace_mask ∙ ap (λ p. p.trace_mask) (others me ne);
    sz = c.sz ∙ ap (λ p. p.sz) (others me ne);
    cwd = c.cwd ∙ ap (λ p. p.cwd) (others me ne);
    files = λ i lt h.
        c.files i lt (λ x. h (sym (ap (λ p. p.ofile i) (others me ne)) ∙ x))
        ∙ ap (λ p. p.ofile i) (others me ne);
    others = λ j h. c.others j h ∙ others j h;
  }

  -- Where `fork` by a running process returns a pid, the child is a slot that was UNUSED, with the
  -- next pid: it is runnable, a child of the caller, with its size, directory, open files and trace
  -- mask, and no other process changes.
  pub fork-IsChild :
      (me pid : ℕ) (k k' : Kernel sv)
      → (k.table.procs me).state ≡ State.running
      → fork sv me k ≡ some (some pid, k')
      → (np : ℕ) × (np < nproc)
        × (is_unused (k.table.procs np).state ≡ true)
        × (pid ≡ k.table.nextpid)
        × ((k'.table.procs np).pid ≡ pid)
        × IsChild sv me np k k'
  unfolding fork
  fork-IsChild me pid k k' runs e = elim (Option-cases (allocproc sv k)) [
    | inl n ↦ absurd (ground (arith, n, e))
    | inr ((none, k1), n) ↦ absurd (ground (arith, n, e))
    | inr ((some np, k1), n) ↦
        let (lt, free, taken) = allocproc-IsTaken sv np k k1 n in
        let ne : me ≢ np =
          λ x. absurd (ground (arith, runs, ap (λ m. is_unused (k.table.procs m).state) x, free)) in
        let p1 = k1.table.procs me in
        elim (Option-cases (sv.uvmcopy p1.pagetable (k1.table.procs np).pagetable p1.sz k1.rest)) [
          | inl c ↦ absurd (ground (arith, n, c, e))
          | inr ((false, r2), c) ↦
              let k2 : Kernel sv = record k1 { rest = r2 } in
              absurd (ground (arith, n, c, e, give_up-none sv np k2 k' (some pid)))
          | inr ((true, r2), c) ↦
              let k2 : Kernel sv = record k1 { rest = r2 } in
              let (child, answer, numbered) =
                fill_child-IsChild sv me np k2 k' (some pid) ne (ground (arith, n, c, e)) in
              let same : pid ≡ (k1.table.procs np).pid = ground arith in
              (
                np,
                lt,
                free,
                same ∙ taken.numbered,
                numbered ∙ sym same,
                IsChild-back me np k k2 k' ne taken.others child,
              )
        ]
  ]
