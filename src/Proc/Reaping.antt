-- ===== src/Proc/Reaping.antt =====
-- What `wait` does to the table when it finds a dead child.
use intro2os_project.Prelude.{
  ℕ, zero, suc, ◌+◌, ◌<◌, ◌≡◌, ◌≢◌, ◌⊎◌, inl, inr, refl, sym, subst, Bool, true, false, not, ◌||◌,
  none, some, ◌==◌, arith, Bool-cases, Option-cases, ==_iff,
}
use intro2os_project.Proc.{
  Proc, State, ptr, put, cleared, is_zombie, nproc, scan_children, Scan, zombie_at, no_zombie,
  sleep_on,
}
use intro2os_project.Proc.Life.{
  Services, Kernel, M, proc_freepagetable, freeproc, collect, reap, after_scan, wait_round, WaitEnd,
  returned, asleep,
}
use intro2os_project.Proc.Safe.{scan_none}

zombie-of : (x : State) → is_zombie x ≡ true → x ≡ State.zombie
zombie-of State.zombie h = refl
zombie-of State.unused h = absurd (cc)
zombie-of State.used h = absurd (cc)
zombie-of State.sleeping h = absurd (cc)
zombie-of State.runnable h = absurd (cc)
zombie-of State.running h = absurd (cc)

-- The child that the scan of `wait` finds is a zombie.
scan_found :
    (procs : ℕ → Proc) (me i k : ℕ) (b : Bool) (c : ℕ)
    → scan_children procs me i k b ≡ zombie_at c
    → (c < i + k) × ((procs c).parent ≡ ptr me) × ((procs c).state ≡ State.zombie)
unfolding scan_children
scan_found procs me i zero b c e = absurd (cc)
scan_found procs me i (suc k) b c e = elim (Bool-cases ((procs i).parent == ptr me)) [
  | inl m ↦ elim (Bool-cases (is_zombie (procs i).state)) [
    | inl z ↦
        let same : i ≡ c = ground (arith, m, z, e) in
        (
          omega (arith, same),
          subst (λ x. (procs x).parent ≡ ptr me) same ((==_iff (procs i).parent (ptr me)).0 m),
          subst (λ x. (procs x).state ≡ State.zombie) same (zombie-of (procs i).state z),
        )
    | inr z ↦
        let r = scan_found procs me (i + 1) k true c (ground (arith, m, z, e)) in
        (omega (arith, r.0), r.1, r.2)
  ]
  | inr m ↦
      let r = scan_found procs me (i + 1) k b c (ground (arith, m, e)) in
      (omega (arith, r.0), r.1, r.2)
]

module _ (sv : Services) where
  -- A call that leaves the table as it is.
  abbrev Keeps : {A : Type 0} → M sv A → Type 0
  Keeps {A} m = (k : Kernel sv) (a : A) (k' : Kernel sv) → m k ≡ some (a, k') → k'.table ≡ k.table

  proc_freepagetable-Keeps : (pagetable sz : ℕ) → Keeps (proc_freepagetable sv pagetable sz)
  unfolding proc_freepagetable
  proc_freepagetable-Keeps pagetable sz k a k' e = ground arith

  freeproc-table :
      (i : ℕ) (k k' : Kernel sv)
      → freeproc sv i k ≡ some (tt, k')
      → k'.table ≡ put i (cleared (k.table.procs i)) k.table
  unfolding freeproc
  freeproc-table i k k' e =
      ground (arith, proc_freepagetable-Keeps (k.table.procs i).pagetable (k.table.procs i).sz)

  -- How a round of `wait` by process `me` ends.
  pub Waited : ℕ → Kernel sv → WaitEnd → Kernel sv → Type 0
  Waited me k (returned (some pid)) k' =
      (i : ℕ) × (i < nproc)
      × ((k.table.procs i).parent ≡ ptr me)
      × ((k.table.procs i).state ≡ State.zombie)
      × (pid ≡ (k.table.procs i).pid)
      × (k'.table ≡ put i (cleared (k.table.procs i)) k.table)
  Waited me k (returned none) k' = k'.table ≡ k.table
  Waited me k asleep k' =
      (k'.table ≡ sleep_on me (ptr me) k.table)
      × ((k.table.procs me).killed ≡ false)
      × ((i : ℕ)
          → i < nproc
          → (k.table.procs i).parent ≡ ptr me
          → (k.table.procs i).state ≢ State.zombie)

  collect-table :
      (i pid : ℕ) (k k' : Kernel sv) (end : WaitEnd)
      → collect sv i pid k ≡ some (end, k')
      → (end ≡ returned (some pid)) × (k'.table ≡ put i (cleared (k.table.procs i)) k.table)
  unfolding collect
  collect-table i pid k k' end e = elim (Option-cases (freeproc sv i k)) [
    | inl n ↦ absurd (ground (arith, n))
    | inr ((a, k2), n) ↦ ground (arith, n, freeproc-table i k k2 n)
  ]

  -- What `reap` answers: that the status could not be copied, or the pid of the child, which is cleared.
  reap-answers :
      (me addr i : ℕ) (k k' : Kernel sv) (end : WaitEnd)
      → reap sv me addr i k ≡ some (end, k')
      → ((end ≡ returned none) × (k'.table ≡ k.table))
        ⊎ ((end ≡ returned (some (k.table.procs i).pid))
            × (k'.table ≡ put i (cleared (k.table.procs i)) k.table))
  unfolding reap
  reap-answers me addr i k k' end e =
      let k1 = record k {
        rest = (sv.copyout (k.table.procs me).pagetable addr (k.table.procs i).xstate k.rest).1;
      } in
      let pid = (k.table.procs i).pid in
      elim (Bool-cases (addr == 0)) [
        | inl z ↦ inr (collect-table i pid k k' end (ground (arith, z, e)))
        | inr z ↦
            elim (Bool-cases
              (sv.copyout (k.table.procs me).pagetable addr (k.table.procs i).xstate k.rest).0) [
                | inl ok ↦ inr (collect-table i pid k1 k' end (ground (arith, z, ok, e)))
                | inr bad ↦ inl (ground (arith, z, bad, e))
              ]
      ]

  reap-Waited :
      (me addr i : ℕ) (k k' : Kernel sv) (end : WaitEnd)
      → (i < nproc) × ((k.table.procs i).parent ≡ ptr me) × ((k.table.procs i).state ≡ State.zombie)
      → reap sv me addr i k ≡ some (end, k')
      → Waited me k end k'
  unfolding Waited
  reap-Waited me addr i k k' end child e = elim (reap-answers me addr i k k' end e) [
    | inl (a, b) ↦ subst (λ x. Waited me k x k') (sym a) b
    | inr (a, b) ↦ subst (λ x. Waited me k x k') (sym a) (i, child.0, child.1, child.2, refl, b)
  ]

  Scanned : ℕ → Kernel sv → Scan → Type 0
  Scanned me k (zombie_at i) =
      (i < nproc) × ((k.table.procs i).parent ≡ ptr me) × ((k.table.procs i).state ≡ State.zombie)
  Scanned me k (no_zombie b) =
      (i : ℕ)
      → i < nproc
      → (k.table.procs i).parent ≡ ptr me
      → (k.table.procs i).state ≢ State.zombie

  after_scan-Waited :
      (me addr : ℕ) (k k' : Kernel sv) (end : WaitEnd) (s : Scan)
      → Scanned me k s
      → after_scan sv me addr s k ≡ some (end, k')
      → Waited me k end k'
  unfolding after_scan Scanned Waited
  after_scan-Waited me addr k k' end (zombie_at i) h e = reap-Waited me addr i k k' end h e
  after_scan-Waited me addr k k' end (no_zombie b) h e =
      elim (Bool-cases (not b || (k.table.procs me).killed)) [
        | inl stop ↦
            let eq : (end ≡ returned none) × (k'.table ≡ k.table) = ground (arith, stop, e) in
            subst (λ x. Waited me k x k') (sym eq.0) eq.1
        | inr go ↦
            let eq : (end ≡ asleep) × (k'.table ≡ sleep_on me (ptr me) k.table) =
              ground (arith, go, e) in
            subst (λ x. Waited me k x k') (sym eq.0) (eq.1, ground (arith, go), h)
      ]

  scanned :
      (me : ℕ) (k : Kernel sv) (s : Scan)
      → scan_children k.table.procs me 0 nproc false ≡ s
      → Scanned me k s
  unfolding Scanned
  scanned me k (zombie_at i) e = scan_found k.table.procs me 0 nproc false i e
  scanned me k (no_zombie b) e =
      λ i lt par. scan_none k.table.procs me 0 nproc false b e i (omega arith) lt par

  -- A round of `wait` that returns a pid has cleared the slot of a zombie child with that pid, and nothing
  -- else of the table, whatever the rest of the kernel does; if it returns -1 the table is as before;
  -- and it sleeps only if the process is not killed and no child of it is a zombie.
  pub wait_round-Waited :
      (me addr : ℕ) (k k' : Kernel sv) (end : WaitEnd)
      → wait_round sv me addr k ≡ some (end, k')
      → Waited me k end k'
  unfolding wait_round
  wait_round-Waited me addr k k' end e =
      let s = scan_children k.table.procs me 0 nproc false in
      after_scan-Waited me addr k k' end s (scanned me k s refl) e
