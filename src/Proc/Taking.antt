-- ===== src/Proc/Taking.antt =====
-- The slot that `allocproc` takes.
use intro2os_project.Prelude.{
  ℕ, zero, suc, ◌+◌, ◌<◌, ◌≡◌, ◌≢◌, inl, inr, ap, ◌∙◌, sym, subst, true, Option, none, some, ◌==◌,
  update_self, update_ne, u32, arith, Bool-cases, Option-cases,
}
use intro2os_project.Proc.{Proc, State, Table, put, nproc, allocpid, is_unused}
use intro2os_project.Proc.Life.{
  Services, Kernel, found, give_up, proc_pagetable, ready_at_forkret, allocproc, find_unused,
  with_frame,
}

module _ (sv : Services) where
  proc_pagetable-table :
      (i pt : ℕ) (k k' : Kernel sv) → proc_pagetable sv i k ≡ some (pt, k') → k'.table ≡ k.table
  unfolding proc_pagetable
  proc_pagetable-table i pt k k' e = ground arith

  pub give_up-none :
      (i : ℕ) (k k' : Kernel sv) (r : Option ℕ) → give_up sv i k ≡ some (r, k') → r ≡ none
  unfolding give_up
  give_up-none i k k' r e = ground arith

  -- The slot `i` is taken for a process, with the next pid, and no other slot changes.
  pub record IsTaken (i np pid : ℕ) (t t' : Table) : Type 0 where
    pub index : np ≡ i
    pub numbered : (t'.procs i).pid ≡ pid
    pub others : (j : ℕ) → j ≢ i → t'.procs j ≡ t.procs j

  ready-IsTaken :
      (i np : ℕ) (k k' : Kernel sv)
      → ready_at_forkret sv i k ≡ some (some np, k')
      → IsTaken i np (k.table.procs i).pid k.table k'.table
  unfolding ready_at_forkret
  ready-IsTaken i np k k' e = record {
    index = ground arith;
    numbered = ground arith;
    others = λ j h. ground arith;
  }

  with_frame-IsTaken :
      (i np frame : ℕ) (k k' : Kernel sv)
      → with_frame sv i frame k ≡ some (some np, k')
      → IsTaken i np (k.table.procs i).pid k.table k'.table
  unfolding with_frame
  with_frame-IsTaken i np frame k k' e = elim (Bool-cases (frame == 0)) [
    | inl z ↦ absurd (ground (arith, z, e, give_up-none i k k' (some np)))
    | inr z ↦ elim (Option-cases (proc_pagetable sv i k)) [
      | inl n ↦ absurd (ground (arith, z, n, e))
      | inr ((pt, k2), n) ↦
          let same : k2.table ≡ k.table = proc_pagetable-table i pt k k2 n in
          let p3 = record (k2.table.procs i) { pagetable = pt } in
          let k3 : Kernel sv = record k2 { table = put i p3 k2.table } in
          elim (Bool-cases (pt == 0)) [
            | inl y ↦ absurd (ground (arith, z, n, y, e, give_up-none i k3 k' (some np)))
            | inr y ↦
                let r = ready-IsTaken i np k3 k' (ground (arith, z, n, y, e)) in
                record {
                  index = r.index;
                  numbered =
                      r.numbered
                      ∙ ap (λ p. p.pid) (update_self k2.table.procs i p3)
                      ∙ ap (λ t. (t.procs i).pid) same;
                  others = λ j h.
                      r.others j h
                      ∙ update_ne k2.table.procs i p3 j (λ x. h (sym x))
                      ∙ ap (λ t. t.procs j) same;
                }
          ]
    ]
  ]

  found-IsTaken :
      (i np : ℕ) (k k' : Kernel sv)
      → found sv i k ≡ some (some np, k')
      → IsTaken i np k.table.nextpid k.table k'.table
  unfolding found allocpid
  found-IsTaken i np k k' e =
      let pA = record (k.table.procs i) { pid = k.table.nextpid; state = State.used } in
      let tA = put i pA (record k.table { nextpid = u32 (k.table.nextpid + 1) }) in
      let pB = record (tA.procs i) { trapframe = (sv.kalloc k.rest).0 } in
      let kB : Kernel sv = record { table = put i pB tA; rest = (sv.kalloc k.rest).1 } in
      let r = with_frame-IsTaken i np (sv.kalloc k.rest).0 kB k' e in
      record {
        index = r.index;
        numbered =
            r.numbered
            ∙ ap (λ p. p.pid) (update_self tA.procs i pB)
            ∙ ap (λ p. p.pid) (update_self k.table.procs i pA);
        others = λ j h.
            r.others j h
            ∙ update_ne tA.procs i pB j (λ x. h (sym x))
            ∙ update_ne k.table.procs i pA j (λ x. h (sym x));
      }

  find_unused_sound :
      (procs : ℕ → Proc) (i n j : ℕ)
      → find_unused procs i n ≡ some j
      → (j < i + n) × (is_unused (procs j).state ≡ true)
  unfolding find_unused
  find_unused_sound procs i zero j e = absurd (cc)
  find_unused_sound procs i (suc n) j e = elim (Bool-cases (is_unused (procs i).state)) [
    | inl z ↦
        let same : i ≡ j = ground (arith, z, e) in
        (omega (arith, same), subst (λ m. is_unused (procs m).state ≡ true) same z)
    | inr z ↦
        let r = find_unused_sound procs (i + 1) n j (ground (arith, z, e)) in
        (omega (arith, r.0), r.1)
  ]

  pub allocproc-IsTaken :
      (np : ℕ) (k k' : Kernel sv)
      → allocproc sv k ≡ some (some np, k')
      → (np < nproc)
        × (is_unused (k.table.procs np).state ≡ true)
        × IsTaken np np k.table.nextpid k.table k'.table
  unfolding allocproc
  allocproc-IsTaken np k k' e = elim (Option-cases (find_unused k.table.procs 0 nproc)) [
    | inl n ↦ absurd (ground (arith, n, e))
    | inr (i, n) ↦
        let t = found-IsTaken i np k k' (ground (arith, n, e)) in
        let u = find_unused_sound k.table.procs 0 nproc i n in
        subst
          (λ m.
            (m < nproc)
              × (is_unused (k.table.procs m).state ≡ true)
              × IsTaken m np k.table.nextpid k.table k'.table
            → (np < nproc)
              × (is_unused (k.table.procs np).state ≡ true)
              × IsTaken np np k.table.nextpid k.table k'.table)
          t.index (λ h. h) (u.0, u.1, t)
  ]
