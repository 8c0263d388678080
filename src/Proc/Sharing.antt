-- ===== src/Proc/Sharing.antt =====
-- What a child of `fork` takes from its parent.
use intro2os_project.Prelude.{
  ℕ, zero, suc, ◌+◌, ◌≤◌, ◌<◌, ◌≡◌, ◌≢◌, inl, inr, refl, ap, fun_ext, ◌∙◌, sym, subst, Option, some,
  ◌==◌, update, update_self, update_ne, arith, Bool-cases, Option-cases, ==_iff, ℕ_discrete,
}
use intro2os_project.Proc.{Proc, State, Table, ptr, put, nofile}
use intro2os_project.Proc.Life.{Services, Kernel, share_files, fill_child}
use intro2os_project.Text.{safestrcpy}

module _ (sv : Services) where
  -- The fields of a process that `share_files` leaves.
  record IsKept (p q : Proc) : Type 0 where
    state : q.state ≡ p.state
    pid : q.pid ≡ p.pid
    sz : q.sz ≡ p.sz
    trace_mask : q.trace_mask ≡ p.trace_mask

  IsKept-refl : (p : Proc) → IsKept p p
  IsKept-refl p = record { state = refl; pid = refl; sz = refl; trace_mask = refl }

  -- The files from `fd` on have been shared.
  record IsShared (me np fd n : ℕ) (k k' : Kernel sv) : Type 0 where
    kept : IsKept (k.table.procs np) (k'.table.procs np)
    others : (j : ℕ) → j ≢ np → k'.table.procs j ≡ k.table.procs j
    shared :
        (i : ℕ)
        → fd ≤ i
        → i < fd + n
        → (k.table.procs me).ofile i ≢ 0
        → (k'.table.procs np).ofile i ≡ (k.table.procs me).ofile i
    before : (i : ℕ) → i < fd → (k'.table.procs np).ofile i ≡ (k.table.procs np).ofile i

  share_files-IsShared :
      (me np fd n : ℕ) (k k' : Kernel sv)
      → me ≢ np
      → share_files sv me np fd n k ≡ some (tt, k')
      → IsShared me np fd n k k'
  unfolding share_files
  share_files-IsShared me np fd zero k k' ne e =
      let same : k ≡ k' = ground arith in
      subst (λ x. IsShared me np fd 0 k x) same
        (record {
          kept = IsKept-refl (k.table.procs np);
          others = λ j h. refl;
          shared = λ i lo hi h. absurd (omega arith);
          before = λ i lt. refl;
        })
  share_files-IsShared me np fd (suc n) k k' ne e =
      elim (Bool-cases ((k.table.procs me).ofile fd == 0)) [
        | inl z ↦
            let r = share_files-IsShared me np (fd + 1) n k k' ne (ground (arith, z, e)) in
            record {
              kept = r.kept;
              others = r.others;
              shared = λ i lo hi h. elim (ℕ_discrete fd i) [
                | yes s ↦ absurd (
                    h (
                      subst (λ m. (k.table.procs me).ofile m ≡ 0) s
                        ((==_iff ((k.table.procs me).ofile fd) 0).0 z)))
                | no s ↦ r.shared i (omega arith) (omega arith) h
              ];
              before = λ i lt. r.before i (omega arith);
            }
        | inr z ↦ elim (Option-cases (sv.filedup ((k.table.procs me).ofile fd) k.rest)) [
          | inl d ↦ absurd (ground (arith, z, d, e))
          | inr (rest, d) ↦
              let q = k.table.procs np in
              let k1 : Kernel sv = record {
                table =
                    put np (record q { ofile = update q.ofile fd ((k.table.procs me).ofile fd) })
                      k.table;
                rest = rest;
              } in
              let r = share_files-IsShared me np (fd + 1) n k1 k' ne (ground (arith, z, d, e)) in
              let p1 = record q { ofile = update q.ofile fd ((k.table.procs me).ofile fd) } in
              let at_np : k1.table.procs np ≡ p1 = update_self k.table.procs np p1 in
              let at_me : k1.table.procs me ≡ k.table.procs me =
                update_ne k.table.procs np p1 me (λ x. ne (sym x)) in
              record {
                kept = record {
                  state = r.kept.state ∙ ap (λ p. p.state) at_np;
                  pid = r.kept.pid ∙ ap (λ p. p.pid) at_np;
                  sz = r.kept.sz ∙ ap (λ p. p.sz) at_np;
                  trace_mask = r.kept.trace_mask ∙ ap (λ p. p.trace_mask) at_np;
                };
                others = λ j h. r.others j h ∙ update_ne k.table.procs np p1 j (λ x. h (sym x));
                shared = λ i lo hi h. elim (ℕ_discrete fd i) [
                  | yes s ↦
                      subst (λ m. (k'.table.procs np).ofile m ≡ (k.table.procs me).ofile m) s
                        (r.before fd (omega arith)
                          ∙ ap (λ p. p.ofile fd) at_np
                          ∙ update_self q.ofile fd ((k.table.procs me).ofile fd))
                  | no s ↦
                      r.shared i (omega arith) (omega arith)
                        (λ x. h (sym (ap (λ p. p.ofile i) at_me) ∙ x))
                      ∙ ap (λ p. p.ofile i) at_me
                ];
                before = λ i lt.
                    r.before i (omega arith)
                    ∙ ap (λ p. p.ofile i) at_np
                    ∙ update_ne q.ofile fd ((k.table.procs me).ofile fd) i (omega arith);
              }
        ]
      ]

  -- The child `np` of process `me`: what `fork` has copied, and that nothing else of the table changes.
  pub record IsChild (me np : ℕ) (k k' : Kernel sv) : Type 0 where
    pub state : (k'.table.procs np).state ≡ State.runnable
    pub parent : (k'.table.procs np).parent ≡ ptr me
    pub trace_mask : (k'.table.procs np).trace_mask ≡ (k.table.procs me).trace_mask
    pub sz : (k'.table.procs np).sz ≡ (k.table.procs me).sz
    pub cwd : (k'.table.procs np).cwd ≡ (k.table.procs me).cwd
    pub files :
        (i : ℕ)
        → i < nofile
        → (k.table.procs me).ofile i ≢ 0
        → (k'.table.procs np).ofile i ≡ (k.table.procs me).ofile i
    pub others : (j : ℕ) → j ≢ np → k'.table.procs j ≡ k.table.procs j

  -- The last assignments of `fork`, behind the loop.
  abbrev last : Proc → ℕ → Proc → Proc
  last p me q = record q {
    cwd = p.cwd;
    name = safestrcpy q.name p.name 16;
    parent = ptr me;
    state = State.runnable;
  }

  put_twice : (i : ℕ) (p q : Proc) (t : Table) → put i q (put i p t) ≡ put i q t
  put_twice i p q t = ap (λ f. record t { procs = f }) (fun_ext (λ j. ground arith))

  fill_child_inv :
      (me np : ℕ) (k k' : Kernel sv) (r : Option ℕ)
      → fill_child sv me np k ≡ some (r, k')
      → let p = k.table.procs me in
        let kA : Kernel sv = record {
          table =
              put np (record (k.table.procs np) { sz = p.sz; trace_mask = p.trace_mask }) k.table;
          rest = sv.copy_trapframe p.trapframe (k.table.procs np).trapframe k.rest;
        } in
        (k2 : Kernel sv) × (share_files sv me np 0 nofile kA ≡ some (tt, k2))
        × (r ≡ some (k.table.procs np).pid)
        × (k'.table.procs np ≡ last p me (k2.table.procs np))
        × ((j : ℕ) → j ≢ np → k'.table.procs j ≡ k2.table.procs j)
  unfolding fill_child
  fill_child_inv me np k k' r e =
      let p = k.table.procs me in
      let pA = record (k.table.procs np) { sz = p.sz; trace_mask = p.trace_mask } in
      let kA : Kernel sv = record {
        table = put np pA k.table;
        rest = sv.copy_trapframe p.trapframe (k.table.procs np).trapframe k.rest;
      } in
      let self : (put np pA k.table).procs np ≡ pA = update_self k.table.procs np pA in
      elim (Option-cases (share_files sv me np 0 nofile kA)) [
        | inl n ↦ absurd (ground (arith, n, e, self))
        | inr ((u, k2), n) ↦ (
          k2,
          n,
          ground (arith, n, e, self),
          ground (arith, n, e, self),
          λ j h. ground (arith, n, e, self),
        )
      ]

  pub fill_child-IsChild :
      (me np : ℕ) (k k' : Kernel sv) (r : Option ℕ)
      → me ≢ np
      → fill_child sv me np k ≡ some (r, k')
      → IsChild me np k k'
        × (r ≡ some (k.table.procs np).pid)
        × ((k'.table.procs np).pid ≡ (k.table.procs np).pid)
  fill_child-IsChild me np k k' r ne e =
      let p = k.table.procs me in
      let pA = record (k.table.procs np) { sz = p.sz; trace_mask = p.trace_mask } in
      let kA : Kernel sv = record {
        table = put np pA k.table;
        rest = sv.copy_trapframe p.trapframe (k.table.procs np).trapframe k.rest;
      } in
      let (k2, n, answer, end, rest) = fill_child_inv me np k k' r e in
      let s = share_files-IsShared me np 0 nofile kA k2 ne n in
      let self : kA.table.procs np ≡ pA = update_self k.table.procs np pA in
      let parent : kA.table.procs me ≡ p = update_ne k.table.procs np pA me (λ x. ne (sym x)) in
      (
        record {
          state = ap (λ q. q.state) end;
          parent = ap (λ q. q.parent) end;
          trace_mask = ap (λ q. q.trace_mask) end ∙ s.kept.trace_mask ∙ ap (λ q. q.trace_mask) self;
          sz = ap (λ q. q.sz) end ∙ s.kept.sz ∙ ap (λ q. q.sz) self;
          cwd = ap (λ q. q.cwd) end;
          files = λ i lt h.
              ap (λ q. q.ofile i) end
              ∙ s.shared i (omega arith) (omega arith)
                  (λ x. h (sym (ap (λ q. q.ofile i) parent) ∙ x))
              ∙ ap (λ q. q.ofile i) parent;
          others =
              λ j h. rest j h ∙ s.others j h ∙ update_ne k.table.procs np pA j (λ x. h (sym x));
        },
        answer,
        ap (λ q. q.pid) end ∙ s.kept.pid ∙ ap (λ q. q.pid) self,
      )
