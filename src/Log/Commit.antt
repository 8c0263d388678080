-- ===== src/Log/Commit.antt =====
-- `commit`, stopped at any disk write: after the next complete boot all of the transaction is on the
-- disk or none of it.
use intro2os_project.Prelude.{
  ℕ, zero, suc, ◌+◌, ◌*◌, ◌≤◌, ◌<◌, ◌≡◌, ◌≢◌, ◌⊎◌, inl, inr, refl, ap, ◌∙◌, sym, subst, false, ◌==◌,
  List, arith, Bool-cases, ℕ_discrete,
}
use intro2os_project.Log.{
  Log, Store, Block, bwrite, log_one, write_log_from, write_log, write_head, install_trans, commit,
}
use intro2os_project.Log.Disk.{IsLaidOut, disk-bwrite_ne, install_trans_dead}
use intro2os_project.Log.Recovery.{head-Outside, IsOld, IsPending, IsNew, finish_ends}
use intro2os_project.Log.Boot.{
  power-install_trans, IsSound, boots, boots-IsSound, boot_decides, after_boot,
}
use intro2os_project.Log.Recovery.Header.{
  header_count, header_names, write_head_ne, write_head_dead, write_head_at, view-write_head,
  power-write_head,
}

-- How far `write_log` has come: `i` entries are in the log, or the machine has stopped.
record Copied (l : Log) (i : ℕ) (before after : Store) : Type 0 where
  homes : (j : ℕ) → j < l.n → after.view (l.block j) ≡ before.view (l.block j)
  logs : (j : ℕ) → j < i → after.view (l.start + j + 1) ≡ before.view (l.block j)
  kept : (c : ℕ) → ((j : ℕ) → j < l.n → l.start + j + 1 ≢ c) → after.disk c ≡ before.disk c
  done :
      (after.power ≡ 0) ⊎ ((j : ℕ) → j < i → after.disk (l.start + j + 1) ≡ before.view (l.block j))

module _ (l : Log) (laid : IsLaidOut l) where
  log_one_view :
      (i : ℕ) (s : Store)
      → ((log_one l i s).view (l.start + i + 1) ≡ s.view (l.block i))
        × ((c : ℕ) → l.start + i + 1 ≢ c → (log_one l i s).view c ≡ s.view c)
  unfolding log_one bwrite
  log_one_view i s = (ground arith, λ c h. ground arith)

  log_one_disk : (i c : ℕ) (s : Store) → l.start + i + 1 ≢ c → (log_one l i s).disk c ≡ s.disk c
  unfolding log_one
  log_one_disk i c s h = disk-bwrite_ne (l.start + i + 1) c _ h

  log_one_done :
      (i : ℕ) (s : Store)
      → ((log_one l i s).power ≡ 0) ⊎ ((log_one l i s).disk (l.start + i + 1) ≡ s.view (l.block i))
  unfolding log_one bwrite
  log_one_done i s = elim (Bool-cases (s.power == 0)) [
    | inl e ↦ inl (ground arith)
    | inr e ↦ inr (ground arith)
  ]

  log_one_dead : (i : ℕ) (s : Store) → s.power ≡ 0 → (log_one l i s).power ≡ 0
  unfolding log_one bwrite
  log_one_dead i s h = ground arith

  log_one-Copied :
      (i : ℕ) (b s : Store) → i < l.n → Copied l i b s → Copied l (i + 1) b (log_one l i s)
  log_one-Copied i b s h p = record {
    homes = λ j hj.
        (log_one_view i s).1 (l.block j) (λ e. ground (arith, laid.homes j hj, laid.room))
        ∙ p.homes j hj;
    logs = λ j hj. entry j hj (ℕ_discrete i j);
    kept = λ c away. log_one_disk i c s (away i h) ∙ p.kept c away;
    done = elim p.done [
      | inl dead ↦ inl (log_one_dead i s dead)
      | inr old ↦ elim (log_one_done i s) [
        | inl dead ↦ inl dead
        | inr now ↦ inr (λ j hj. written old now j hj (ℕ_discrete i j))
      ]
    ];
  }
    where
      entry :
          (j : ℕ)
          → j < i + 1
          → Dec (i ≡ j)
          → (log_one l i s).view (l.start + j + 1) ≡ b.view (l.block j)
      entry j hj (yes e) =
          subst (λ k. (log_one l i s).view (l.start + k + 1) ≡ b.view (l.block k)) e
            ((log_one_view i s).0 ∙ p.homes i h)
      entry j hj (no e) =
          (log_one_view i s).1 (l.start + j + 1) (omega arith) ∙ p.logs j (omega arith)

      written :
          ((j : ℕ) → j < i → s.disk (l.start + j + 1) ≡ b.view (l.block j))
          → (log_one l i s).disk (l.start + i + 1) ≡ s.view (l.block i)
          → (j : ℕ) → j < i + 1
          → Dec (i ≡ j)
          → (log_one l i s).disk (l.start + j + 1) ≡ b.view (l.block j)
      written old now j hj (yes e) =
          subst (λ k. (log_one l i s).disk (l.start + k + 1) ≡ b.view (l.block k)) e
            (now ∙ p.homes i h)
      written old now j hj (no e) =
          log_one_disk i (l.start + j + 1) s (omega arith) ∙ old j (omega arith)

  write_log_from-Copied :
      (i k : ℕ) (b s : Store)
      → i + k ≡ l.n
      → Copied l i b s
      → Copied l l.n b (write_log_from l i k s)
  unfolding write_log_from
  write_log_from-Copied i zero b s e p =
      let e' : i ≡ l.n = omega arith in subst (λ m. Copied l m b s) e' p
  write_log_from-Copied i (suc k) b s e p =
      write_log_from-Copied (i + 1) k b (log_one l i s) (omega arith)
        (log_one-Copied i b s (omega arith) p)

  write_log-Copied : (s : Store) → Copied l l.n s (write_log l s)
  unfolding write_log
  write_log-Copied s = write_log_from-Copied 0 l.n s s (omega arith) (record {
    homes = λ j h. refl;
    logs = λ j h. absurd (omega arith);
    kept = λ c away. refl;
    done = inr (λ j h. absurd (omega arith));
  })

  -- The contents that the transaction is to write: what the buffer cache shows for each block.
  abbrev logged : Store → ℕ → Block
  logged s = s.view

  written_IsOld :
      (s : Store) → s.disk l.start 0 ≡ 0 → IsOld l (logged s) s.disk (write_log l s).disk
  written_IsOld s e = record {
    empty = ap (λ b. b 0) ((write_log-Copied s).kept l.start (λ j h k. omega arith)) ∙ e;
    same = λ c o. (write_log-Copied s).kept c (λ j h k. ground (arith, laid.room));
  }

  headed_IsPending :
      (s : Store)
      → (write_log l s).power ≢ 0
      → IsPending l (logged s) s.disk (write_head l (write_log l s)).disk
  headed_IsPending s alive = record {
    count = ap (λ b. b 0) (write_head_at l t alive) ∙ header_count (t.view l.start) l;
    names =
        λ j h. ap (λ b. b (j + 1)) (write_head_at l t alive) ∙ header_names (t.view l.start) l j h;
    logs = λ j h.
        write_head_ne l t (l.start + j + 1) (λ e. omega arith)
        ∙ elim c.done [ inl dead ↦ absurd (alive dead) | inr all ↦ all j h ];
    same = λ b o away.
        write_head_ne l t b (head-Outside l b (omega (arith, laid.room)) o)
        ∙ c.kept b (λ j h k. ground (arith, laid.room));
  }
    where
      t : Store
      t = write_log l s

      c : Copied l l.n s t
      c = write_log-Copied s

  -- The disk behind the last write of `commit`.
  abbrev final : Store → Store
  final s = write_head (record l { n = 0 }) (install_trans false l (write_head l (write_log l s)))

  final-IsSound :
      (s : Store)
      → s.disk l.start 0 ≡ 0
      → IsSound l (logged s) s.disk (final s).disk
        × ((install_trans false l (write_head l (write_log l s))).power ≢ 0
            → IsNew l (logged s) s.disk (final s).disk)
  final-IsSound s e = elim (ℕ_discrete (write_log l s).power 0) [
    | yes dead ↦
        let stopped : (write_head l (write_log l s)).power ≡ 0 =
          omega (arith, power-write_head l (write_log l s)) in
        let idle =
          install_trans_dead false (logged s) l laid (write_head l (write_log l s)) stopped in
        (
          inl (
              subst (IsOld l (logged s) s.disk)
                (sym (
                  write_head_dead (record l { n = 0 }) _ idle.0
                  ∙ idle.1
                  ∙ write_head_dead l (write_log l s) dead))
                (written_IsOld s e)),
          λ running. absurd (running idle.0),
        )
    | no alive ↦
        elim (finish_ends false l laid (logged s) s.disk (write_head l (write_log l s))
          (headed_IsPending s alive) views) [
            | inl q ↦ (inr (inl q.0), λ running. absurd (running q.1))
            | inr q ↦ (inr (inr q), λ running. q)
          ]
  ]
    where
      views :
          (j : ℕ)
          → j < l.n
          → (write_head l (write_log l s)).view (l.start + j + 1) ≡ logged s (l.block j)
      views j h =
          (view-write_head l (write_log l s)).1 (l.start + j + 1) (λ e. omega arith)
          ∙ (write_log-Copied s).logs j h

  power-log_one : (i : ℕ) (s : Store) → s.power ≤ (log_one l i s).power + 1
  unfolding log_one bwrite
  power-log_one i s = ground arith

  power-write_log_from : (i k : ℕ) (s : Store) → s.power ≤ (write_log_from l i k s).power + k
  unfolding write_log_from
  power-write_log_from i zero s = omega arith
  power-write_log_from i (suc k) s =
      omega (arith, power-write_log_from (i + 1) k (log_one l i s), power-log_one i s)

  power-write_log : (s : Store) → s.power ≤ (write_log l s).power + l.n
  unfolding write_log
  power-write_log s = power-write_log_from 0 l.n s

  commit-disk :
      (s : Store)
      → 0 < l.n
      → ((commit l s).1.disk ≡ (final s).disk) × ((commit l s).0 ≡ record l { n = 0 })
  unfolding commit
  commit-disk s h = ground arith

  commit-nothing : (s : Store) → l.n ≡ 0 → (commit l s).1.disk ≡ s.disk
  unfolding commit
  commit-nothing s h = ground arith

  commit-IsSound :
      (s : Store) → s.disk l.start 0 ≡ 0 → IsSound l (logged s) s.disk (commit l s).1.disk
  commit-IsSound s e = elim (ℕ_discrete l.n 0) [
    | yes none ↦
        subst (IsSound l (logged s) s.disk) (sym (commit-nothing s none))
          (inl (record { empty = e; same = λ c o. refl }))
    | no some ↦
        subst (IsSound l (logged s) s.disk) (sym (commit-disk s (omega arith)).0)
          (final-IsSound s e).0
  ]

-- On a well laid out log that is empty on the disk, stop `commit` at any disk write, and let any
-- number of boots fail at any of their writes. Then the first boot that has power for its writes
-- leaves either the disk of before the transaction, or the one with every logged block home, and in
-- both cases with no other block outside the log changed.
pub crash_atomic :
    (l : Log) (s : Store) (powers : List ℕ) (power : ℕ)
    → IsLaidOut l
    → s.disk l.start 0 ≡ 0
    → l.n < power
    → let d = after_boot l power (boots l powers (commit l s).1.disk) in
      IsOld l s.view s.disk d ⊎ IsNew l s.view s.disk d
crash_atomic l s powers power laid e enough =
    boot_decides l laid s.view s.disk power (boots l powers (commit l s).1.disk) enough
      (boots-IsSound l laid s.view s.disk powers (commit l s).1.disk (commit-IsSound l laid s e))

-- On a well laid out log that is empty on the disk and has blocks in memory, a `commit` with power
-- for its writes brings every logged block home, changes no other block outside the log, and
-- empties the log on the disk and in memory.
pub commit_installs :
    (l : Log) (s : Store)
    → IsLaidOut l
    → s.disk l.start 0 ≡ 0
    → 0 < l.n
    → 2 * l.n + 2 ≤ s.power
    → IsNew l s.view s.disk (commit l s).1.disk × ((commit l s).0.n ≡ 0)
commit_installs l s laid e some enough =
    let made = commit-disk l laid s some in
    (
      subst (IsNew l s.view s.disk) (sym made.0) (
          (final-IsSound l laid s e).1 (λ dead. omega (
            arith,
            dead,
            power-write_log l laid s,
            power-write_head l (write_log l s),
            power-install_trans false l (write_head l (write_log l s)),
          ))),
      ap (λ m. m.n) made.1,
    )
