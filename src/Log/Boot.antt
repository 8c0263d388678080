-- ===== src/Log/Boot.antt =====
-- What boots make of the disk, and how many disk writes they need.
use intro2os_project.Prelude.{
  ℕ, zero, suc, ◌+◌, ◌≤◌, ◌<◌, ◌≡◌, ◌≢◌, ◌⊎◌, inl, inr, refl, ap, ◌∙◌, sym, subst, true, false,
  Bool, arith, ℕ_discrete, List, [], ◌∷◌,
}
use intro2os_project.Log.Recovery.Header.{
  header_count, read_head_names, write_head_ne, write_head_dead, write_head_at,
}
use intro2os_project.Log.{
  Log, Store, Block, bwrite, bunpin, install_one, install_from, install_trans, read_head,
  write_head, recover_from_log, initlog,
}
use intro2os_project.Log.Disk.{IsLaidOut}
use intro2os_project.Log.Recovery.{
  reboot, IsOld, IsPending, IsNew, Agree, Agree-symm, Agree-IsLaidOut, Agree-IsPending, Agree-IsNew,
  head-Outside, finish_ends,
}

-- Every round of `install_trans` writes once.
power-install_one :
    (r : Bool) (l : Log) (i : ℕ) (s : Store) → s.power ≤ (install_one r l i s).power + 1
unfolding install_one bwrite bunpin
power-install_one r l i s = ground arith

power-install_from :
    (r : Bool) (l : Log) (i k : ℕ) (s : Store) → s.power ≤ (install_from r l i k s).power + k
unfolding install_from
power-install_from r l i zero s = omega arith
power-install_from r l i (suc k) s =
    omega (arith, power-install_from r l (i + 1) k (install_one r l i s), power-install_one r l i s)

pub power-install_trans :
    (r : Bool) (l : Log) (s : Store) → s.power ≤ (install_trans r l s).power + l.n
unfolding install_trans
power-install_trans r l s = power-install_from r l 0 l.n s

empty-install_trans : (r : Bool) (l : Log) (s : Store) → l.n ≡ 0 → install_trans r l s ≡ s
unfolding install_trans install_from
empty-install_trans r l s e = subst (λ k. install_from r l 0 k s ≡ s) (sym e) refl

-- The disk that a boot with `power` disk writes leaves.
unfoldable pub after_boot : Log → ℕ → (ℕ → Block) → ℕ → Block
after_boot l power d = (initlog l.start l.size (reboot d power)).1.disk

module _ (l : Log) (laid : IsLaidOut l) (want old : ℕ → Block) (power : ℕ) (d : ℕ → Block) where
  -- The log that `read_head` finds on the disk.
  abbrev booted : Log
  booted =
      read_head
        (record {
          start = l.start;
          size = l.size;
          outstanding = 0;
          committing = false;
          n = 0;
          block = λ _. 0;
        })
        (reboot d power)

  boot_fields : (booted.start ≡ l.start) × (booted.size ≡ l.size) × (booted.n ≡ d l.start 0)
  unfolding read_head
  boot_fields = (refl, refl, refl)

  boot_disk :
      after_boot l power d
      ≡ (write_head (record booted { n = 0 }) (install_trans true booted (reboot d power))).disk
  unfolding after_boot initlog recover_from_log
  boot_disk = refl

  -- A boot from an empty log changes at most the header block, and leaves the log empty.
  boot_empty :
      d l.start 0 ≡ 0
      → (after_boot l power d l.start 0 ≡ 0)
        × ((c : ℕ) → l.start ≢ c → after_boot l power d c ≡ d c)
  boot_empty e =
      rw (boot_disk, empty-install_trans true booted (reboot d power) (boot_fields.2 ∙ e))
        (
          ap (λ k. (write_head end (reboot d power)).disk k 0) (sym boot_fields.0)
              ∙ elim (ℕ_discrete power 0) [
                | yes dead ↦
                    ap (λ b. b end.start 0) (write_head_dead end (reboot d power) dead)
                    ∙ ap (λ k. d k 0) boot_fields.0
                    ∙ e
                | no alive ↦
                    ap (λ b. b 0) (write_head_at end (reboot d power) alive)
                    ∙ header_count (d end.start) end
              ],
          λ c h. write_head_ne end (reboot d power) c (λ k. h (sym boot_fields.0 ∙ k)),
        )
    where
      end : Log
      end = record booted { n = 0 }

  boot-IsOld : IsOld l want old d → IsOld l want old (after_boot l power d)
  boot-IsOld o = record {
    empty = (boot_empty o.empty).0;
    same = λ c out.
        (boot_empty o.empty).1 c (head-Outside l c (omega (arith, laid.room)) out) ∙ o.same c out;
  }

  boot-IsNew : IsNew l want old d → IsNew l want old (after_boot l power d)
  boot-IsNew o = record {
    empty = (boot_empty o.empty).0;
    home = λ j h.
        (boot_empty o.empty).1 (l.block j)
          (head-Outside l _ (omega (arith, laid.room)) (laid.homes j h))
        ∙ o.home j h;
    same = λ c out away.
        (boot_empty o.empty).1 c (head-Outside l c (omega (arith, laid.room)) out)
        ∙ o.same c out away;
  }

  boot_agrees : IsPending l want old d → Agree l booted
  boot_agrees p = record {
    start = boot_fields.0;
    size = boot_fields.1;
    count = boot_fields.2 ∙ p.count;
    names = λ j h. read_head_names _ (reboot d power) j (omega (arith, p.count)) ∙ p.names j h;
  }

  -- A boot from a pending transaction ends it, unless the machine stops before the last write.
  boot-IsPending :
      IsPending l want old d
      → (IsPending l want old (after_boot l power d) × (power ≤ l.n))
        ⊎ IsNew l want old (after_boot l power d)
  boot-IsPending p =
      rw boot_disk
        (elim (finish_ends true booted (Agree-IsLaidOut a want old laid) want old (reboot d power)
          here here.logs) [
            | inl q ↦ inl (
              Agree-IsPending (Agree-symm a) want old _ q.0,
              omega (arith, q.1, a.count, power-install_trans true booted (reboot d power)),
            )
            | inr q ↦ inr (Agree-IsNew (Agree-symm a) want old _ q)
          ])
    where
      a : Agree l booted
      a = boot_agrees p

      here : IsPending booted want old d
      here = Agree-IsPending a want old d p

-- A disk from which a boot can still restore all or nothing of the transaction.
abbrev pub IsSound : Log → (ℕ → Block) → (ℕ → Block) → (ℕ → Block) → Type 0
IsSound l want old d = IsOld l want old d ⊎ (IsPending l want old d ⊎ IsNew l want old d)

-- Boots that the machine may not survive, one after the other.
unfoldable pub boots : Log → List ℕ → (ℕ → Block) → ℕ → Block
boots l [] d = d
boots l (power ∷ powers) d = boots l powers (after_boot l power d)

boot-IsSound :
    (l : Log) (laid : IsLaidOut l) (want old : ℕ → Block) (power : ℕ) (d : ℕ → Block)
    → IsSound l want old d
    → IsSound l want old (after_boot l power d)
boot-IsSound l laid want old power d (inl o) = inl (boot-IsOld l laid want old power d o)
boot-IsSound l laid want old power d (inr (inl p)) =
    elim (boot-IsPending l laid want old power d p) [ inl q ↦ inr (inl q.0) | inr q ↦ inr (inr q) ]
boot-IsSound l laid want old power d (inr (inr q)) =
    inr (inr (boot-IsNew l laid want old power d q))

pub boots-IsSound :
    (l : Log) (laid : IsLaidOut l) (want old : ℕ → Block) (powers : List ℕ) (d : ℕ → Block)
    → IsSound l want old d
    → IsSound l want old (boots l powers d)
unfolding boots
boots-IsSound l laid want old [] d h = h
boots-IsSound l laid want old (power ∷ powers) d h =
    boots-IsSound l laid want old powers (after_boot l power d)
      (boot-IsSound l laid want old power d h)

-- A boot with power for the entries and the header restores all or nothing.
pub boot_decides :
    (l : Log) (laid : IsLaidOut l) (want old : ℕ → Block) (power : ℕ) (d : ℕ → Block)
    → l.n < power
    → IsSound l want old d
    → IsOld l want old (after_boot l power d) ⊎ IsNew l want old (after_boot l power d)
boot_decides l laid want old power d enough (inl o) = inl (boot-IsOld l laid want old power d o)
boot_decides l laid want old power d enough (inr (inl p)) =
    elim (boot-IsPending l laid want old power d p) [
      | inl q ↦ absurd (omega (arith, q.1))
      | inr q ↦ inr q
    ]
boot_decides l laid want old power d enough (inr (inr q)) =
    inr (boot-IsNew l laid want old power d q)
