-- ===== src/Lock/Exclusion.antt =====
-- Any number of processors at one spin lock.
use intro2os_project.Prelude.{
  ℕ, suc, ◌≡◌, ◌≢◌, ◌↔◌, refl, Bool, true, false, some, none, if◌then◌else◌, update, arith,
}
use intro2os_project.Lock.{
  Spinlock, Cpu, initlock, holding, push_off, pop_off, acquire_start, test_and_set, acquire_end,
  release_start, release_unlock,
}

-- Where a processor stands: outside, in the loop of `acquire`, behind its swap, in the critical section,
-- and in `release` before and behind the store that unlocks.
pub data Pc : Type 0 where
  outside spinning entered inside leaving unlocked : Pc

pub record System : Type 0 where
  pub lock : Spinlock
  pub cpus : ℕ → Cpu
  pub at : ℕ → Pc

abbrev pub initial : Bool → System
initial on = record {
  lock = initlock;
  cpus = λ i. record { noff = 0; intena = false; intr = on };
  at = λ i. outside;
}

pub data Step (s : System) : System → Type 0 where
  starts :
      (i : ℕ) {c : Cpu}
      → s.at i ≡ outside
      → acquire_start i (s.cpus i) s.lock ≡ some c
      → Step s (record s { cpus = update s.cpus i c; at = update s.at i spinning })
  spins :
      (i : ℕ)
      → s.at i ≡ spinning
      → Step s (record s {
        lock = (test_and_set s.lock).1;
        at = update s.at i (if (test_and_set s.lock).0 then spinning else entered);
      })
  enters :
      (i : ℕ)
      → s.at i ≡ entered
      → Step s (record s { lock = acquire_end i s.lock; at = update s.at i inside })
  clears :
      (i : ℕ) {lk : Spinlock}
      → s.at i ≡ inside
      → release_start i s.lock ≡ some lk
      → Step s (record s { lock = lk; at = update s.at i leaving })
  unlocks :
      (i : ℕ)
      → s.at i ≡ leaving
      → Step s (record s { lock = release_unlock s.lock; at = update s.at i unlocked })
  pops :
      (i : ℕ) {c : Cpu}
      → s.at i ≡ unlocked
      → pop_off (s.cpus i) ≡ some c
      → Step s (record s { cpus = update s.cpus i c; at = update s.at i outside })

pub data Reach (s : System) : System → Type 0 where
  here : Reach s s
  later : {t u : System} → Reach s t → Step t u → Reach s u

-- Between its swap and the store that unlocks a processor owns the lock word.
abbrev pub owns : Pc → Bool
owns entered = true
owns inside = true
owns leaving = true
owns _ = false

abbrev pub is_inside : Pc → Bool
is_inside inside = true
is_inside _ = false

abbrev is_outside : Pc → Bool
is_outside outside = true
is_outside _ = false

record IsExclusive (s : System) : Type 0 where
  one : (i j : ℕ) → owns (s.at i) ≡ true → owns (s.at j) ≡ true → i ≡ j
  taken : (i : ℕ) → owns (s.at i) ≡ true → s.lock.locked ≡ true
  named : (i : ℕ) → is_inside (s.at i) ≡ true → s.lock.cpu ≡ suc i
  unnamed : (i : ℕ) → s.lock.cpu ≡ suc i → is_inside (s.at i) ≡ true
  off : (i : ℕ) → is_outside (s.at i) ≡ false → ((s.cpus i).noff ≡ 1) × ((s.cpus i).intr ≡ false)
  on : (i : ℕ) → is_outside (s.at i) ≡ true → (s.cpus i).noff ≡ 0

Step-IsExclusive : {s t : System} → Step s t → IsExclusive s → IsExclusive t
unfolding acquire_start test_and_set acquire_end release_start release_unlock push_off pop_off
Step-IsExclusive {s} (starts i e a) v = record {
  one = λ j k p q. ground (arith, v.one j k, v.taken j, v.taken k);
  taken = λ j p. ground (arith, v.taken j, v.one i j);
  named = λ j p. ground (arith, v.named j, v.taken j, v.one i j);
  unnamed = λ j p. ground (arith, v.unnamed j, v.unnamed i);
  off = λ j p. ground (arith, v.off j, v.on j);
  on = λ j p. ground (arith, v.on j, v.off j);
}
Step-IsExclusive {s} (spins i e) v = record {
  one = λ j k p q. ground (arith, v.one j k, v.taken j, v.taken k);
  taken = λ j p. ground (arith, v.taken j, v.one i j);
  named = λ j p. ground (arith, v.named j, v.taken j, v.one i j);
  unnamed = λ j p. ground (arith, v.unnamed j, v.unnamed i);
  off = λ j p. ground (arith, v.off j, v.on j);
  on = λ j p. ground (arith, v.on j, v.off j);
}
Step-IsExclusive {s} (enters i e) v = record {
  one = λ j k p q. ground (arith, v.one j k, v.taken j, v.taken k);
  taken = λ j p. ground (arith, v.taken j, v.one i j);
  named = λ j p. ground (arith, v.named j, v.taken j, v.one i j);
  unnamed = λ j p. ground (arith, v.unnamed j, v.unnamed i);
  off = λ j p. ground (arith, v.off j, v.on j);
  on = λ j p. ground (arith, v.on j, v.off j);
}
Step-IsExclusive {s} (clears i e a) v = record {
  one = λ j k p q. ground (arith, v.one j k, v.taken j, v.taken k);
  taken = λ j p. ground (arith, v.taken j, v.one i j);
  named = λ j p. ground (arith, v.named j, v.taken j, v.one i j);
  unnamed = λ j p. ground (arith, v.unnamed j, v.unnamed i);
  off = λ j p. ground (arith, v.off j, v.on j);
  on = λ j p. ground (arith, v.on j, v.off j);
}
Step-IsExclusive {s} (unlocks i e) v = record {
  one = λ j k p q. ground (arith, v.one j k, v.taken j, v.taken k);
  taken = λ j p. ground (arith, v.taken j, v.one i j);
  named = λ j p. ground (arith, v.named j, v.taken j, v.one i j);
  unnamed = λ j p. ground (arith, v.unnamed j, v.unnamed i);
  off = λ j p. ground (arith, v.off j, v.on j);
  on = λ j p. ground (arith, v.on j, v.off j);
}
Step-IsExclusive {s} (pops i e a) v = record {
  one = λ j k p q. ground (arith, v.one j k, v.taken j, v.taken k);
  taken = λ j p. ground (arith, v.taken j, v.one i j);
  named = λ j p. ground (arith, v.named j, v.taken j, v.one i j);
  unnamed = λ j p. ground (arith, v.unnamed j, v.unnamed i);
  off = λ j p. ground (arith, v.off j, v.on j);
  on = λ j p. ground (arith, v.on j, v.off j);
}

initial-IsExclusive : (on : Bool) → IsExclusive (initial on)
initial-IsExclusive on = record {
  one = λ j k p q. absurd (cc);
  taken = λ j p. absurd (cc);
  named = λ j p. absurd (cc);
  unnamed = λ j p. absurd (omega arith);
  off = λ j p. absurd (cc);
  on = λ j p. refl;
}

Reach-IsExclusive : {s t : System} → Reach s t → IsExclusive s → IsExclusive t
Reach-IsExclusive here v = v
Reach-IsExclusive (later r st) v = Step-IsExclusive st (Reach-IsExclusive r v)

inside-of : (p : Pc) → is_inside p ≡ true → p ≡ inside
inside-of inside h = refl
inside-of outside h = absurd (cc)
inside-of spinning h = absurd (cc)
inside-of entered h = absurd (cc)
inside-of leaving h = absurd (cc)
inside-of unlocked h = absurd (cc)

-- However the atomic steps of the processors interleave, at most one of them owns the lock, and
-- `holding` is true on exactly the processor in the critical section.
pub mutual_exclusion :
    {on : Bool} {s : System} (i j : ℕ)
    → Reach (initial on) s
    → (owns (s.at i) ≡ true → owns (s.at j) ≡ true → i ≡ j)
      × ((holding i s.lock ≡ true) ↔ (s.at i ≡ inside))
mutual_exclusion {on} {s} i j r =
    let v = Reach-IsExclusive r (initial-IsExclusive on) in
    (
      v.one i j,
      (
        λ h. inside-of (s.at i) (v.unnamed i (ground arith)),
        λ e. ground (arith, v.named i, v.taken i),
      ),
    )

-- In no state that the processors reach at one lock does a lock function panic: neither `acquire`
-- outside, nor `release` in the critical section, nor the `pop_off` behind it.
pub no_lock_panics :
    {on : Bool} {s : System} (i : ℕ)
    → Reach (initial on) s
    → (s.at i ≡ outside → acquire_start i (s.cpus i) s.lock ≢ none)
      × (s.at i ≡ inside → release_start i s.lock ≢ none)
      × (s.at i ≡ unlocked → pop_off (s.cpus i) ≢ none)
unfolding acquire_start release_start pop_off
no_lock_panics {on} {s} i r =
    let v = Reach-IsExclusive r (initial-IsExclusive on) in
    (
      λ e n. ground (arith, v.unnamed i),
      λ e n. ground (arith, v.named i, v.taken i),
      λ e n. ground (arith, v.off i),
    )
