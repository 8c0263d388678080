-- ===== src/Lock/Sleeping.antt =====
-- Any number of processes at one sleep lock, told apart by their pids.
use intro2os_project.Prelude.{ℕ, ◌≡◌, ◌≢◌, refl, Bool, true, false, some, none, update, arith}
use intro2os_project.Lock.{Sleeplock, initsleeplock, acquiresleep, releasesleep, holdingsleep}

-- The lock, and which processes are in its critical section.
pub record System : Type 0 where
  pub lock : Sleeplock
  pub inside : ℕ → Bool

abbrev pub initial : System
initial = record { lock = initsleeplock; inside = λ p. false }

pub data Step (s : System) : System → Type 0 where
  acquires :
      (pid : ℕ) {lk : Sleeplock}
      → acquiresleep pid s.lock ≡ some lk
      → Step s (record { lock = lk; inside = update s.inside pid true })
  releases :
      (pid : ℕ)
      → s.inside pid ≡ true
      → Step s (record { lock = releasesleep s.lock; inside = update s.inside pid false })

pub data Reach (s : System) : System → Type 0 where
  here : Reach s s
  later : {t u : System} → Reach s t → Step t u → Reach s u

-- `holdingsleep` tells who is inside.
abbrev IsTold : System → Type 0
IsTold s = (pid : ℕ) → holdingsleep pid s.lock ≡ s.inside pid

Step-IsTold : {s t : System} → Step s t → IsTold s → IsTold t
unfolding acquiresleep releasesleep holdingsleep
Step-IsTold {s} (acquires pid e) v q = ground (arith, v q, v pid)
Step-IsTold {s} (releases pid e) v q = ground (arith, v q, v pid)

Reach-IsTold : {s : System} → Reach initial s → IsTold s
unfolding holdingsleep
Reach-IsTold here q = refl
Reach-IsTold (later r st) q = Step-IsTold st (Reach-IsTold r) q

-- At most one process is in the critical section of a sleep lock, `holdingsleep` is true in that process
-- and in no other, and `acquiresleep` lets a process in as soon as no process is inside.
pub sleeplock_exclusive :
    {s : System} (p q : ℕ)
    → Reach initial s
    → (s.inside p ≡ true → s.inside q ≡ true → p ≡ q)
      × (holdingsleep p s.lock ≡ s.inside p)
      × (((r : ℕ) → s.inside r ≡ false) → acquiresleep p s.lock ≢ none)
unfolding acquiresleep holdingsleep
sleeplock_exclusive {s} p q r = (
  λ hp hq. ground (arith, Reach-IsTold r p, Reach-IsTold r q),
  Reach-IsTold r p,
  λ h e. ground (arith, Reach-IsTold r s.lock.pid, h s.lock.pid),
)
