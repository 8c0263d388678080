-- ===== src/Lock.antt =====
-- kernel/spinlock.c and kernel/sleeplock.c: the two kinds of locks.
-- `acquire` and `release` are cut at the atomic instructions, where other processors may come between.
pub mod Nesting
pub mod Exclusion
pub mod Sleeping
mod Tests
use intro2os_project.Prelude.{
  ℕ, zero, suc, ◌+◌, ◌-◌, ◌^◌, Bool, true, false, not, ◌&&◌, ◌||◌, Option, none, some, ◌==◌, leb,
  if◌then◌else◌, u32, sub32,
}

-- `struct spinlock`, less its name. A pointer to processor `i` is `i + 1`, and 0 is null.
pub record Spinlock : Type 0 where
  pub locked : Bool
  pub cpu : ℕ

-- The part of `struct cpu` that the locks use, and whether the processor takes interrupts. `noff` is an
-- `int`, here as its 32 bits.
pub record Cpu : Type 0 where
  pub noff : ℕ
  pub intena : Bool
  pub intr : Bool

-- `initlock`
abbrev pub initlock : Spinlock
initlock = record { locked = false; cpu = 0 }

-- `holding` on processor `me`
abbrev pub holding : ℕ → Spinlock → Bool
holding me lk = lk.locked && lk.cpu == suc me

-- `push_off`
unfoldable pub push_off : Cpu → Cpu
push_off c =
    let old = c.intr in
    record { noff = u32 (c.noff + 1); intena = if c.noff == 0 then old else c.intena; intr = false }

-- `pop_off`; `none` is a panic.
unfoldable pub pop_off : Cpu → Option Cpu
pop_off c =
    let noff = sub32 c.noff 1 in
    if c.intr
    then none
    else if c.noff == 0 || leb (2 ^ 31) c.noff
    then none
    else some (record c { noff = noff; intr = noff == 0 && c.intena })

-- `acquire` up to its loop; `none` is a panic.
unfoldable pub acquire_start : ℕ → Cpu → Spinlock → Option Cpu
acquire_start me c lk = if holding me lk then none else some (push_off c)

-- One round of the loop of `acquire`: the old value of the lock word, which becomes 1.
unfoldable pub test_and_set : Spinlock → Bool × Spinlock
test_and_set lk = (lk.locked, record lk { locked = true })

-- The end of `acquire`.
unfoldable pub acquire_end : ℕ → Spinlock → Spinlock
acquire_end me lk = record lk { cpu = suc me }

-- `release` up to the store that unlocks; `none` is a panic.
unfoldable pub release_start : ℕ → Spinlock → Option Spinlock
release_start me lk = if holding me lk then some (record lk { cpu = 0 }) else none

-- The store of `release`, and its `pop_off`.
unfoldable pub release_unlock : Spinlock → Spinlock
release_unlock lk = record lk { locked = false }

-- `struct sleeplock`, less its spin lock and its name. Each function holds the spin lock throughout.
pub record Sleeplock : Type 0 where
  pub locked : Bool
  pub pid : ℕ

-- `initsleeplock`
abbrev pub initsleeplock : Sleeplock
initsleeplock = record { locked = false; pid = 0 }

-- One look of `acquiresleep` at the lock, for the process `pid`: `none` is `sleep(lk, &lk->lk)`.
unfoldable pub acquiresleep : ℕ → Sleeplock → Option Sleeplock
acquiresleep pid lk = if lk.locked then none else some (record { locked = true; pid = pid })

-- `releasesleep`, which then wakes the processes that sleep on the lock.
unfoldable pub releasesleep : Sleeplock → Sleeplock
releasesleep lk = record { locked = false; pid = 0 }

-- `holdingsleep` in the process `pid`
unfoldable pub holdingsleep : ℕ → Sleeplock → Bool
holdingsleep pid lk = lk.locked && lk.pid == pid
