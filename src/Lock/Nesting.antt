-- ===== src/Lock/Nesting.antt =====
-- `push_off` and `pop_off` as brackets.
use intro2os_project.Prelude.{
  ℕ, zero, suc, ◌+◌, ◌^◌, ◌<◌, ◌≡◌, refl, false, Option, some, none, arith,
}
use intro2os_project.Lock.{Cpu, push_off, pop_off}

-- `k` calls of `push_off` with `k` calls of `pop_off` behind them.
unfoldable pub bracketed : ℕ → Cpu → Option Cpu
bracketed zero c = some c
bracketed (suc k) c = elim (bracketed k (push_off c)) [ none ↦ none | some c' ↦ pop_off c' ]

bracketed_inner :
    (k : ℕ) (c : Cpu) → 0 < c.noff → c.noff + k < 2 ^ 31 → c.intr ≡ false → bracketed k c ≡ some c
unfolding bracketed push_off pop_off
bracketed_inner zero c h lt off = refl
bracketed_inner (suc k) c h lt off =
    ground (arith, bracketed_inner k (push_off c) (omega arith) (omega arith) refl)

-- Fewer than 2 ^ 31 calls of `push_off` from depth 0, with as many `pop_off` calls behind them,
-- leave interrupts as they were, on or off, and restore the count; no `pop_off` panics on the way.
pub bracketed_restores :
    (k : ℕ) (c : Cpu)
    → c.noff ≡ 0
    → suc k < 2 ^ 31
    → bracketed (suc k) c ≡ some (record c { intena = c.intr })
unfolding bracketed push_off pop_off
bracketed_restores k c h lt =
    ground (arith, bracketed_inner k (push_off c) (omega arith) (omega arith) refl)
