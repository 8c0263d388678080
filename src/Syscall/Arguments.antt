-- ===== src/Syscall/Arguments.antt =====
-- The bounds of `fetchaddr`.
use intro2os_project.Prelude.{ℕ, ◌+◌, ◌^◌, ◌≤◌, ◌<◌, ◌≡◌, ◌↔◌, Option, some, arith}
use intro2os_project.Syscall.{Caller, fetchaddr}

-- For a process of less than 2 ^ 63 bytes `fetchaddr` succeeds exactly if all eight bytes lie in the
-- process and can be copied; an address near 2 ^ 64, where the sum wraps, is refused.
pub fetchaddr_iff :
    {Rest : Type 0} (copyin : ℕ → Option ℕ) (addr v : ℕ) (c : Caller Rest)
    → c.sz < 2 ^ 63
    → addr < 2 ^ 64
    → (fetchaddr Rest copyin addr c ≡ some v) ↔ ((addr + 8 ≤ c.sz) × (copyin addr ≡ some v))
unfolding fetchaddr
fetchaddr_iff copyin addr v c small word =
    (λ e. (ground arith, ground arith), λ h. ground (arith, h.0, h.1))
