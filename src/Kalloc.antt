-- ===== src/Kalloc.antt =====
-- kernel/kalloc.c: the allocator of physical pages. Its list of free pages runs through the first
-- word of each free page.
pub mod Chain
pub mod Owners
pub mod Boot
mod Tests
use intro2os_project.Prelude.{
  ℕ, zero, suc, ◌+◌, ◌-◌, ◌*◌, ◌/◌, ◌%◌, ◌^◌, Bool, true, false, not, ◌||◌, Option, none, some,
  ◌==◌, ltb, leb, if◌then◌else◌, update, u64,
}

-- PGSIZE, and PHYSTOP: 128 megabytes from KERNBASE on
abbrev pub pgsize : ℕ
pgsize = 4096

abbrev pub phystop : ℕ
phystop = 0x80000000 + 128 * 1024 * 1024

-- PGROUNDUP
abbrev pub pgroundup : ℕ → ℕ
pgroundup sz = u64 (sz + pgsize - 1) / pgsize * pgsize

-- `kmem`: the word `next` of every page, and the first free page or 0.
pub record Kmem : Type 0 where
  pub next : ℕ → ℕ
  pub freelist : ℕ

-- The linker's symbol `end`, the first address behind the kernel.
module _ (end : ℕ) where
  abbrev pub bad_page : ℕ → Bool
  bad_page pa = not (pa % pgsize == 0) || ltb pa end || leb phystop pa

  -- `kfree`; `none` is its panic. The junk fill is compiled out by LAB_SYSCALL.
  unfoldable pub kfree : ℕ → Kmem → Option Kmem
  kfree pa k =
      if bad_page pa
      then none
      else some (record { next = update k.next pa k.freelist; freelist = pa })

  -- The loop of `freerange` at `p`, with fuel for its rounds.
  unfoldable pub freerange_from : ℕ → ℕ → ℕ → Kmem → Option Kmem
  freerange_from zero p pa_end k = some k
  freerange_from (suc fuel) p pa_end k = elim (leb (p + pgsize) pa_end) [
    | true ↦ elim (kfree p k) [ none ↦ none | some k' ↦ freerange_from fuel (p + pgsize) pa_end k' ]
    | false ↦ some k
  ]

  unfoldable pub freerange : ℕ → ℕ → Kmem → Option Kmem
  freerange pa_start pa_end k = freerange_from (pa_end / pgsize) (pgroundup pa_start) pa_end k

  -- `kinit`; the lock is not part of the state, and `freelist` is 0 at boot.
  unfoldable pub kinit : (ℕ → ℕ) → Option Kmem
  kinit ram = freerange end phystop (record { next = ram; freelist = 0 })

-- `kalloc`: the page taken off the list, or 0. Its content is what the last owner left.
unfoldable pub kalloc : Kmem → ℕ × Kmem
kalloc k = let r = k.freelist in (r, if r == 0 then k else record k { freelist = k.next r })

-- The loop of `kcollect_free` at page `r`, with fuel for its rounds.
unfoldable pub count_free : ℕ → (ℕ → ℕ) → ℕ → ℕ → ℕ
count_free zero next r count = count
count_free (suc fuel) next r count = elim (r == 0) [
  | true ↦ count
  | false ↦ count_free fuel next (next r) (u64 (count + 1))
]

-- `kcollect_free`: the free memory in bytes. No list is longer than there are pages below PHYSTOP.
unfoldable pub kcollect_free : Kmem → ℕ
kcollect_free k = u64 (count_free (phystop / pgsize) k.next k.freelist 0 * pgsize)
