-- ===== src/Kalloc/Chain.antt =====
-- The list of pages that a chain of `next` words spells.
use intro2os_project.Prelude.{
  ℕ, zero, suc, ◌+◌, ◌*◌, ◌/◌, ◌^◌, ◌≤◌, ◌<◌, ◌≡◌, ◌≢◌, List, [], ◌∷◌, NotIn, length, update,
  update_ne, arith,
}
use intro2os_project.Kalloc.{Kmem, kcollect_free, count_free, pgsize, phystop}

-- The chain that starts at `r` and ends in a null pointer visits the pages of the list.
abbrev pub IsChain : (ℕ → ℕ) → ℕ → List ℕ → Type 0
IsChain next r [] = r ≡ 0
IsChain next r (x ∷ xs) = (r ≡ x) × (x ≢ 0) × IsChain next (next x) xs

-- A write to the word of a page outside the chain leaves the chain alone.
pub IsChain-update :
    (next : ℕ → ℕ) (a v r : ℕ) (xs : List ℕ)
    → NotIn a xs
    → IsChain next r xs
    → IsChain (update next a v) r xs
IsChain-update next a v r [] n c = c
IsChain-update next a v r (x ∷ xs) n c =
    (c.0, c.1, rw (update_ne next a v x n.0) (IsChain-update next a v (next x) xs n.1 c.2))

-- With enough fuel the walk of `kcollect_free` counts the pages of the chain.
pub count_free-length :
    (fuel : ℕ) (next : ℕ → ℕ) (r count : ℕ) (xs : List ℕ)
    → IsChain next r xs
    → length xs ≤ fuel
    → count + length xs < 2 ^ 64
    → count_free fuel next r count ≡ count + length xs
unfolding count_free
count_free-length zero next r count [] c h w = omega arith
count_free-length zero next r count (x ∷ xs) c h w = absurd (omega arith)
count_free-length (suc fuel) next r count [] c h w = ground arith
count_free-length (suc fuel) next r count (x ∷ xs) c h w =
    ground (arith, count_free-length fuel next (next x) (count + 1) xs)

-- `kcollect_free` returns the number of free pages times the page size.
pub kcollect_free-length :
    (k : Kmem) (xs : List ℕ)
    → IsChain k.next k.freelist xs
    → length xs ≤ phystop / pgsize
    → kcollect_free k ≡ length xs * pgsize
unfolding kcollect_free
kcollect_free-length k xs c h =
    rw (count_free-length (phystop / pgsize) k.next k.freelist 0 xs c h (omega arith)) (omega arith)
