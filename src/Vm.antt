-- ===== src/Vm.antt =====
-- kernel/vm.c: page tables, the user memory that they map, and the copies between it and the kernel.
-- A page of RAM is used either for page-table entries or for bytes, and the two uses are kept apart:
-- `pte` holds the 64-bit word at an address, `byte` the byte. A page that `kalloc` hands out keeps its
-- bytes, as LAB_SYSCALL leaves the fills out. Every function runs alone on its table.
pub mod Tree
pub mod Leaf
pub mod Grow
pub mod Pool
pub mod Walk
pub mod Mapping
pub mod Range
pub mod Unmap
pub mod Release
pub mod User
pub mod Copyin
pub mod Copyout
pub mod Roundtrip
pub mod Space
mod Tests
pub mod Copy
pub mod Boot
use intro2os_project.Prelude.{
  ℕ, zero, suc, ◌+◌, ◌-◌, ◌*◌, ◌/◌, ◌%◌, ◌^◌, ◌≡◌, refl, Bool, true, false, not, ◌&&◌, ◌||◌, Option,
  none, some, ◌==◌, ltb, leb, if◌then◌else◌, update, u64,
}
use intro2os_project.Kalloc.{Kmem, kalloc, kfree, pgsize}

-- MAXVA, PGROUNDDOWN and PX
abbrev pub maxva : ℕ
maxva = 2 ^ 38

abbrev pub pgrounddown : ℕ → ℕ
pgrounddown a = a / pgsize * pgsize

abbrev pub px : ℕ → ℕ → ℕ
px level va = va / 2 ^ (12 + 9 * level) % 512

-- PTE2PA, PA2PTE and PTE_FLAGS, and the tests of PTE_V, PTE_R, PTE_W, PTE_X and PTE_U
abbrev pub pte2pa : ℕ → ℕ
pte2pa pte = u64 (pte / 1024 * 4096)

abbrev pub pa2pte : ℕ → ℕ
pa2pte pa = pa / 4096 * 1024

abbrev pub pte_flags : ℕ → ℕ
pte_flags pte = pte % 1024

abbrev pub pte_v : ℕ → Bool
pte_v pte = pte % 2 == 1

abbrev pub pte_r : ℕ → Bool
pte_r pte = pte / 2 % 2 == 1

abbrev pub pte_w : ℕ → Bool
pte_w pte = pte / 4 % 2 == 1

abbrev pub pte_x : ℕ → Bool
pte_x pte = pte / 8 % 2 == 1

abbrev pub pte_u : ℕ → Bool
pte_u pte = pte / 16 % 2 == 1

-- `flags | PTE_V`
abbrev pub with_v : ℕ → ℕ
with_v flags = if pte_v flags then flags else flags + 1

-- The allocator, the page-table entries and the bytes.
pub record Ram : Type 0 where
  pub kmem : Kmem
  pub pte : ℕ → ℕ
  pub byte : ℕ → ℕ

-- A computation on memory; `none` is a panic.
abbrev pub M : Type 0 → Type 0
M A = Ram → Option (A × Ram)

abbrev pub pure : {A : Type 0} → A → M A
pure a m = some (a, m)

infixl 5 ◌>>=◌ ◌>>◌
abbrev pub ◌>>=◌ : {A B : Type 0} → M A → (A → M B) → M B
◌>>=◌ c f m = elim (c m) [ none ↦ none | some (a, m') ↦ f a m' ]

abbrev pub ◌>>◌ : {B : Type 0} → M (Unit {0}) → M B → M B
c >> d = c >>= λ _. d

-- A computation that succeeds hands its result on.
pub bind_some :
    {A B : Type 0} (c : M A) (f : A → M B) (m m' : Ram) (a : A)
    → c m ≡ some (a, m')
    → (c >>= f) m ≡ f a m'
bind_some c f m m' a e = rw (e, ◌>>=◌) refl

abbrev pub panic : {A : Type 0} → M A
panic m = none

abbrev pub load : ℕ → M ℕ
load a m = some (m.pte a, m)

abbrev pub store : ℕ → ℕ → M (Unit {0})
store a v m = some (tt, record m { pte = update m.pte a v })

abbrev pub alloc_page : M ℕ
alloc_page m = let (pa, k) = kalloc m.kmem in some (pa, record m { kmem = k })

-- `memset(page, 0, PGSIZE)` of a page for entries
abbrev pub zeroed : ℕ → (ℕ → ℕ) → ℕ → ℕ
zeroed page pte a = if leb page a && ltb a (page + pgsize) then 0 else pte a

abbrev pub clear_page : ℕ → M (Unit {0})
clear_page page m = some (tt, record m { pte = zeroed page m.pte })

-- One round of `walk` at the entry `a`: the table below it, or 0. A valid entry with page number 0 would lead the
-- code on to address 0, which is no memory; it counts as a failure here, and a well-formed table has none.
unfoldable pub descend : Bool → ℕ → M ℕ
descend alloc a m =
    if pte_v (m.pte a)
    then some (pte2pa (m.pte a), m)
    else if not alloc
    then some (0, m)
    else (do
      page ← alloc_page
      if page == 0 then pure 0 else (do clear_page page; store a (pa2pte page + 1); pure page))
        m

-- The loop of `walk` at the table `pagetable` of a level: the address of the entry, or 0.
unfoldable pub walk_from : ℕ → Bool → ℕ → ℕ → M ℕ
walk_from zero alloc va pagetable m = some (pagetable + 8 * px 0 va, m)
walk_from (suc level) alloc va pagetable m =
    elim (descend alloc (pagetable + 8 * px (suc level) va) m) [
      | none ↦ none
      | some (below, m') ↦ if below == 0 then some (0, m') else walk_from level alloc va below m'
    ]

-- `walk`
unfoldable pub walk : ℕ → ℕ → Bool → M ℕ
walk pagetable va alloc m = if leb maxva va then none else walk_from 2 alloc va pagetable m

-- `walkaddr`
unfoldable pub walkaddr : ℕ → ℕ → M ℕ
walkaddr pagetable va = if leb maxva va then pure 0 else (do
  a ← walk pagetable va false
  if a == 0
      then pure 0
      else (do pte ← load a; if pte_v pte && pte_u pte then pure (pte2pa pte) else pure 0))

-- One page of the loop of `mappages`: whether `walk` found an entry.
unfoldable pub map_page : ℕ → ℕ → ℕ → ℕ → M Bool
map_page pagetable a pa perm = do
  e ← walk pagetable a true
  if e == 0 then pure false else (do
    pte ← load e
    if pte_v pte then panic else (do store e (pa2pte pa + with_v perm); pure true))

-- The loop of `mappages` at `a`, with fuel for its rounds.
unfoldable pub map_from : ℕ → ℕ → ℕ → ℕ → ℕ → ℕ → M Bool
map_from zero pagetable a last pa perm m = none
map_from (suc fuel) pagetable a last pa perm m = elim (map_page pagetable a pa perm m) [
  | none ↦ none
  | some (false, m') ↦ some (false, m')
  | some (true, m') ↦
      let rest = map_from fuel pagetable (u64 (a + pgsize)) last (u64 (pa + pgsize)) perm m' in
      elim (a == last) [ true ↦ some (true, m') | false ↦ rest ]
]

-- `mappages`: whether it returns 0. `perm` is below 1024.
unfoldable pub mappages : ℕ → ℕ → ℕ → ℕ → ℕ → M Bool
mappages pagetable va size pa perm m =
    if not (va % pgsize == 0)
    then none
    else if not (size % pgsize == 0)
    then none
    else if size == 0
    then none
    else map_from (size / pgsize) pagetable va (u64 (va + size - pgsize)) pa perm m

-- `uvmcreate`
unfoldable pub uvmcreate : M ℕ
uvmcreate = do page ← alloc_page; if page == 0 then pure 0 else (do clear_page page; pure page)

-- The linker's symbol `end`, which `kfree` compares with.
module _ (end : ℕ) where
  abbrev pub free_page : ℕ → M (Unit {0})
  free_page pa m = elim (kfree end pa m.kmem) [
    | none ↦ none
    | some k ↦ some (tt, record m { kmem = k })
  ]

  -- One page of the loop of `uvmunmap`.
  unfoldable pub unmap_page : ℕ → ℕ → Bool → M (Unit {0})
  unmap_page pagetable a do_free = do
    e ← walk pagetable a false
    if e == 0 then panic else (do
      pte ← load e
      if not (pte_v pte)
          then panic
          else if pte_flags pte == 1
          then panic
          else (do if do_free then free_page (pte2pa pte) else pure tt; store e 0))

  -- The loop of `uvmunmap` at `a`, with fuel for its rounds.
  unfoldable pub unmap_from : ℕ → ℕ → ℕ → ℕ → Bool → M (Unit {0})
  unmap_from zero pagetable a stop do_free m = some (tt, m)
  unmap_from (suc fuel) pagetable a stop do_free m = elim (ltb a stop) [
    | false ↦ some (tt, m)
    | true ↦ elim (unmap_page pagetable a do_free m) [
      | none ↦ none
      | some (u, m') ↦ unmap_from fuel pagetable (u64 (a + pgsize)) stop do_free m'
    ]
  ]

  -- `uvmunmap`
  unfoldable pub uvmunmap : ℕ → ℕ → ℕ → Bool → M (Unit {0})
  uvmunmap pagetable va npages do_free m =
      if not (va % pgsize == 0)
      then none
      else unmap_from npages pagetable va (u64 (va + npages * pgsize)) do_free m
