-- ===== src/Vm/Space.antt =====
-- kernel/vm.c: a process grows, shrinks, is copied and is freed.
use intro2os_project.Prelude.{
  ℕ, zero, suc, ◌+◌, ◌-◌, ◌*◌, ◌/◌, Bool, true, false, not, ◌&&◌, ◌||◌, none, some, ◌==◌, ltb, leb,
  if◌then◌else◌, update, u64,
}
use intro2os_project.Kalloc.{pgsize, pgroundup}
use intro2os_project.Vm.{
  M, pure, ◌>>=◌, ◌>>◌, panic, load, store, alloc_page, free_page, walk, mappages, uvmunmap, pte2pa,
  pte_flags, pte_v, pte_r, pte_w, pte_x, pte_u,
}

-- The linker's symbol `end`, which `kfree` compares with.
module _ (end : ℕ) where
  -- `uvmdealloc`
  unfoldable pub uvmdealloc : ℕ → ℕ → ℕ → M ℕ
  uvmdealloc pagetable oldsz newsz = if leb oldsz newsz then pure oldsz else (do
    if ltb (pgroundup newsz) (pgroundup oldsz)
        then uvmunmap end pagetable (pgroundup newsz) ((pgroundup oldsz - pgroundup newsz) / pgsize)
            true
        else pure tt
    pure newsz)

  -- One page of the loop of `uvmalloc` at `a`: whether the loop goes on.
  unfoldable pub grow_page : ℕ → ℕ → ℕ → ℕ → M Bool
  grow_page pagetable a oldsz xperm = do
    mem ← alloc_page
    if mem == 0 then (do freed ← uvmdealloc pagetable a oldsz; pure false) else (do
      mapped ← mappages pagetable a pgsize mem (2 + 16 + xperm)
      if mapped
          then pure true
          else (do free_page end mem; freed ← uvmdealloc pagetable a oldsz; pure false))

  -- The loop of `uvmalloc`, with fuel for its rounds: the value returned.
  unfoldable pub grow_from : ℕ → ℕ → ℕ → ℕ → ℕ → ℕ → M ℕ
  grow_from zero pagetable a oldsz newsz xperm m = some (newsz, m)
  grow_from (suc fuel) pagetable a oldsz newsz xperm m = elim (ltb a newsz) [
    | false ↦ some (newsz, m)
    | true ↦ elim (grow_page pagetable a oldsz xperm m) [
      | none ↦ none
      | some (false, m') ↦ some (0, m')
      | some (true, m') ↦ grow_from fuel pagetable (u64 (a + pgsize)) oldsz newsz xperm m'
    ]
  ]

  -- `uvmalloc`, where `xperm` has neither PTE_R nor PTE_U.
  unfoldable pub uvmalloc : ℕ → ℕ → ℕ → ℕ → M ℕ
  uvmalloc pagetable oldsz newsz xperm m =
      if ltb newsz oldsz
      then some (oldsz, m)
      else grow_from (newsz / pgsize + 1) pagetable (pgroundup oldsz) (pgroundup oldsz) newsz xperm
          m

  -- The loop of `freewalk` at entry `i`, with `k` to go; `rec` is the recursive call.
  unfoldable pub free_from : (ℕ → M (Unit {0})) → ℕ → ℕ → ℕ → M (Unit {0})
  free_from rec pagetable i zero m = some (tt, m)
  free_from rec pagetable i (suc k) m =
      let pte = m.pte (pagetable + 8 * i) in
      elim (pte_v pte) [
        | false ↦ free_from rec pagetable (i + 1) k m
        | true ↦ elim (pte_r pte || (pte_w pte || pte_x pte)) [
          | true ↦ none
          | false ↦ elim (rec (pte2pa pte) m) [
            | none ↦ none
            | some (u, m') ↦
                free_from rec pagetable (i + 1) k
                  (record m' { pte = update m'.pte (pagetable + 8 * i) 0 })
          ]
        ]
      ]

  -- `freewalk`, with fuel for the depth of the tree; a tree that is deeper counts as a panic.
  unfoldable pub freewalk : ℕ → ℕ → M (Unit {0})
  freewalk zero pagetable m = none
  freewalk (suc depth) pagetable m = elim (free_from (freewalk depth) pagetable 0 512 m) [
    | none ↦ none
    | some (u, m') ↦ free_page end pagetable m'
  ]

  -- `uvmfree`: a page table has three levels.
  unfoldable pub uvmfree : ℕ → ℕ → M (Unit {0})
  uvmfree pagetable sz = do
    if ltb 0 sz then uvmunmap end pagetable 0 (pgroundup sz / pgsize) true else pure tt
    freewalk 3 pagetable

  -- `memmove(to, from, PGSIZE)` of two pages
  abbrev pub copied_page : ℕ → ℕ → (ℕ → ℕ) → ℕ → ℕ
  copied_page to from byte a =
      if leb to a && ltb a (to + pgsize) then byte (from + (a - to)) else byte a

  -- One page of the loop of `uvmcopy` at `i`: false is `goto err`.
  unfoldable pub copy_page : ℕ → ℕ → ℕ → M Bool
  copy_page old new i = do
    e ← walk old i false
    if e == 0 then panic else (do
      pte ← load e
      if not (pte_v pte) then panic else (do
        mem ← alloc_page
        if mem == 0 then pure false else (do
          (λ m. some (tt, record m { byte = copied_page mem (pte2pa pte) m.byte }))
          mapped ← mappages new i pgsize mem (pte_flags pte)
          if mapped then pure true else (do free_page end mem; pure false))))

  -- The loop of `uvmcopy` at `i`, with fuel for its rounds, and its error exit: whether it returns 0.
  unfoldable pub copy_from : ℕ → ℕ → ℕ → ℕ → ℕ → M Bool
  copy_from zero old new i sz m = some (true, m)
  copy_from (suc fuel) old new i sz m = elim (ltb i sz) [
    | false ↦ some (true, m)
    | true ↦ elim (copy_page old new i m) [
      | none ↦ none
      | some (true, m') ↦ copy_from fuel old new (u64 (i + pgsize)) sz m'
      | some (false, m') ↦ elim (uvmunmap end new 0 (i / pgsize) true m') [
        | none ↦ none
        | some (u, m2) ↦ some (false, m2)
      ]
    ]
  ]

  -- `uvmcopy`
  unfoldable pub uvmcopy : ℕ → ℕ → ℕ → M Bool
  uvmcopy old new sz m = copy_from (sz / pgsize + 1) old new 0 sz m

-- `uvmclear`
unfoldable pub uvmclear : ℕ → ℕ → M (Unit {0})
uvmclear pagetable va = do
  e ← walk pagetable va false
  if e == 0 then panic else (do pte ← load e; store e (if pte_u pte then pte - 16 else pte))

-- `uvmfirst` of `sz` bytes; the code trusts that memory is left.
unfoldable pub uvmfirst : ℕ → (ℕ → ℕ) → ℕ → M (Unit {0})
uvmfirst pagetable src sz = if leb pgsize sz then panic else (do
  mem ← alloc_page
  (λ m.
      some (tt, record m { byte = λ a. if leb mem a && ltb a (mem + pgsize) then 0 else m.byte a }))
  mapped ← mappages pagetable 0 pgsize mem (4 + 2 + 8 + 16)
  (λ m. some (
    tt,
    record m { byte = λ a. if leb mem a && ltb a (mem + sz) then src (a - mem) else m.byte a },
  )))
