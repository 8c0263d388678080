-- ===== src/Vm/Copy.antt =====
-- kernel/vm.c: copies between the kernel and user memory. A buffer of the kernel is a function from its
-- indices; `i` counts the bytes that have been copied, so `src` and `dst` of the code are `i` on.
use intro2os_project.Prelude.{
  ℕ, zero, suc, ◌+◌, ◌-◌, Bool, true, false, ◌&&◌, none, some, ◌==◌, ltb, leb, if◌then◌else◌,
  update, u64,
}
use intro2os_project.Kalloc.{pgsize}
use intro2os_project.Vm.{M, pure, ◌>>=◌, load, walk, walkaddr, pgrounddown, maxva, pte_w}

-- `n`, the bytes up to the end of the page or of the copy
abbrev pub span : ℕ → ℕ → ℕ
span va len =
    if ltb len (pgsize - (va - pgrounddown va)) then len else pgsize - (va - pgrounddown va)

-- `memmove((void *)(pa0 + (dstva - va0)), src, n)`
abbrev pub put_bytes : ℕ → (ℕ → ℕ) → ℕ → ℕ → (ℕ → ℕ) → ℕ → ℕ
put_bytes to src i n byte a = if leb to a && ltb a (to + n) then src (i + (a - to)) else byte a

-- The page that `copyout` may write at `va`: its physical address, or 0.
unfoldable pub writable_page : ℕ → ℕ → M ℕ
writable_page pagetable va = if leb maxva (pgrounddown va) then pure 0 else (do
  e ← walk pagetable (pgrounddown va) false
  if e == 0
      then pure 0
      else (do pte ← load e; if pte_w pte then walkaddr pagetable (pgrounddown va) else pure 0))

-- The loop of `copyout`, with fuel for its rounds: whether it returns 0.
unfoldable pub copyout_from : ℕ → ℕ → ℕ → (ℕ → ℕ) → ℕ → ℕ → M Bool
copyout_from zero pagetable dstva src i len m = some (true, m)
copyout_from (suc fuel) pagetable dstva src i len m = elim (ltb 0 len) [
  | false ↦ some (true, m)
  | true ↦ elim (writable_page pagetable dstva m) [
    | none ↦ none
    | some (pa0, m') ↦ elim (pa0 == 0) [
      | true ↦ some (false, m')
      | false ↦
          let n = span dstva len in
          copyout_from fuel pagetable (u64 (pgrounddown dstva + pgsize)) src (i + n) (len - n)
            (record m' { byte = put_bytes (pa0 + (dstva - pgrounddown dstva)) src i n m'.byte })
    ]
  ]
]

-- `copyout`: every round copies a byte at least.
unfoldable pub copyout : ℕ → ℕ → (ℕ → ℕ) → ℕ → M Bool
copyout pagetable dstva src len m = copyout_from len pagetable dstva src 0 len m

-- The loop of `copyin` with the buffer `dst`, with fuel for its rounds: whether it returns 0, and `dst`.
unfoldable pub copyin_from : ℕ → ℕ → (ℕ → ℕ) → ℕ → ℕ → ℕ → M (Bool × (ℕ → ℕ))
copyin_from zero pagetable dst i srcva len m = some ((true, dst), m)
copyin_from (suc fuel) pagetable dst i srcva len m = elim (ltb 0 len) [
  | false ↦ some ((true, dst), m)
  | true ↦ elim (walkaddr pagetable (pgrounddown srcva) m) [
    | none ↦ none
    | some (pa0, m') ↦ elim (pa0 == 0) [
      | true ↦ some ((false, dst), m')
      | false ↦
          let n = span srcva len in
          let from = pa0 + (srcva - pgrounddown srcva) in
          copyin_from fuel pagetable
            (λ j. if leb i j && ltb j (i + n) then m'.byte (from + (j - i)) else dst j) (i + n)
            (u64 (pgrounddown srcva + pgsize)) (len - n) m'
    ]
  ]
]

-- `copyin`
unfoldable pub copyin : ℕ → (ℕ → ℕ) → ℕ → ℕ → M (Bool × (ℕ → ℕ))
copyin pagetable dst srcva len m = copyin_from len pagetable dst 0 srcva len m

-- The inner loop of `copyinstr` at the byte `p` of RAM, with `n` bytes to go: whether the end of the string
-- was met, and `dst`.
unfoldable pub string_from : (ℕ → ℕ) → ℕ → (ℕ → ℕ) → ℕ → ℕ → Bool × (ℕ → ℕ)
string_from byte p dst i zero = (false, dst)
string_from byte p dst i (suc n) =
    let rest = string_from byte (p + 1) (update dst i (byte p)) (i + 1) n in
    if byte p == 0 then (true, update dst i 0) else rest

-- The outer loop of `copyinstr`, with fuel for its rounds: whether it returns 0, and `dst`.
unfoldable pub copyinstr_from : ℕ → ℕ → (ℕ → ℕ) → ℕ → ℕ → ℕ → M (Bool × (ℕ → ℕ))
copyinstr_from zero pagetable dst i srcva max m = some ((false, dst), m)
copyinstr_from (suc fuel) pagetable dst i srcva max m = elim (ltb 0 max) [
  | false ↦ some ((false, dst), m)
  | true ↦ elim (walkaddr pagetable (pgrounddown srcva) m) [
    | none ↦ none
    | some (pa0, m') ↦ elim (pa0 == 0) [
      | true ↦ some ((false, dst), m')
      | false ↦
          let n = span srcva max in
          let page = string_from m'.byte (pa0 + (srcva - pgrounddown srcva)) dst i n in
          if page.0
          then some (page, m')
          else copyinstr_from fuel pagetable page.1 (i + n) (u64 (pgrounddown srcva + pgsize))
              (max - n) m'
    ]
  ]
]

-- `copyinstr`
unfoldable pub copyinstr : ℕ → (ℕ → ℕ) → ℕ → ℕ → M (Bool × (ℕ → ℕ))
copyinstr pagetable dst srcva max m = copyinstr_from max pagetable dst 0 srcva max m
