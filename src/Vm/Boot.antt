-- ===== src/Vm/Boot.antt =====
-- kernel/vm.c: the kernel's own page table, which maps memory and devices to themselves.
use intro2os_project.Prelude.{ℕ, zero, suc, ◌+◌, ◌-◌, none, some, ◌==◌, if◌then◌else◌}
use intro2os_project.Kalloc.{pgsize, phystop}
use intro2os_project.Proc.{nproc, kstack_of}
use intro2os_project.Vm.{M, pure, ◌>>=◌, ◌>>◌, panic, alloc_page, clear_page, mappages, maxva}

-- `kvmmap`
unfoldable pub kvmmap : ℕ → ℕ → ℕ → ℕ → ℕ → M (Unit {0})
kvmmap kpgtbl va pa sz perm = do
  mapped ← mappages kpgtbl va sz pa perm
  if mapped then pure tt else panic

-- UART0, VIRTIO0, PLIC and KERNBASE
abbrev pub uart0 : ℕ
uart0 = 0x10000000

abbrev pub virtio0 : ℕ
virtio0 = 0x10001000

abbrev pub plic : ℕ
plic = 0x0c000000

abbrev pub kernbase : ℕ
kernbase = 0x80000000

-- PTE_R | PTE_W and PTE_R | PTE_X
abbrev pub read_write : ℕ
read_write = 2 + 4

abbrev pub read_execute : ℕ
read_execute = 2 + 8

-- The loop of `proc_mapstacks` of kernel/proc.c at process `i`, with `k` to go.
unfoldable pub mapstacks_from : ℕ → ℕ → ℕ → M (Unit {0})
mapstacks_from kpgtbl i zero m = some (tt, m)
mapstacks_from kpgtbl i (suc k) m = elim (alloc_page m) [
  | none ↦ none
  | some (pa, m') ↦
      if pa == 0 then none else elim (kvmmap kpgtbl (kstack_of i) pa pgsize read_write m') [
        | none ↦ none
        | some (u, m2) ↦ mapstacks_from kpgtbl (i + 1) k m2
      ]
]

unfoldable pub proc_mapstacks : ℕ → M (Unit {0})
proc_mapstacks kpgtbl = mapstacks_from kpgtbl 0 nproc

-- `kvmmake`, with the linker's symbols `etext` and `trampoline`; the code trusts that memory is left.
unfoldable pub kvmmake : ℕ → ℕ → M ℕ
kvmmake etext trampoline = do
  kpgtbl ← alloc_page
  clear_page kpgtbl
  kvmmap kpgtbl uart0 uart0 pgsize read_write
  kvmmap kpgtbl virtio0 virtio0 pgsize read_write
  kvmmap kpgtbl plic plic 0x4000000 read_write
  kvmmap kpgtbl kernbase kernbase (etext - kernbase) read_execute
  kvmmap kpgtbl etext etext (phystop - etext) read_write
  kvmmap kpgtbl (maxva - pgsize) trampoline pgsize read_execute
  proc_mapstacks kpgtbl
  pure kpgtbl
