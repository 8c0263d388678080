-- ===== src/Vm/Tests.antt =====
-- A page table of three tables that maps the two pages at 0, with two free pages, and the theorems at it.
use intro2os_project.Prelude.{
  ℕ, suc, ◌+◌, ◌*◌, ◌/◌, ◌%◌, ◌≤◌, ◌<◌, ◌≡◌, refl, sym, ◌∙◌, subst, Bool, true, false, none, some,
  ◌==◌, leb, if◌then◌else◌, arith, ℕ_discrete, [], ◌∷◌, NotIn,
}
use intro2os_project.Kalloc.{bad_page}
use intro2os_project.Vm.User.{user_page}
use intro2os_project.Vm.{
  Ram, walk, walk_from, descend, walkaddr, pte2pa, pte_v, maxva, mappages, uvmunmap,
}
use intro2os_project.Vm.Tree.{Own, IsTree, entry, slot_from, slot_page}
use intro2os_project.Vm.Pool.{IsSpace}
use intro2os_project.Vm.Mapping.{IsMapped}
use intro2os_project.Vm.Range.{IsUnmapped, mappages_maps}
use intro2os_project.Vm.Unmap.{frame, IsLeafRange, IsReleased}
use intro2os_project.Vm.Release.{uvmunmap_releases}
use intro2os_project.Vm.Copy.{copyin, copyout, copyout_from, writable_page, put_bytes}
use intro2os_project.Vm.Copyin.{IsCopied, copyin_reads}
use intro2os_project.Vm.Copyout.{IsInjective, IsWritten}
use intro2os_project.Vm.Roundtrip.{copyout_writes, copyin-copyout}

-- The tables at pages 1, 2 and 3, and the frames at pages 4 and 5.
abbrev own0 : Own
own0 p =
    if p == 4096
    then some (2, 0)
    else if p == 8192
    then some (1, 0)
    else if p == 12288
    then some (0, 0)
    else none

abbrev pte0 : ℕ → ℕ
pte0 a =
    if a == 4096
    then 2048 + 1
    else if a == 8192
    then 3072 + 1
    else if a == 12288
    then 4096 + 23
    else if a == 12296
    then 5120 + 23
    else 0

abbrev ram0 : Ram
ram0 = record {
  kmem = record { next = λ a. if a == 24576 then 28672 else 0; freelist = 24576 };
  pte = pte0;
  byte = λ a. a;
}

aligned0 : (p l x : ℕ) → own0 p ≡ some (l, x) → (p % 4096 ≡ 0) × (0 < p)
aligned0 p l x o = elim (ℕ_discrete p 4096) [
  | yes e ↦ rw e (refl, omega arith)
  | no n ↦ elim (ℕ_discrete p 8192) [
    | yes e ↦ rw e (refl, omega arith)
    | no n' ↦ elim (ℕ_discrete p 12288) [ yes e ↦ rw e (refl, omega arith) | no n2 ↦ ground arith ]
  ]
]

abbrev IsBelow : ℕ → Type 0
IsBelow p =
    (l x i : ℕ)
    → own0 p ≡ some (suc l, x)
    → i < 512
    → pte_v (pte0 (p + 8 * i)) ≡ true
    → own0 (pte2pa (pte0 (p + 8 * i))) ≡ some (l, x * 512 + i)

root-IsBelow : IsBelow 4096
root-IsBelow l x i o h v = elim (ℕ_discrete i 0) [
  | yes e ↦ rw e (ground arith)
  | no n ↦ absurd (ground arith)
]

middle-IsBelow : IsBelow 8192
middle-IsBelow l x i o h v = elim (ℕ_discrete i 0) [
  | yes e ↦ rw e (ground arith)
  | no n ↦ absurd (ground arith)
]

below0 : (p : ℕ) → IsBelow p
below0 p l x i o h v = elim (ℕ_discrete p 4096) [
  | yes e ↦ subst IsBelow (sym e) root-IsBelow l x i o h v
  | no n ↦ elim (ℕ_discrete p 8192) [
    | yes e ↦ subst IsBelow (sym e) middle-IsBelow l x i o h v
    | no n' ↦ absurd (ground arith)
  ]
]

tree0 : IsTree 4096 own0 pte0
tree0 = record { top = refl; aligned = aligned0; below = λ p l x i o h v. below0 p l x i o h v }

space0 : IsSpace 4096 own0 (24576 ∷ 28672 ∷ []) ram0
space0 = record {
  tree = tree0;
  chain = (refl, (λ e. omega arith), (refl, (λ e. omega arith), refl));
  distinct = (((λ e. omega arith), tt), (tt, tt));
  spare = ((refl, refl, omega arith), ((refl, refl, omega arith), tt));
}

unmapped0 : IsUnmapped 4096 pte0 8192 2
unfolding slot_from
unmapped0 vb lb ge lt = elim (ℕ_discrete (vb / 4096) 2) [
  | yes e ↦ rw (slot_page 4096 vb 8192 pte0 e) refl
  | no n ↦ rw (slot_page 4096 vb 12288 pte0 (omega arith)) refl
]

-- The next two pages get frames from 0x80000000 on.
mappages_maps_example :
    (ok : Bool) × (m' : Ram) × (mappages 4096 8192 (2 * 4096) 0x80000000 22 ram0 ≡ some (ok, m'))
    × IsMapped 4096 8192 2 0x80000000 22 ram0 ok m'
mappages_maps_example =
    mappages_maps 4096 8192 2 0x80000000 22 own0 (24576 ∷ 28672 ∷ []) ram0 space0 refl (omega arith)
      (omega arith) (omega arith) (omega arith) unmapped0

-- The entries of the two pages.
entry0 :
    (va : ℕ) → va < 8192 → entry pte0 4096 va ≡ (if va / 4096 == 0 then 4096 + 23 else 5120 + 23)
unfolding slot_from
entry0 va h = elim (ℕ_discrete (va / 4096) 0) [
  | yes e ↦ rw (slot_page 4096 va 0 pte0 e) (ground arith)
  | no n ↦ rw (slot_page 4096 va 4096 pte0 (omega arith)) (ground arith)
]

good0 :
    (vb : ℕ)
    → vb < 8192
    → (bad_page 16384 (frame 16384 4096 ram0 vb) ≡ false)
      × (own0 (frame 16384 4096 ram0 vb) ≡ none)
      × NotIn (frame 16384 4096 ram0 vb) (24576 ∷ 28672 ∷ [])
good0 vb lt = elim (ℕ_discrete (vb / 4096) 0) [
  | yes e ↦
      let first : (vb / 4096 == 0) ≡ true = ground arith in
      rw (entry0 vb lt, first) (refl, refl, ((λ q. omega arith), ((λ q. omega arith), tt)))
  | no n ↦
      let second : (vb / 4096 == 0) ≡ false = ground arith in
      rw (entry0 vb lt, second) (refl, refl, ((λ q. omega arith), ((λ q. omega arith), tt)))
]

leaf_range0 : IsLeafRange 16384 4096 own0 (24576 ∷ 28672 ∷ []) 0 2 true ram0
leaf_range0 = record {
  valid = λ vb lb ge lt. rw (entry0 vb (omega arith)) (ground arith);
  leaf = λ vb lb ge lt. rw (entry0 vb (omega arith)) (ground arith);
  good = λ vb lb ge lt f. good0 vb (omega arith);
  apart = λ vb vc lb ge lt lc gc ltc f ne.
      rw (entry0 vb (omega arith), entry0 vc (omega arith)) (ground arith);
}

uvmunmap_releases_example :
    (m' : Ram) × (uvmunmap 16384 4096 0 2 true ram0 ≡ some (tt, m'))
    × IsReleased 16384 4096 own0 (24576 ∷ 28672 ∷ []) 0 2 true ram0 m'
uvmunmap_releases_example =
    uvmunmap_releases 16384 4096 0 2 own0 (24576 ∷ 28672 ∷ []) true ram0 (omega arith) space0 refl
      (omega arith) leaf_range0

copyin_reads_example :
    (ok : Bool) × (dst' : ℕ → ℕ) × (copyin 4096 (λ i. 0) 4090 20 ram0 ≡ some ((ok, dst'), ram0))
    × IsCopied 4096 4090 0 20 ram0 (λ i. 0) ok dst'
copyin_reads_example = copyin_reads 4096 (λ i. 0) 4090 20 own0 ram0 tree0

page0 : (va : ℕ) → va < 8192 → user_page 4096 pte0 va ≡ (if va / 4096 == 0 then 16384 else 20480)
page0 va h = let low : leb maxva va ≡ false = ground arith in rw (low, entry0 va h) (ground arith)

injective0 : (n : ℕ) → n ≤ 20 → IsInjective 4096 pte0 4090 n
injective0 n h j k hj hk pos e =
    let meet = sym (page0 (4090 + j) (omega arith)) ∙ e ∙ page0 (4090 + k) (omega arith) in
    ground arith

copyout_writes_example :
    (ok : Bool) × (byte' : ℕ → ℕ) × (copyout 4096 4090 (λ i. i + 1) 20 ram0
      ≡ some (ok, record ram0 { byte = byte' }))
    × IsWritten 4096 4090 0 20 ram0 (λ i. i + 1) ok byte'
copyout_writes_example =
    copyout_writes 4096 4090 (λ i. i + 1) 20 own0 ram0 tree0 (injective0 20 (omega arith))

-- Six bytes at the end of the first page and two of the second.
written0 : Ram
written0 = record ram0 {
  byte = put_bytes 20480 (λ i. i + 1) 6 2 (put_bytes 20474 (λ i. i + 1) 0 6 (λ a. a));
}

copyout0 : copyout 4096 4090 (λ i. i + 1) 8 ram0 ≡ some (true, written0)
unfolding copyout copyout_from written0 writable_page walk walk_from descend walkaddr
copyout0 = refl

copyin-copyout_example :
    (dst' : ℕ → ℕ) × (copyin 4096 (λ i. 0) 4090 8 written0 ≡ some ((true, dst'), written0))
    × ((j : ℕ) → j < 8 → dst' j ≡ j + 1)
copyin-copyout_example =
    copyin-copyout 4096 4090 (λ i. i + 1) (λ i. 0) 8 own0 ram0 written0 tree0
      (injective0 8 (omega arith)) copyout0
