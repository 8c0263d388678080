-- ===== src/Vm/User.antt =====
-- User memory, byte by byte, as a page table maps it, and `walkaddr` of kernel/vm.c.
use intro2os_project.Prelude.{
  ℕ, ◌+◌, ◌/◌, ◌%◌, ◌≤◌, ◌<◌, ◌≡◌, inl, inr, refl, ap, ◌∙◌, true, false, ◌&&◌, Option, none, some,
  ◌==◌, leb, if◌then◌else◌, arith, Bool-cases, Option-cases, dec_lt,
}
use intro2os_project.Vm.{
  Ram, bind_some, ◌>>=◌, pte_v, pte_u, pte_w, pte2pa, maxva, pgrounddown, walk, walkaddr,
}
use intro2os_project.Vm.Copy.{writable_page}
use intro2os_project.Vm.Tree.{
  Own, IsTree, slot_from, slot_page, slot_positive, walk-slot, or_null, entry,
}

-- The page that a user may use at an address, or 0.
abbrev pub user_page : ℕ → (ℕ → ℕ) → ℕ → ℕ
user_page root pte va =
    if leb maxva va
    then 0
    else if pte_v (entry pte root va) && pte_u (entry pte root va)
    then pte2pa (entry pte root va)
    else 0

-- The byte that a user reads at an address.
abbrev pub user_load : ℕ → Ram → ℕ → Option ℕ
user_load root m va =
    if user_page root m.pte va == 0
    then none
    else some (m.byte (user_page root m.pte va + va % 4096))

-- Addresses of one page have one page of RAM.
pub user_page_page :
    (root va vb : ℕ) (pte : ℕ → ℕ)
    → va / 4096 ≡ vb / 4096
    → user_page root pte va ≡ user_page root pte vb
user_page_page root va vb pte e =
    let high : leb maxva va ≡ leb maxva vb = ground arith in
    rw (slot_page root va vb pte e, high) refl

walkaddr_high : (root va : ℕ) (m : Ram) → maxva ≤ va → walkaddr root va m ≡ some (0, m)
unfolding walkaddr
walkaddr_high root va m h = ground arith

walkaddr_none :
    (root va : ℕ) (m : Ram)
    → va < maxva
    → walk root va false m ≡ some (0, m)
    → walkaddr root va m ≡ some (0, m)
unfolding walkaddr
walkaddr_none root va m h e =
    let low : leb maxva va ≡ false = ground arith in
    rw low (bind_some (walk root va false) _ m m 0 e)

walkaddr_found :
    (root va a : ℕ) (m : Ram)
    → va < maxva
    → 0 < a
    → walk root va false m ≡ some (a, m)
    → walkaddr root va m
      ≡ some (if pte_v (m.pte a) && pte_u (m.pte a) then pte2pa (m.pte a) else 0, m)
unfolding walkaddr
walkaddr_found root va a m h pos e =
    let low : leb maxva va ≡ false = ground arith in
    rw low (bind_some (walk root va false) _ m m a e ∙ ground arith)

-- `walkaddr` of a well-formed page table is `user_page`, and changes nothing.
pub walkaddr_page :
    (root va : ℕ) (own : Own) (m : Ram)
    → IsTree root own m.pte
    → walkaddr root va m ≡ some (user_page root m.pte va, m)
walkaddr_page root va own m t = elim (dec_lt va maxva) [
  | no h ↦ walkaddr_high root va m (omega arith) ∙ ground arith
  | yes h ↦
      let low : leb maxva va ≡ false = ground arith in
      let e = walk-slot root va own m t h in
      elim (Option-cases (slot_from 2 m.pte root va)) [
        | inl n ↦ walkaddr_none root va m h (e ∙ ap (λ o. some (or_null o, m)) n) ∙ rw (low, n) refl
        | inr (a, s) ↦
            walkaddr_found root va a m h (slot_positive root va a own m.pte t h s)
              (e ∙ ap (λ o. some (or_null o, m)) s)
            ∙ rw (low, s) refl
      ]
]

pub user_page_low : (root va : ℕ) (pte : ℕ → ℕ) → 0 < user_page root pte va → va < maxva
user_page_low root va pte h = elim (dec_lt va maxva) [ yes lt ↦ lt | no n ↦ ground arith ]

pub user_page_aligned : (root va : ℕ) (pte : ℕ → ℕ) → user_page root pte va % 4096 ≡ 0
user_page_aligned root va pte = elim (Bool-cases (leb maxva va)) [
  | inl h ↦ rw h refl
  | inr h ↦ rw h (elim (Bool-cases (pte_v (entry pte root va) && pte_u (entry pte root va))) [
    | inl v ↦ rw v (omega arith)
    | inr v ↦ rw v refl
  ])
]

-- The page that the kernel may write for a user at an address, or 0.
abbrev pub write_page : ℕ → (ℕ → ℕ) → ℕ → ℕ
write_page root pte va = if pte_w (entry pte root va) then user_page root pte va else 0

pub write_page_page :
    (root va vb : ℕ) (pte : ℕ → ℕ)
    → va / 4096 ≡ vb / 4096
    → write_page root pte va ≡ write_page root pte vb
write_page_page root va vb pte e =
    rw (user_page_page root va vb pte e, slot_page root va vb pte e) refl

writable_high :
    (root va : ℕ) (m : Ram) → maxva ≤ pgrounddown va → writable_page root va m ≡ some (0, m)
unfolding writable_page
writable_high root va m h = ground arith

writable_none :
    (root va : ℕ) (m : Ram)
    → pgrounddown va < maxva
    → walk root (pgrounddown va) false m ≡ some (0, m)
    → writable_page root va m ≡ some (0, m)
unfolding writable_page
writable_none root va m h e =
    let low : leb maxva (pgrounddown va) ≡ false = ground arith in
    rw low (bind_some (walk root (pgrounddown va) false) _ m m 0 e)

writable_some :
    (root va a page : ℕ) (m : Ram)
    → pgrounddown va < maxva
    → 0 < a
    → walk root (pgrounddown va) false m ≡ some (a, m)
    → walkaddr root (pgrounddown va) m ≡ some (page, m)
    → writable_page root va m ≡ some (if pte_w (m.pte a) then page else 0, m)
unfolding writable_page
writable_some root va a page m h pos e w =
    let low : leb maxva (pgrounddown va) ≡ false = ground arith in
    let there : (a == 0) ≡ false = ground arith in
    rw low (
      bind_some (walk root (pgrounddown va) false) _ m m a e
      ∙ rw (there, ◌>>=◌)
          (elim (Bool-cases (pte_w (m.pte a))) [ inl b ↦ rw (b, w) refl | inr b ↦ rw b refl ]))

-- The page that `copyout` finds is `write_page`.
pub writable_page-page :
    (root va : ℕ) (own : Own) (m : Ram)
    → IsTree root own m.pte
    → writable_page root va m ≡ some (write_page root m.pte va, m)
writable_page-page root va own m t = elim (dec_lt (pgrounddown va) maxva) [
  | no h ↦
      let high : leb maxva va ≡ true = ground arith in
      writable_high root va m (omega arith) ∙ rw high (ground arith)
  | yes h ↦
      let e = walk-slot root (pgrounddown va) own m t h in
      let same = slot_page root (pgrounddown va) va m.pte (omega arith) in
      let page = user_page_page root (pgrounddown va) va m.pte (omega arith) in
      elim (Option-cases (slot_from 2 m.pte root va)) [
        | inl n ↦
            writable_none root va m h (e ∙ ap (λ o. some (or_null o, m)) (same ∙ n)) ∙ rw n refl
        | inr (a, s) ↦
            writable_some root va a (user_page root m.pte va) m h
              (slot_positive root (pgrounddown va) a own m.pte t h (same ∙ s))
              (e ∙ ap (λ o. some (or_null o, m)) (same ∙ s))
              (walkaddr_page root (pgrounddown va) own m t ∙ ap (λ z. some (z, m)) page)
            ∙ rw s refl
      ]
]
