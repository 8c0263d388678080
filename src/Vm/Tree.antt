-- ===== src/Vm/Tree.antt =====
-- The three levels of a page table as a tree: which page holds the table of which addresses.
use intro2os_project.Prelude.{
  ℕ, zero, suc, ◌+◌, ◌*◌, ◌/◌, ◌%◌, ◌^◌, ◌<◌, ◌≡◌, inl, inr, refl, ap, ◌∙◌, true, false, Option,
  none, some, if◌then◌else◌, arith, Bool-cases,
}
use intro2os_project.Vm.{Ram, walk, walk_from, descend, pte_v, pte2pa, px, maxva}

-- The level of the table in a page, and the addresses that it maps by their leading digits.
abbrev pub Own : Type 0
Own = ℕ → Option (ℕ × ℕ)

pub record IsTree (root : ℕ) (own : Own) (pte : ℕ → ℕ) : Type 0 where
  pub top : own root ≡ some (2, 0)
  pub aligned : (p l x : ℕ) → own p ≡ some (l, x) → (p % 4096 ≡ 0) × (0 < p)
  pub below :
      (p l x i : ℕ)
      → own p ≡ some (suc l, x)
      → i < 512
      → pte_v (pte (p + 8 * i)) ≡ true
      → own (pte2pa (pte (p + 8 * i))) ≡ some (l, x * 512 + i)

-- The entry that a walk without allocation reaches from a table of a level.
unfoldable pub slot_from : ℕ → (ℕ → ℕ) → ℕ → ℕ → Option ℕ
slot_from zero pte p va = some (p + 8 * px 0 va)
slot_from (suc l) pte p va =
    let e = pte (p + 8 * px (suc l) va) in
    let rest = slot_from l pte (pte2pa e) va in if pte_v e then rest else none

-- The entry of an address, or 0, of the table of a level and of a whole page table.
abbrev pub entry_at : (ℕ → ℕ) → Option ℕ → ℕ
entry_at pte none = 0
entry_at pte (some a) = pte a

abbrev pub entry : (ℕ → ℕ) → ℕ → ℕ → ℕ
entry pte root va = entry_at pte (slot_from 2 pte root va)

abbrev pub or_null : Option ℕ → ℕ
or_null none = 0
or_null (some a) = a

-- A walk without allocation changes nothing.
walk_from-slot :
    (root : ℕ) (own : Own) (l p x va : ℕ) (m : Ram)
    → IsTree root own m.pte
    → own p ≡ some (l, x)
    → walk_from l false va p m ≡ some (or_null (slot_from l m.pte p va), m)
unfolding walk_from slot_from descend
walk_from-slot root own zero p x va m t o = refl
walk_from-slot root own (suc l) p x va m t o =
    elim (Bool-cases (pte_v (m.pte (p + 8 * px (suc l) va)))) [
      | inl v ↦
          let next = t.below p l x (px (suc l) va) o (omega arith) v in
          let pos =
            (t.aligned (pte2pa (m.pte (p + 8 * px (suc l) va))) l (x * 512 + px (suc l) va)
              next).1 in
          ground (
            arith,
            walk_from-slot root own l (pte2pa (m.pte (p + 8 * px (suc l) va)))
                (x * 512 + px (suc l) va) va m t next,
          )
      | inr v ↦ ground arith
    ]

pub walk-slot :
    (root va : ℕ) (own : Own) (m : Ram)
    → IsTree root own m.pte
    → va < maxva
    → walk root va false m ≡ some (or_null (slot_from 2 m.pte root va), m)
unfolding walk
walk-slot root va own m t lt = ground (arith, walk_from-slot root own 2 root 0 va m t t.top)

-- Distinct pages have their entries apart.
pub entry_apart :
    (p q i j : ℕ)
    → p % 4096 ≡ 0
    → q % 4096 ≡ 0
    → i < 512
    → j < 512
    → p + 8 * i ≡ q + 8 * j
    → (p ≡ q) × (i ≡ j)
entry_apart p q i j hp hq hi hj e = (omega arith, omega arith)

-- One level of a walk that arrives.
slot-below :
    (root l p x va a : ℕ) (own : Own) (pte : ℕ → ℕ)
    → IsTree root own pte
    → own p ≡ some (suc l, x)
    → slot_from (suc l) pte p va ≡ some a
    → (q : ℕ) × (own q ≡ some (l, x * 512 + px (suc l) va)) × (slot_from l pte q va ≡ some a)
unfolding slot_from
slot-below root l p x va a own pte t o e = elim (Bool-cases (pte_v (pte (p + 8 * px (suc l) va)))) [
  | inl v ↦ (
    pte2pa (pte (p + 8 * px (suc l) va)),
    t.below p l x (px (suc l) va) o (omega arith) v,
    ground arith,
  )
  | inr v ↦ ground arith
]

slot_zero : (pte : ℕ → ℕ) (p va a : ℕ) → slot_from 0 pte p va ≡ some a → a ≡ p + 8 * px 0 va
unfolding slot_from
slot_zero pte p va a e = ground arith

-- The entry that a walk reaches lies in the table of the lowest level for its address.
pub slot-own :
    (root va a : ℕ) (own : Own) (pte : ℕ → ℕ)
    → IsTree root own pte
    → va < maxva
    → slot_from 2 pte root va ≡ some a
    → (q : ℕ) × (own q ≡ some (0, va / 2 ^ 21)) × (a ≡ q + 8 * px 0 va)
slot-own root va a own pte t lt e =
    let one = slot-below root 1 root 0 va a own pte t t.top e in
    let two = slot-below root 0 one.0 _ va a own pte t one.1 one.2 in
    (two.0, two.1 ∙ ap (λ x. some (0, x)) (omega arith), slot_zero pte two.0 va a two.2)

pub slot_positive :
    (root va a : ℕ) (own : Own) (pte : ℕ → ℕ)
    → IsTree root own pte
    → va < maxva
    → slot_from 2 pte root va ≡ some a
    → 0 < a
slot_positive root va a own pte t lt e =
    let at = slot-own root va a own pte t lt e in
    let low = (t.aligned at.0 0 (va / 2 ^ 21) at.1).1 in omega (arith, at.2)

-- The upper entries decide which slot a walk reaches.
pub slot_agree :
    (root l p x va : ℕ) (own : Own) (pte pte' : ℕ → ℕ)
    → IsTree root own pte
    → own p ≡ some (l, x)
    → ((q k y i : ℕ) → own q ≡ some (suc k, y) → i < 512 → pte' (q + 8 * i) ≡ pte (q + 8 * i))
    → slot_from l pte' p va ≡ slot_from l pte p va
unfolding slot_from
slot_agree root zero p x va own pte pte' t o same = refl
slot_agree root (suc l) p x va own pte pte' t o same =
    let e = pte (p + 8 * px (suc l) va) in
    rw (same p l x (px (suc l) va) o (omega arith)) (elim (Bool-cases (pte_v e)) [
      | inl v ↦
          let next = t.below p l x (px (suc l) va) o (omega arith) v in
          rw (slot_agree root l (pte2pa e) (x * 512 + px (suc l) va) va own pte pte' t next same)
            refl
      | inr v ↦ ground arith
    ])

-- Addresses of one page have one slot.
pub slot_page :
    (root va vb : ℕ) (pte : ℕ → ℕ)
    → va / 4096 ≡ vb / 4096
    → slot_from 2 pte root va ≡ slot_from 2 pte root vb
unfolding slot_from
slot_page root va vb pte e =
    let two : px 2 va ≡ px 2 vb = omega arith in
    let one : px 1 va ≡ px 1 vb = omega arith in
    let zero' : px 0 va ≡ px 0 vb = omega arith in rw (two, one, zero') refl
