-- ===== src/Vm/Leaf.antt =====
-- A write to an entry of the lowest level changes the mapping of one page.
use intro2os_project.Prelude.{
  ℕ, suc, ◌+◌, ◌*◌, ◌/◌, ◌^◌, ◌<◌, ◌≡◌, ◌≢◌, inl, inr, sym, ap, ◌∙◌, Option, some, ◌==◌,
  if◌then◌else◌, update, update_ne, arith, Option-cases, ℕ_discrete,
}
use intro2os_project.Vm.{px, maxva}
use intro2os_project.Vm.Tree.{
  Own, IsTree, slot_from, slot-own, slot_agree, slot_page, entry_apart, entry,
}

-- An entry of the lowest level is none of the upper tables'.
pub leaf_apart :
    (root p x i : ℕ) (own : Own) (pte : ℕ → ℕ) (v : ℕ)
    → IsTree root own pte
    → own p ≡ some (0, x)
    → i < 512
    → (q k y j : ℕ) → own q ≡ some (suc k, y)
    → j < 512
    → update pte (p + 8 * i) v (q + 8 * j) ≡ pte (q + 8 * j)
leaf_apart root p x i own pte v t o hi q k y j oq hj = update_ne pte (p + 8 * i) v (q + 8 * j) (λ e.
    let same = entry_apart p q i j (t.aligned p 0 x o).0 (t.aligned q (suc k) y oq).0 hi hj e in
    let clash = sym o ∙ ap own same.0 ∙ oq in ground arith)

-- The tree stays a tree, and every address keeps its slot.
pub leaf-IsTree :
    (root p x i : ℕ) (own : Own) (pte : ℕ → ℕ) (v : ℕ)
    → IsTree root own pte
    → own p ≡ some (0, x)
    → i < 512
    → IsTree root own (update pte (p + 8 * i) v)
leaf-IsTree root p x i own pte v t o hi = record {
  top = t.top;
  aligned = t.aligned;
  below = λ q k y j oq hj.
      rw (leaf_apart root p x i own pte v t o hi q k y j oq hj) (t.below q k y j oq hj);
}

pub leaf_slot :
    (root p x i vb : ℕ) (own : Own) (pte : ℕ → ℕ) (v : ℕ)
    → IsTree root own pte
    → own p ≡ some (0, x)
    → i < 512
    → slot_from 2 (update pte (p + 8 * i) v) root vb ≡ slot_from 2 pte root vb
leaf_slot root p x i vb own pte v t o hi =
    slot_agree root 2 root 0 vb own pte (update pte (p + 8 * i) v) t t.top
      (leaf_apart root p x i own pte v t o hi)

-- Two addresses with one slot are in one page.
pub slot-apart :
    (root va vb a : ℕ) (own : Own) (pte : ℕ → ℕ)
    → IsTree root own pte
    → va < maxva
    → vb < maxva
    → slot_from 2 pte root va ≡ some a
    → slot_from 2 pte root vb ≡ some a
    → vb / 4096 ≡ va / 4096
slot-apart root va vb a own pte t la lb ea eb =
    let p = slot-own root va a own pte t la ea in
    let q = slot-own root vb a own pte t lb eb in
    let same =
      entry_apart p.0 q.0 (px 0 va) (px 0 vb) (t.aligned p.0 0 _ p.1).0 (t.aligned q.0 0 _ q.1).0
        (omega arith) (omega arith) (sym p.2 ∙ q.2) in
    let prefix : ◌≡◌ {A = Option (ℕ × ℕ)} (some (0, va / 2 ^ 21)) (some (0, vb / 2 ^ 21)) =
      sym p.1 ∙ ap own same.0 ∙ q.1 in
    let high : va / 2 ^ 21 ≡ vb / 2 ^ 21 = ground arith in let low = same.1 in omega arith

-- After a write to the slot of `va` every address of its page has the new entry, and the others the old one.
pub leaf_entry :
    (root va vb a v : ℕ) (own : Own) (pte : ℕ → ℕ)
    → IsTree root own pte
    → va < maxva
    → vb < maxva
    → slot_from 2 pte root va ≡ some a
    → slot_from 2 (update pte a v) root vb ≡ slot_from 2 pte root vb
    → entry (update pte a v) root vb ≡ (if vb / 4096 == va / 4096 then v else entry pte root vb)
leaf_entry root va vb a v own pte t la lb e same = elim (ℕ_discrete (vb / 4096) (va / 4096)) [
  | yes p ↦ rw (same, slot_page root vb va pte p, e) (ground arith)
  | no p ↦ elim (Option-cases (slot_from 2 pte root vb)) [
    | inl n ↦ rw (same, n) (ground arith)
    | inr (b, h) ↦
        let apart : a ≢ b = λ eq. p (slot-apart root va vb b own pte t la lb (e ∙ ap some eq) h) in
        rw (same, h, update_ne pte a v b apart) (ground arith)
  ]
]
