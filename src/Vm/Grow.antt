-- ===== src/Vm/Grow.antt =====
-- A fresh page becomes a table below an invalid entry, as `walk` makes it with `alloc`.
use intro2os_project.Prelude.{
  ℕ, zero, suc, ◌+◌, ◌*◌, ◌%◌, ◌<◌, ◌≡◌, ◌≢◌, inl, inr, refl, sym, ap, ◌∙◌, true, false, none, some,
  update, update_self, update_ne, arith, Bool-cases, ℕ_discrete,
}
use intro2os_project.Kalloc.{phystop}
use intro2os_project.Vm.{pte_v, pte2pa, pa2pte, px, zeroed}
use intro2os_project.Vm.Tree.{Own, IsTree, slot_from, entry_apart, entry, entry_at}

-- The entry of a page address gives the page back.
pub pte2pa-pa2pte : (g : ℕ) → g % 4096 ≡ 0 → g < phystop → pte2pa (pa2pte g + 1) ≡ g
pte2pa-pa2pte g a h = omega arith

some-ne : (own : Own) (p g : ℕ) (v : ℕ × ℕ) → own p ≡ some v → own g ≡ none → g ≢ p
some-ne own p g v o n e = ground (arith, ap own e)

-- The table of an invalid entry at index `i` of the page `p`, at the address `g` of a free page.
module _ (root p l x i g : ℕ) (own : Own) (pte : ℕ → ℕ) where
  abbrev pub own_new : Own
  own_new = update own g (some (l, x * 512 + i))

  abbrev pub pte_new : ℕ → ℕ
  pte_new = update (zeroed g pte) (p + 8 * i) (pa2pte g + 1)

  pub record IsFresh : Type 0 where
    pub tree : IsTree root own pte
    pub parent : own p ≡ some (suc l, x)
    pub index : i < 512
    pub free : own g ≡ none
    pub page : g % 4096 ≡ 0
    pub low : 0 < g
    pub high : g < phystop
    pub invalid : pte_v (pte (p + 8 * i)) ≡ false

  module _ (f : IsFresh) where
    -- What the new table holds, what the entry above it holds, and that the other tables keep their words.
    page_word : (j : ℕ) → j < 512 → pte_new (g + 8 * j) ≡ 0
    page_word j hj =
        let apart : p + 8 * i ≢ g + 8 * j = λ e.
          some-ne own p g (suc l, x) f.parent f.free
            (sym
              (entry_apart p g i j (f.tree.aligned p (suc l) x f.parent).0 f.page f.index hj
                e).0) in
        update_ne (zeroed g pte) (p + 8 * i) (pa2pte g + 1) (g + 8 * j) apart ∙ ground arith

    other_word :
        (q k y j : ℕ)
        → own q ≡ some (k, y)
        → j < 512
        → p + 8 * i ≢ q + 8 * j
        → pte_new (q + 8 * j) ≡ pte (q + 8 * j)
    other_word q k y j o hj apart =
        let al = (f.tree.aligned q k y o).0 in
        let gq = some-ne own q g (k, y) o f.free in
        let pg = f.page in
        update_ne (zeroed g pte) (p + 8 * i) (pa2pte g + 1) (q + 8 * j) apart ∙ ground arith

    pub own_kept : (q : ℕ) (v : ℕ × ℕ) → own q ≡ some v → own_new q ≡ some v
    own_kept q v o = update_ne own g (some (l, x * 512 + i)) q (some-ne own q g v o f.free) ∙ o

    pub parent_page : pte2pa (pte_new (p + 8 * i)) ≡ g
    parent_page =
        ap pte2pa (update_self (zeroed g pte) (p + 8 * i) (pa2pte g + 1))
        ∙ pte2pa-pa2pte g f.page f.high

    parent_word : own_new (pte2pa (pte_new (p + 8 * i))) ≡ some (l, x * 512 + i)
    parent_word = ap own_new parent_page ∙ update_self own g (some (l, x * 512 + i))

    pub parent_valid : pte_v (pte_new (p + 8 * i)) ≡ true
    parent_valid = ap pte_v (update_self (zeroed g pte) (p + 8 * i) (pa2pte g + 1)) ∙ ground arith

    own_old : (q : ℕ) (v : ℕ × ℕ) → g ≢ q → own_new q ≡ some v → own q ≡ some v
    own_old q v n o = sym (update_ne own g (some (l, x * 512 + i)) q n) ∙ o

    pub own_other : (q : ℕ) → g ≢ q → own q ≡ none → own_new q ≡ none
    own_other q n o = update_ne own g (some (l, x * 512 + i)) q n ∙ o

    -- A valid entry of a table keeps its word.
    pub pte_kept :
        (q k y j : ℕ)
        → own q ≡ some (suc k, y)
        → j < 512
        → pte_v (pte (q + 8 * j)) ≡ true
        → pte_new (q + 8 * j) ≡ pte (q + 8 * j)
    pte_kept q k y j o hj v =
        other_word q (suc k) y j o hj (λ e. ground (arith, f.invalid, ap (λ z. pte_v (pte z)) e))

    -- An entry of the new tree that leads to a table does so for the new table or for an old one.
    new_below :
        (q k y j : ℕ)
        → own q ≡ some (suc k, y)
        → j < 512
        → pte_v (pte_new (q + 8 * j)) ≡ true
        → own_new (pte2pa (pte_new (q + 8 * j))) ≡ some (k, y * 512 + j)
    new_below q k y j o hj v = elim (ℕ_discrete (p + 8 * i) (q + 8 * j)) [
      | yes e ↦
          let same =
            entry_apart p q i j (f.tree.aligned p (suc l) x f.parent).0
              (f.tree.aligned q (suc k) y o).0 f.index hj e in
          let there = sym f.parent ∙ ap own same.0 ∙ o in
          ap (λ z. own_new (pte2pa (pte_new z))) (sym e) ∙ parent_word ∙ ground (arith, same.1)
      | no apart ↦
          let w = other_word q (suc k) y j o hj apart in
          rw w (
            own_kept (pte2pa (pte (q + 8 * j))) (k, y * 512 + j)
              (f.tree.below q k y j o hj (sym (ap pte_v w) ∙ v)))
    ]

    pub grown-IsTree : IsTree root own_new pte_new
    grown-IsTree = record {
      top = own_kept root (2, 0) f.tree.top;
      aligned = λ q k y o. elim (ℕ_discrete g q) [
        | yes e ↦ rw (← e) (f.page, f.low)
        | no n ↦ f.tree.aligned q k y (own_old q (k, y) n o)
      ];
      below = λ q k y j o hj v. elim (ℕ_discrete g q) [
        | yes e ↦
            absurd
              (ground (arith, ap pte_v (page_word j hj), ap (λ z. pte_v (pte_new (z + 8 * j))) e))
        | no n ↦ new_below q k y j (own_old q (suc k, y) n o) hj v
      ];
    }

    -- Nothing is mapped below the new table, so every address keeps its entry.
    page_entry : (k va : ℕ) → entry_at pte_new (slot_from k pte_new g va) ≡ 0
    unfolding slot_from
    page_entry zero va = page_word (px 0 va) (omega arith)
    page_entry (suc k) va = rw (page_word (px (suc k) va) (omega arith)) refl

    grown_entry_at :
        (k q y va : ℕ)
        → own q ≡ some (k, y)
        → entry_at pte_new (slot_from k pte_new q va) ≡ entry_at pte (slot_from k pte q va)
    unfolding slot_from
    grown_entry_at zero q y va o = other_word q 0 y (px 0 va) o (omega arith) (λ e.
        let same =
          entry_apart p q i (px 0 va) (f.tree.aligned p (suc l) x f.parent).0
            (f.tree.aligned q 0 y o).0 f.index (omega arith) e in
        let clash = sym f.parent ∙ ap own same.0 ∙ o in ground arith)
    grown_entry_at (suc k) q y va o = elim (ℕ_discrete (p + 8 * i) (q + 8 * px (suc k) va)) [
      | yes e ↦ rw (← e, parent_valid, f.invalid, parent_page) (page_entry k va)
      | no apart ↦
          rw (other_word q (suc k) y (px (suc k) va) o (omega arith) apart)
            (elim (Bool-cases (pte_v (pte (q + 8 * px (suc k) va)))) [
              | inl v ↦ rw v (
                  grown_entry_at k (pte2pa (pte (q + 8 * px (suc k) va))) (y * 512 + px (suc k) va)
                    va (f.tree.below q k y (px (suc k) va) o (omega arith) v))
              | inr v ↦ rw v refl
            ])
    ]

    pub grown_entry : (va : ℕ) → entry pte_new root va ≡ entry pte root va
    grown_entry va = grown_entry_at 2 root 0 va f.tree.top
