-- ===== src/Vm/Mapping.antt =====
-- `mappages` of kernel/vm.c as a change of the mapping that the page table stands for.
use intro2os_project.Prelude.{
  ℕ, ◌+◌, ◌-◌, ◌*◌, ◌/◌, ◌%◌, ◌^◌, ◌≤◌, ◌<◌, ◌≡◌, ◌⊎◌, inl, inr, sym, ap, ◌∙◌, subst, Bool, true,
  false, some, ◌==◌, if◌then◌else◌, update, arith, List, [],
}
use intro2os_project.Vm.{Ram, bind_some, pte_v, pa2pte, with_v, px, maxva, walk, map_page}
use intro2os_project.Vm.Tree.{Own, IsTree, slot_from, slot-own, entry, entry_at}
use intro2os_project.Vm.Leaf.{leaf-IsTree, leaf_slot, leaf_entry}
use intro2os_project.Vm.Pool.{IsSpace}
use intro2os_project.Vm.Walk.{walk-Walked}

-- The memory after a write to one entry.
abbrev pub stored : Ram → ℕ → ℕ → Ram
stored m a v = record m { pte = update m.pte a v }

-- A write to the slot of `va` keeps the page table well formed and changes the entry of its page only.
pub stored-IsSpace :
    (root va a v : ℕ) (own : Own) (pages : List ℕ) (m : Ram)
    → IsSpace root own pages m
    → va < maxva
    → slot_from 2 m.pte root va ≡ some a
    → IsSpace root own pages (stored m a v)
      × ((vb : ℕ)
          → vb < maxva
          → entry (update m.pte a v) root vb
            ≡ (if vb / 4096 == va / 4096 then v else entry m.pte root vb))
stored-IsSpace root va a v own pages m s lt e =
    let at = slot-own root va a own m.pte s.tree lt e in
    let tree =
      leaf-IsTree root at.0 (va / 2 ^ 21) (px 0 va) own m.pte v s.tree at.1 (omega arith) in
    let slots : (vb : ℕ)
        → slot_from 2 (update m.pte (at.0 + 8 * px 0 va) v) root vb ≡ slot_from 2 m.pte root vb =
      λ vb. leaf_slot root at.0 (va / 2 ^ 21) (px 0 va) vb own m.pte v s.tree at.1 (omega arith) in
    (
      record {
        tree = subst (λ z. IsTree root own (update m.pte z v)) (sym at.2) tree;
        chain = s.chain;
        distinct = s.distinct;
        spare = s.spare;
      },
      λ vb lb. leaf_entry root va vb a v own m.pte s.tree lt lb e (
          subst (λ z. slot_from 2 (update m.pte z v) root vb ≡ slot_from 2 m.pte root vb) (sym at.2)
            (slots vb)),
    )

-- What a call of `mappages` for `n` pages at `va` leaves: the pages are mapped one to one, or no page of RAM is
-- left and the addresses outside are as before.
pub record IsMapped (root va n pa perm : ℕ) (m : Ram) (ok : Bool) (m' : Ram) : Type 0 where
  pub own' : Own
  pub pages' : List ℕ
  pub space : IsSpace root own' pages' m'
  pub bytes : m'.byte ≡ m.byte
  pub full : ok ≡ false → pages' ≡ []
  pub inside :
      (vb : ℕ)
      → vb < maxva
      → va ≤ vb
      → vb < va + n * 4096
      → ok ≡ true
      → entry m'.pte root vb ≡ pa2pte (pa + (vb / 4096 * 4096 - va)) + with_v perm
  pub outside :
      (vb : ℕ)
      → vb < maxva
      → (vb < va) ⊎ (va + n * 4096 ≤ vb)
      → entry m'.pte root vb ≡ entry m.pte root vb

map_page_stop :
    (root a pa perm : ℕ) (m m' : Ram)
    → walk root a true m ≡ some (0, m')
    → map_page root a pa perm m ≡ some (false, m')
unfolding map_page
map_page_stop root a pa perm m m' e = bind_some (walk root a true) _ m m' 0 e

map_page_store :
    (root a pa perm slot : ℕ) (m m' : Ram)
    → walk root a true m ≡ some (slot, m')
    → 0 < slot
    → pte_v (m'.pte slot) ≡ false
    → map_page root a pa perm m ≡ some (true, stored m' slot (pa2pte pa + with_v perm))
unfolding map_page
map_page_store root a pa perm slot m m' e h v =
    bind_some (walk root a true) _ m m' slot e ∙ ground arith

-- One page.
pub map_page-IsMapped :
    (root a pa perm : ℕ) (own : Own) (pages : List ℕ) (m : Ram)
    → IsSpace root own pages m
    → a % 4096 ≡ 0
    → a < maxva
    → pte_v (entry m.pte root a) ≡ false
    → (ok : Bool) × (m' : Ram) × (map_page root a pa perm m ≡ some (ok, m'))
      × IsMapped root a 1 pa perm m ok m'
map_page-IsMapped root a pa perm own pages m s al lt unmapped =
    let (slot, m1, e, w) = walk-Walked root a own pages m s lt in
    elim w.arrives [
      | inl (stop, full) ↦ (
        false,
        m1,
        map_page_stop root a pa perm m m1 (e ∙ ap (λ z. some (z, m1)) stop),
        record {
          own' = w.own';
          pages' = w.pages';
          space = w.grown.space;
          bytes = w.grown.bytes;
          full = λ f. full;
          inside = λ vb lb ge le no. ground arith;
          outside = λ vb lb out. w.grown.entries vb;
        },
      )
      | inr (there, low) ↦
          let old : m1.pte slot ≡ entry m.pte root a =
            ap (entry_at m1.pte) (sym there) ∙ w.grown.entries a in
          let (space, entries) =
            stored-IsSpace root a slot (pa2pte pa + with_v perm) w.own' w.pages' m1 w.grown.space lt
              there in
          (
            true,
            _,
            map_page_store root a pa perm slot m m1 e low (ap pte_v old ∙ unmapped),
            record {
              own' = w.own';
              pages' = w.pages';
              space = space;
              bytes = w.grown.bytes;
              full = λ f. ground arith;
              inside = λ vb lb ge le yes'. entries vb lb ∙ ground arith;
              outside = λ vb lb out. entries vb lb ∙ ground (arith, w.grown.entries vb);
            },
          )
    ]
