-- ===== src/Vm/Unmap.antt =====
-- `uvmunmap` of kernel/vm.c: the pages of a range leave the mapping, and go back to the free list.
use intro2os_project.Prelude.{
  ℕ, suc, ◌+◌, ◌*◌, ◌/◌, ◌%◌, ◌≤◌, ◌<◌, ◌≡◌, ◌≢◌, ◌⊎◌, refl, sym, ap, ◌∙◌, subst, Bool, true, false,
  Option, none, some, ◌==◌, if◌then◌else◌, update, update_self, arith, List, ◌∷◌, NotIn, length,
}
use intro2os_project.Kalloc.{Kmem, kfree, bad_page}
use intro2os_project.Kalloc.Chain.{IsChain-update}
use intro2os_project.Vm.{
  Ram, bind_some, pte_v, pte2pa, pte_flags, maxva, walk, unmap_page, store, free_page, ◌>>=◌,
}
use intro2os_project.Vm.Tree.{Own, slot_from, slot_positive, walk-slot, or_null, entry, entry_at}
use intro2os_project.Vm.Pool.{IsSpace}
use intro2os_project.Vm.Mapping.{stored, stored-IsSpace}

-- The list of free pages after `kfree`.
abbrev pub pushed : Kmem → ℕ → Kmem
pushed k pa = record { next = update k.next pa k.freelist; freelist = pa }

module _ (end : ℕ) where
  kfree_pushed : (pa : ℕ) (k : Kmem) → bad_page end pa ≡ false → kfree end pa k ≡ some (pushed k pa)
  unfolding kfree
  kfree_pushed pa k g = rw g refl

  -- A page that goes back is spare, and the list stays well formed.
  pushed-IsSpace :
      (root pa : ℕ) (own : Own) (pages : List ℕ) (m : Ram)
      → 0 < end
      → IsSpace root own pages m
      → bad_page end pa ≡ false
      → own pa ≡ none
      → NotIn pa pages
      → IsSpace root own (pa ∷ pages) (record m { kmem = pushed m.kmem pa })
  pushed-IsSpace root pa own pages m pos s good free new = record {
    tree = s.tree;
    chain = (
      refl,
      ground arith,
      rw (update_self m.kmem.next pa m.kmem.freelist)
          (IsChain-update m.kmem.next pa m.kmem.freelist m.kmem.freelist pages new s.chain),
    );
    distinct = (new, s.distinct);
    spare = ((free, ground arith, ground arith), s.spare);
  }

  -- The memory after a page of the loop.
  abbrev pub unmapped : Ram → ℕ → ℕ → Bool → Ram
  unmapped m slot frame do_free = record m {
    pte = update m.pte slot 0;
    kmem = if do_free then pushed m.kmem frame else m.kmem;
  }

  unmap_page_step :
      (root a slot : ℕ) (do_free : Bool) (m : Ram)
      → walk root a false m ≡ some (slot, m)
      → 0 < slot
      → pte_v (m.pte slot) ≡ true
      → pte_flags (m.pte slot) ≢ 1
      → (do_free ≡ true → bad_page end (pte2pa (m.pte slot)) ≡ false)
      → unmap_page end root a do_free m ≡ some (tt, unmapped m slot (pte2pa (m.pte slot)) do_free)
  unfolding unmap_page
  unmap_page_step root a slot false m e h v fl good =
      bind_some (walk root a false) _ m m slot e ∙ ground arith
  unmap_page_step root a slot true m e h v fl good =
      let there : (slot == 0) ≡ false = ground arith in
      let leaf : (pte_flags (m.pte slot) == 1) ≡ false = ground arith in
      bind_some (walk root a false) _ m m slot e
      ∙ rw (there, ◌>>=◌, v, leaf)
          (bind_some (free_page end (pte2pa (m.pte slot))) (λ u. store slot 0) m
            (record m { kmem = pushed m.kmem (pte2pa (m.pte slot)) }) tt
            (rw (free_page, kfree_pushed (pte2pa (m.pte slot)) m.kmem (good refl)) refl))

  abbrev pub frame : ℕ → Ram → ℕ → ℕ
  frame root m va = pte2pa (entry m.pte root va)

  -- The addresses of a range are mapped to pages, no two to one page and none to a table or a free page
  -- when the pages are to be freed.
  pub record IsLeafRange (root : ℕ) (own : Own) (pages : List ℕ) (va n : ℕ) (do_free : Bool)
      (m : Ram) : Type 0 where
    pub valid :
        (vb : ℕ) → vb < maxva → va ≤ vb → vb < va + n * 4096 → pte_v (entry m.pte root vb) ≡ true
    pub leaf :
        (vb : ℕ) → vb < maxva → va ≤ vb → vb < va + n * 4096 → pte_flags (entry m.pte root vb) ≢ 1
    pub good :
        (vb : ℕ)
        → vb < maxva
        → va ≤ vb
        → vb < va + n * 4096
        → do_free ≡ true
        → (bad_page end (frame root m vb) ≡ false)
          × (own (frame root m vb) ≡ none)
          × NotIn (frame root m vb) pages
    pub apart :
        (vb vc : ℕ)
        → vb < maxva
        → va ≤ vb
        → vb < va + n * 4096
        → vc < maxva
        → va ≤ vc
        → vc < va + n * 4096
        → do_free ≡ true
        → vb / 4096 ≢ vc / 4096
        → frame root m vb ≢ frame root m vc

  -- What `uvmunmap` of `n` pages at `va` leaves.
  pub record IsReleased (root : ℕ) (own : Own) (pages : List ℕ) (va n : ℕ) (do_free : Bool)
      (m m' : Ram) : Type 0 where
    pub pages' : List ℕ
    pub space : IsSpace root own pages' m'
    pub bytes : m'.byte ≡ m.byte
    pub count : length pages' ≡ (if do_free then n else 0) + length pages
    pub inside : (vb : ℕ) → vb < maxva → va ≤ vb → vb < va + n * 4096 → entry m'.pte root vb ≡ 0
    pub outside :
        (vb : ℕ)
        → vb < maxva
        → (vb < va) ⊎ (va + n * 4096 ≤ vb)
        → entry m'.pte root vb ≡ entry m.pte root vb

  slot_there : (pte : ℕ → ℕ) (o : Option ℕ) → pte_v (entry_at pte o) ≡ true → o ≡ some (or_null o)
  slot_there pte none v = ground arith
  slot_there pte (some a) v = refl

  abbrev pub pages_after : ℕ → List ℕ → Bool → List ℕ
  pages_after pa pages true = pa ∷ pages
  pages_after pa pages false = pages

  -- One page of the loop.
  freed-IsSpace :
      (root a slot pa : ℕ) (own : Own) (pages : List ℕ) (do_free : Bool) (m : Ram)
      → 0 < end
      → IsSpace root own pages (stored m slot 0)
      → (do_free ≡ true → (bad_page end pa ≡ false) × (own pa ≡ none) × NotIn pa pages)
      → IsSpace root own (pages_after pa pages do_free) (unmapped m slot pa do_free)
  freed-IsSpace root a slot pa own pages false m pos s good = s
  freed-IsSpace root a slot pa own pages true m pos s good =
      let (fit, free, new) = good refl in
      pushed-IsSpace root pa own pages (stored m slot 0) pos s fit free new

  pub pages_more :
      (pa n k : ℕ) (pages : List ℕ) (do_free : Bool)
      → k ≡ (if do_free then n else 0) + length (pages_after pa pages do_free)
      → k ≡ (if do_free then suc n else 0) + length pages
  pages_more pa n k pages true e = omega arith
  pages_more pa n k pages false e = e

  pub NotIn-after :
      (x pa : ℕ) (pages : List ℕ) (do_free : Bool)
      → x ≢ pa
      → NotIn x pages
      → NotIn x (pages_after pa pages do_free)
  NotIn-after x pa pages true ne new = (ne, new)
  NotIn-after x pa pages false ne new = new

  pub unmap_page_released :
      (root a k : ℕ) (own : Own) (pages : List ℕ) (do_free : Bool) (m : Ram)
      → 0 < end
      → IsSpace root own pages m
      → a % 4096 ≡ 0
      → a < maxva
      → IsLeafRange root own pages a (suc k) do_free m
      → (m1 : Ram) × (unmap_page end root a do_free m ≡ some (tt, m1))
        × IsSpace root own (pages_after (frame root m a) pages do_free) m1
        × (m1.byte ≡ m.byte)
        × ((vb : ℕ)
            → vb < maxva
            → entry m1.pte root vb ≡ (if vb / 4096 == a / 4096 then 0 else entry m.pte root vb))
  unmap_page_released root a k own pages do_free m pos s al lt r =
      let here : (a ≤ a) × (a < a + suc k * 4096) = (omega arith, omega arith) in
      let v = r.valid a lt here.0 here.1 in
      let there = slot_there m.pte (slot_from 2 m.pte root a) v in
      let slot = or_null (slot_from 2 m.pte root a) in
      let word : m.pte slot ≡ entry m.pte root a = ap (entry_at m.pte) (sym there) in
      let low : 0 < slot = slot_positive root a slot own m.pte s.tree lt there in
      let (space, entries) = stored-IsSpace root a slot 0 own pages m s lt there in
      let good = r.good a lt here.0 here.1 in
      (
        unmapped m slot (frame root m a) do_free,
        subst (λ z. unmap_page end root a do_free m ≡ some (tt, unmapped m slot (pte2pa z) do_free))
            word
            (unmap_page_step root a slot do_free m (walk-slot root a own m s.tree lt) low
              (ap pte_v word ∙ v) (λ f. r.leaf a lt here.0 here.1 (ap pte_flags (sym word) ∙ f))
              (λ f. ap (λ z. bad_page end (pte2pa z)) word ∙ (good f).0)),
        freed-IsSpace root a slot (frame root m a) own pages do_free m pos space good,
        refl,
        entries,
      )
