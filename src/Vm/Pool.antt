-- ===== src/Vm/Pool.antt =====
-- A page table with the free pages beside it, and what a walk with `alloc` leaves as it was.
use intro2os_project.Prelude.{
  ℕ, suc, ◌+◌, ◌*◌, ◌%◌, ◌<◌, ◌≡◌, ◌⊎◌, inl, inr, refl, ap, ◌∙◌, Bool, true, false, none, some,
  update, update_self, arith, Bool-cases, List, [], ◌∷◌, All, NotIn, Distinct,
}
use intro2os_project.Kalloc.{Kmem, kalloc, phystop}
use intro2os_project.Kalloc.Chain.{IsChain}
use intro2os_project.Kalloc.Owners.{kalloc_first}
use intro2os_project.Vm.{Ram, pte_v, pte2pa, pa2pte, zeroed, descend}
use intro2os_project.Vm.Tree.{Own, IsTree, entry}
use intro2os_project.Vm.Grow.{
  IsFresh, own_new, pte_new, grown-IsTree, grown_entry, own_kept, own_other, pte_kept, parent_page,
  parent_valid,
}

-- A free page is no table.
abbrev pub IsSpare : Own → ℕ → Type 0
IsSpare own pa = (own pa ≡ none) × (pa % 4096 ≡ 0) × (pa < phystop)

pub record IsSpace (root : ℕ) (own : Own) (pages : List ℕ) (m : Ram) : Type 0 where
  pub tree : IsTree root own m.pte
  pub chain : IsChain m.kmem.next m.kmem.freelist pages
  pub distinct : Distinct pages
  pub spare : All (IsSpare own) pages

-- Tables were added, and no address changed its entry.
pub record IsGrown (root : ℕ) (own : Own) (m : Ram) (own' : Own) (pages' : List ℕ) (m' : Ram)
    : Type 0 where
  pub space : IsSpace root own' pages' m'
  pub kept : (q : ℕ) (v : ℕ × ℕ) → own q ≡ some v → own' q ≡ some v
  pub words :
      (q k y j : ℕ)
      → own q ≡ some (suc k, y)
      → j < 512
      → pte_v (m.pte (q + 8 * j)) ≡ true
      → m'.pte (q + 8 * j) ≡ m.pte (q + 8 * j)
  pub entries : (va : ℕ) → entry m'.pte root va ≡ entry m.pte root va
  pub bytes : m'.byte ≡ m.byte

pub IsGrown-refl :
    (root : ℕ) (own : Own) (pages : List ℕ) (m : Ram)
    → IsSpace root own pages m
    → IsGrown root own m own pages m
IsGrown-refl root own pages m s = record {
  space = s;
  kept = λ q v o. o;
  words = λ q k y j o hj v. refl;
  entries = λ va. refl;
  bytes = refl;
}

pub IsGrown-trans :
    (root : ℕ) (own own1 own2 : Own) (pages1 pages2 : List ℕ) (m m1 m2 : Ram)
    → IsGrown root own m own1 pages1 m1
    → IsGrown root own1 m1 own2 pages2 m2
    → IsGrown root own m own2 pages2 m2
IsGrown-trans root own own1 own2 pages1 pages2 m m1 m2 g h = record {
  space = h.space;
  kept = λ q v o. h.kept q v (g.kept q v o);
  words = λ q k y j o hj v.
      let w = g.words q k y j o hj v in
      h.words q k y j (g.kept q (suc k, y) o) hj (ap pte_v w ∙ v) ∙ w;
  entries = λ va. h.entries va ∙ g.entries va;
  bytes = h.bytes ∙ g.bytes;
}

-- One round of `walk` at the entry `i` of the table `p`: it fails only when no page is left, and otherwise
-- the entry leads to a table of the level below.
pub record IsDescent (root : ℕ) (own : Own) (m : Ram) (p l x i : ℕ) (below : ℕ) (m' : Ram)
    : Type 0 where
  pub own' : Own
  pub pages' : List ℕ
  pub grown : IsGrown root own m own' pages' m'
  pub arrives :
      ((below ≡ 0) × (pages' ≡ []))
      ⊎ ((own' below ≡ some (l, x * 512 + i))
          × (0 < below)
          × (pte_v (m'.pte (p + 8 * i)) ≡ true)
          × (pte2pa (m'.pte (p + 8 * i)) ≡ below))

descend_valid :
    (b : Bool) (a : ℕ) (m : Ram)
    → pte_v (m.pte a) ≡ true
    → descend b a m ≡ some (pte2pa (m.pte a), m)
unfolding descend
descend_valid b a m v = ground arith

kalloc_full : (k : Kmem) → k.freelist ≡ 0 → kalloc k ≡ (0, k)
unfolding kalloc
kalloc_full k e = ground arith

descend_full :
    (a : ℕ) (m : Ram)
    → pte_v (m.pte a) ≡ false
    → kalloc m.kmem ≡ (0, m.kmem)
    → descend true a m ≡ some (0, m)
unfolding descend
descend_full a m v e = rw (v, e) refl

descend_new :
    (a g : ℕ) (k : Kmem) (m : Ram)
    → pte_v (m.pte a) ≡ false
    → kalloc m.kmem ≡ (g, k)
    → 0 < g
    → descend true a m
      ≡ some (g, record { kmem = k; pte = update (zeroed g m.pte) a (pa2pte g + 1); byte = m.byte })
unfolding descend
descend_new a g k m v e h = rw (v, e) (ground arith)

-- A page that leaves the free list and becomes a table leaves the others spare.
kept-IsSpare :
    (root p l x i g : ℕ) (own : Own) (pte : ℕ → ℕ)
    → IsFresh root p l x i g own pte
    → (gs : List ℕ) → NotIn g gs
    → All (IsSpare own) gs
    → All (IsSpare (own_new root p l x i g own pte)) gs
kept-IsSpare root p l x i g own pte f [] n s = tt
kept-IsSpare root p l x i g own pte f (q ∷ gs) n s = (
  (own_other root p l x i g own pte f q n.0 s.0.0, s.0.1, s.0.2),
  kept-IsSpare root p l x i g own pte f gs n.1 s.1,
)

new-IsGrown :
    (root p l x i g : ℕ) (own : Own) (gs : List ℕ) (m : Ram)
    → IsSpace root own (g ∷ gs) m
    → IsFresh root p l x i g own m.pte
    → IsGrown root own m (own_new root p l x i g own m.pte) gs (record {
      kmem = record m.kmem { freelist = m.kmem.next g };
      pte = pte_new root p l x i g own m.pte;
      byte = m.byte;
    })
new-IsGrown root p l x i g own gs m s f = record {
  space = record {
    tree = grown-IsTree root p l x i g own m.pte f;
    chain = s.chain.2;
    distinct = s.distinct.1;
    spare = kept-IsSpare root p l x i g own m.pte f gs s.distinct.0 s.spare.1;
  };
  kept = own_kept root p l x i g own m.pte f;
  words = pte_kept root p l x i g own m.pte f;
  entries = grown_entry root p l x i g own m.pte f;
  bytes = refl;
}

abbrev pub Descended : (root : ℕ) (own : Own) (m : Ram) (p l x i : ℕ) → Type 0
Descended root own m p l x i =
    (below : ℕ) × (m' : Ram) × (descend true (p + 8 * i) m ≡ some (below, m'))
    × IsDescent root own m p l x i below m'

descend_free :
    (root p l x i : ℕ) (own : Own) (pages : List ℕ) (m : Ram)
    → IsSpace root own pages m
    → own p ≡ some (suc l, x)
    → i < 512
    → pte_v (m.pte (p + 8 * i)) ≡ false
    → Descended root own m p l x i
descend_free root p l x i own [] m s o hi v = (
  0,
  m,
  descend_full (p + 8 * i) m v (kalloc_full m.kmem s.chain),
  record {
    own' = own;
    pages' = [];
    grown = IsGrown-refl root own [] m s;
    arrives = inl (refl, refl);
  },
)
descend_free root p l x i own (g ∷ gs) m s o hi v =
    let pos : 0 < g = ground (arith, s.chain.1) in
    let f : IsFresh root p l x i g own m.pte = record {
      tree = s.tree;
      parent = o;
      index = hi;
      free = s.spare.0.0;
      page = s.spare.0.1;
      low = pos;
      high = s.spare.0.2;
      invalid = v;
    } in
    (
      g,
      _,
      descend_new (p + 8 * i) g _ m v (kalloc_first m.kmem g gs s.chain) pos,
      record {
        own' = own_new root p l x i g own m.pte;
        pages' = gs;
        grown = new-IsGrown root p l x i g own gs m s f;
        arrives = inr (
          update_self own g _,
          pos,
          parent_valid root p l x i g own m.pte f,
          parent_page root p l x i g own m.pte f,
        );
      },
    )

pub descend-IsDescent :
    (root p l x i : ℕ) (own : Own) (pages : List ℕ) (m : Ram)
    → IsSpace root own pages m
    → own p ≡ some (suc l, x)
    → i < 512
    → Descended root own m p l x i
descend-IsDescent root p l x i own pages m s o hi = elim (Bool-cases (pte_v (m.pte (p + 8 * i)))) [
  | inl v ↦
      let next = s.tree.below p l x i o hi v in
      (
        pte2pa (m.pte (p + 8 * i)),
        m,
        descend_valid true (p + 8 * i) m v,
        record {
          own' = own;
          pages' = pages;
          grown = IsGrown-refl root own pages m s;
          arrives =
              inr (
                next,
                (s.tree.aligned (pte2pa (m.pte (p + 8 * i))) l (x * 512 + i) next).1,
                v,
                refl,
              );
        },
      )
  | inr v ↦ descend_free root p l x i own pages m s o hi v
]
