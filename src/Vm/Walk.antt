-- ===== src/Vm/Walk.antt =====
-- `walk` of kernel/vm.c with `alloc`: it arrives at the slot of the address, or no page is left.
use intro2os_project.Prelude.{
  ℕ, zero, suc, ◌+◌, ◌*◌, ◌<◌, ◌≡◌, ◌⊎◌, inl, inr, refl, ap, ◌∙◌, Bool, true, some, arith, List, [],
}
use intro2os_project.Vm.{Ram, pte_v, pte2pa, px, maxva, descend, walk_from, walk}
use intro2os_project.Vm.Tree.{Own, slot_from}
use intro2os_project.Vm.Pool.{
  IsSpace, IsGrown, IsDescent, descend-IsDescent, IsGrown-refl, IsGrown-trans,
}

-- Where a walk of `va` from the table `p` of level `l` ends.
pub record IsWalk (root : ℕ) (own : Own) (m : Ram) (l p va : ℕ) (a : ℕ) (m' : Ram) : Type 0 where
  pub own' : Own
  pub pages' : List ℕ
  pub grown : IsGrown root own m own' pages' m'
  pub arrives : ((a ≡ 0) × (pages' ≡ [])) ⊎ ((slot_from l m'.pte p va ≡ some a) × (0 < a))

abbrev pub Walked : ℕ → Own → Ram → ℕ → ℕ → ℕ → Type 0
Walked root own m l p va =
    (a : ℕ) × (m' : Ram) × (walk_from l true va p m ≡ some (a, m')) × IsWalk root own m l p va a m'

walk_stop :
    (b : Bool) (l va p : ℕ) (m m' : Ram)
    → descend b (p + 8 * px (suc l) va) m ≡ some (0, m')
    → walk_from (suc l) b va p m ≡ some (0, m')
unfolding walk_from
walk_stop b l va p m m' e = rw (e, walk_from) refl

walk_next :
    (b : Bool) (l va p below : ℕ) (m m' : Ram)
    → descend b (p + 8 * px (suc l) va) m ≡ some (below, m')
    → 0 < below
    → walk_from (suc l) b va p m ≡ walk_from l b va below m'
unfolding walk_from
walk_next b l va p below m m' e h = rw (e, walk_from) (ground arith)

slot_next :
    (l va p below : ℕ) (pte : ℕ → ℕ)
    → pte_v (pte (p + 8 * px (suc l) va)) ≡ true
    → pte2pa (pte (p + 8 * px (suc l) va)) ≡ below
    → slot_from (suc l) pte p va ≡ slot_from l pte below va
unfolding slot_from
slot_next l va p below pte v e = rw (v, e) refl

-- The walk after a round that went down.
below-IsWalk :
    (root l p x va below : ℕ) (own : Own) (m m' : Ram)
    → own p ≡ some (suc l, x)
    → (d : IsDescent root own m p l x (px (suc l) va) below m')
    → (pte_v (m'.pte (p + 8 * px (suc l) va)) ≡ true)
    → (pte2pa (m'.pte (p + 8 * px (suc l) va)) ≡ below)
    → (a : ℕ) (m2 : Ram) → IsWalk root d.own' m' l below va a m2
    → IsWalk root own m (suc l) p va a m2
below-IsWalk root l p x va below own m m' o d v e a m2 w =
    let word = w.grown.words p l x (px (suc l) va) (d.grown.kept p (suc l, x) o) (omega arith) v in
    let next = slot_next l va p below m2.pte (ap pte_v word ∙ v) (ap pte2pa word ∙ e) in
    record {
      own' = w.own';
      pages' = w.pages';
      grown = IsGrown-trans root own d.own' w.own' d.pages' w.pages' m m' m2 d.grown w.grown;
      arrives = elim w.arrives [ inl full ↦ inl full | inr there ↦ inr (next ∙ there.0, there.1) ];
    }

walk_from-Walked :
    (root l p x va : ℕ) (own : Own) (pages : List ℕ) (m : Ram)
    → IsSpace root own pages m
    → own p ≡ some (l, x)
    → Walked root own m l p va
unfolding slot_from walk_from
walk_from-Walked root zero p x va own pages m s o =
    let low = (s.tree.aligned p 0 x o).1 in
    (
      p + 8 * px 0 va,
      m,
      refl,
      record {
        own' = own;
        pages' = pages;
        grown = IsGrown-refl root own pages m s;
        arrives = inr (refl, omega arith);
      },
    )
walk_from-Walked root (suc l) p x va own pages m s o =
    let (below, m', e, d) =
      descend-IsDescent root p l x (px (suc l) va) own pages m s o (omega arith) in
    elim d.arrives [
      | inl (stop, full) ↦ (
        0,
        m',
        walk_stop true l va p m m' (e ∙ ap (λ z. some (z, m')) stop),
        record { own' = d.own'; pages' = d.pages'; grown = d.grown; arrives = inl (refl, full) },
      )
      | inr (owner, low, v, page) ↦
          let (a, m2, e2, w) =
            walk_from-Walked root l below (x * 512 + px (suc l) va) va d.own' d.pages' m'
              d.grown.space owner in
          (
            a,
            m2,
            walk_next true l va p below m m' e low ∙ e2,
            below-IsWalk root l p x va below own m m' o d v page a m2 w,
          )
    ]

-- `walk` of a whole page table.
pub walk-Walked :
    (root va : ℕ) (own : Own) (pages : List ℕ) (m : Ram)
    → IsSpace root own pages m
    → va < maxva
    → (a : ℕ) × (m' : Ram) × (walk root va true m ≡ some (a, m')) × IsWalk root own m 2 root va a m'
unfolding walk
walk-Walked root va own pages m s lt =
    let (a, m', e, w) = walk_from-Walked root 2 root 0 va own pages m s s.tree.top in
    (a, m', rw (e, walk) (ground arith), w)
