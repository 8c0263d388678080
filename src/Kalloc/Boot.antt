-- ===== src/Kalloc/Boot.antt =====
-- What `kinit` leaves behind: every page between the kernel and PHYSTOP on the free list, once.
use intro2os_project.Prelude.{
  arith, ℕ, zero, suc, ◌+◌, ◌-◌, ◌/◌, ◌%◌, ◌≤◌, ◌<◌, ◌≡◌, refl, List, [], ◌∷◌, Option, some, All,
  NotIn, Distinct, All-map, length, update, update_self, Bool-cases, leb, inl, inr, leb→le,
}
use intro2os_project.Kalloc.{
  Kmem, kfree, freerange_from, freerange, kinit, pgsize, pgroundup, phystop,
}
use intro2os_project.Kalloc.Chain.{IsChain, IsChain-update}
use intro2os_project.Kalloc.Owners.{IsPage}

-- The list that `freerange` builds: pages below `p`, each once.
record Built (end p : ℕ) (k : Kmem) (l : List ℕ) : Type 0 where
  chain : IsChain k.next k.freelist l
  pages : All (λ x. IsPage end x) l
  below : All (λ x. x < p) l
  distinct : Distinct l

-- The result of the loop of `freerange` at `p`.
record Filled (end p pa_end n : ℕ) (out : Option Kmem) : Type 0 where
  kmem : Kmem
  list : List ℕ
  done : out ≡ some kmem
  built : (q : ℕ) × Built end q kmem list
  grown : length list ≡ n + (pa_end - p) / pgsize

abbrev pushed : ℕ → Kmem → Kmem
pushed p k = record { next = update k.next p k.freelist; freelist = p }

kfree_pushes : (end p : ℕ) (k : Kmem) → IsPage end p → kfree end p k ≡ some (pushed p k)
unfolding kfree
kfree_pushes end p k h = ground arith

push-Built :
    (end p : ℕ) (k : Kmem) (l : List ℕ)
    → 0 < end
    → IsPage end p
    → Built end p k l
    → Built end (p + pgsize) (pushed p k) (p ∷ l)
push-Built end p k l pos h b = record {
  chain = (
    refl,
    omega arith,
    rw (update_self k.next p k.freelist)
        (IsChain-update k.next p k.freelist k.freelist l apart b.chain),
  );
  pages = (h, b.pages);
  below = (omega arith, All-map l (λ x g. omega arith) b.below);
  distinct = (apart, b.distinct);
}
  where
    apart : NotIn p l
    apart = All-map l (λ x g. omega arith) b.below

freerange_from_fills :
    (end fuel p pa_end : ℕ) (k : Kmem) (l : List ℕ)
    → 0 < end
    → p % pgsize ≡ 0
    → end ≤ p
    → pa_end ≤ phystop
    → (pa_end - p) / pgsize ≤ fuel
    → Built end p k l
    → Filled end p pa_end (length l) (freerange_from end fuel p pa_end k)
unfolding freerange_from
freerange_from_fills end zero p pa_end k l pos al le top h b = record {
  kmem = k;
  list = l;
  done = refl;
  built = (p, b);
  grown = omega arith;
}
freerange_from_fills end (suc fuel) p pa_end k l pos al le top h b =
    elim (Bool-cases (leb (p + pgsize) pa_end)) [
      | inl e ↦
          let page : IsPage end p = (al, le, omega (arith, leb→le (p + pgsize) pa_end e)) in
          let rest : Filled end (p + pgsize) pa_end (suc (length l))
              (freerange_from end fuel (p + pgsize) pa_end (pushed p k)) =
            freerange_from_fills end fuel (p + pgsize) pa_end (pushed p k) (p ∷ l) pos (omega arith)
              (omega arith) top (omega (arith, leb→le (p + pgsize) pa_end e))
              (push-Built end p k l pos page b) in
          rw (e, kfree_pushes end p k page, freerange_from)
            (record {
              kmem = rest.kmem;
              list = rest.list;
              done = rest.done;
              built = rest.built;
              grown = omega (arith, rest.grown, leb→le (p + pgsize) pa_end e);
            })
      | inr e ↦
          rw (e, freerange_from)
            (record { kmem = k; list = l; done = refl; built = (p, b); grown = ground arith })
    ]

-- The list of a loop that started with an empty one.
abbrev AllFree : ℕ → ℕ → ℕ → Option Kmem → Type 0
AllFree end p pa_end out =
    (k : Kmem) × (l : List ℕ) × (out ≡ some k)
    × IsChain k.next k.freelist l
    × All (λ x. IsPage end x) l
    × Distinct l
    × (length l ≡ (pa_end - p) / pgsize)

Filled-AllFree :
    (end p pa_end : ℕ) {out : Option Kmem} → Filled end p pa_end 0 out → AllFree end p pa_end out
Filled-AllFree end p pa_end f = (
  f.kmem,
  f.list,
  f.done,
  f.built.1.chain,
  f.built.1.pages,
  f.built.1.distinct,
  omega (arith, f.grown),
)

-- If the kernel ends below PHYSTOP, `kinit` succeeds: it leaves a chain of distinct pages, each of
-- which `kfree` accepts, and their number is that of the whole pages between the kernel and PHYSTOP.
pub kinit_fills :
    (end : ℕ) (ram : ℕ → ℕ)
    → 0 < end
    → end < phystop
    → (k : Kmem) × (l : List ℕ) × (kinit end ram ≡ some k)
      × IsChain k.next k.freelist l
      × All (λ x. IsPage end x) l
      × Distinct l
      × (length l ≡ (phystop - pgroundup end) / pgsize)
unfolding kinit freerange
kinit_fills end ram pos top = Filled-AllFree end (pgroundup end) phystop (
    freerange_from_fills end (phystop / pgsize) (pgroundup end) phystop
      (record { next = ram; freelist = 0 }) [] pos (omega arith) (omega arith) (omega arith)
      (omega arith) (record { chain = refl; pages = tt; below = tt; distinct = tt }))
