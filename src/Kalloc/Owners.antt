-- ===== src/Kalloc/Owners.antt =====
-- Who owns each page: the allocator or one of its clients.
use mathlib.Core.List.Permᴰ
use intro2os_project.Prelude.{
  ℕ, ◌+◌, ◌*◌, ◌/◌, ◌%◌, ◌≤◌, ◌<◌, ◌≡◌, ◌≢◌, refl, subst, List, [], ◌∷◌, ◌++◌, Permᴰ, some, none,
  All, NotIn, Distinct, All-left, All-right, All-perm, Distinct-perm, length-perm, length,
  length-append, update, update_self, arith,
}
use intro2os_project.Kalloc.{Kmem, kalloc, kfree, kcollect_free, pgsize, phystop}
use intro2os_project.Kalloc.Chain.{IsChain, IsChain-update, kcollect_free-length}

-- A page that `kfree` accepts.
abbrev pub IsPage : ℕ → ℕ → Type 0
IsPage end pa = (pa % pgsize ≡ 0) × (end ≤ pa) × (pa < phystop)

-- The allocator and the pages that its clients hold.
pub record Memory : Type 0 where
  pub kmem : Kmem
  pub held : List ℕ

-- A client takes a page if there is one, or gives a page that it holds back.
pub data Step (end : ℕ) (m : Memory) : Memory → Type 0 where
  take :
      (kalloc m.kmem).0 ≢ 0
      → Step end m (record { kmem = (kalloc m.kmem).1; held = (kalloc m.kmem).0 ∷ m.held })
  give :
      (pa : ℕ) (xs ys : List ℕ) {k : Kmem}
      → m.held ≡ xs ++ (pa ∷ ys)
      → kfree end pa m.kmem ≡ some k
      → Step end m (record { kmem = k; held = xs ++ ys })

pub data Reach (end : ℕ) (s : Memory) : Memory → Type 0 where
  here : Reach end s s
  later : {m n : Memory} → Reach end s m → Step end m n → Reach end s n

-- The chain of free pages and the held pages together are the pages of the machine, rearranged.
pub record IsShared (machine : List ℕ) (m : Memory) : Type 0 where
  pub free : List ℕ
  pub chain : IsChain m.kmem.next m.kmem.freelist free
  pub shared : Permᴰ (free ++ m.held) machine

-- `kalloc` takes the first page of the chain.
pub kalloc_first :
    (k : Kmem) (x : ℕ) (xs : List ℕ)
    → IsChain k.next k.freelist (x ∷ xs)
    → kalloc k ≡ (x, record k { freelist = k.next x })
unfolding kalloc
kalloc_first k x xs c = ground arith

kalloc_none : (k : Kmem) → k.freelist ≡ 0 → (kalloc k).0 ≡ 0
unfolding kalloc
kalloc_none k e = e

kfree_first :
    (end pa : ℕ) (k : Kmem) {k' : Kmem}
    → kfree end pa k ≡ some k'
    → (k' ≡ record { next = update k.next pa k.freelist; freelist = pa }) × IsPage end pa
unfolding kfree
kfree_first end pa k e = ground arith

NotIn-symm : (a : ℕ) (xs ys : List ℕ) → Distinct ((a ∷ xs) ++ ys) → NotIn a xs
NotIn-symm a xs ys d = All-left (λ x. a ≢ x) xs ys d.0

regroup :
    (free xs ys : List ℕ) (pa : ℕ) → Permᴰ (free ++ (xs ++ (pa ∷ ys))) ((pa ∷ free) ++ (xs ++ ys))
regroup free xs ys pa =
    Permᴰ.trans (Permᴰ.append_left free (Permᴰ.middle pa xs ys)) (Permᴰ.middle pa free (xs ++ ys))

module _ (end : ℕ) (machine : List ℕ) (distinct : Distinct machine) (nonzero : 0 < end) where
  take-IsShared :
      (m : Memory) (free : List ℕ)
      → IsChain m.kmem.next m.kmem.freelist free
      → Permᴰ (free ++ m.held) machine
      → (kalloc m.kmem).0 ≢ 0
      → IsShared machine (record { kmem = (kalloc m.kmem).1; held = (kalloc m.kmem).0 ∷ m.held })
  take-IsShared m [] c p ne = absurd (ne (kalloc_none m.kmem c))
  take-IsShared m (x ∷ xs) c p ne =
      rw (kalloc_first m.kmem x xs c)
        (record { free = xs; chain = c.2; shared = Permᴰ.trans (Permᴰ.middle x xs m.held) p })

  give-IsShared :
      (m : Memory) (free : List ℕ)
      → IsChain m.kmem.next m.kmem.freelist free
      → Permᴰ (free ++ m.held) machine
      → (pa : ℕ) (xs ys : List ℕ) {k : Kmem} → m.held ≡ xs ++ (pa ∷ ys)
      → kfree end pa m.kmem ≡ some k
      → IsShared machine (record { kmem = k; held = xs ++ ys })
  give-IsShared m free c p pa xs ys e f =
      let (e', page) = kfree_first end pa m.kmem f in
      rw e' (record {
        free = pa ∷ free;
        chain = (
          refl,
          omega arith,
          rw (update_self m.kmem.next pa m.kmem.freelist) (
              IsChain-update m.kmem.next pa m.kmem.freelist m.kmem.freelist free
                (NotIn-symm pa free (xs ++ ys) (Distinct-perm (Permᴰ.symm moved) distinct)) c),
        );
        shared = moved;
      })
    where
      moved : Permᴰ ((pa ∷ free) ++ (xs ++ ys)) machine
      moved =
          Permᴰ.trans (Permᴰ.symm (regroup free xs ys pa))
            (subst (λ h. Permᴰ (free ++ h) machine) e p)

  pub Step-IsShared : {m n : Memory} → Step end m n → IsShared machine m → IsShared machine n
  Step-IsShared {m} (take ne) s = take-IsShared m s.free s.chain s.shared ne
  Step-IsShared {m} (give pa xs ys e f) s = give-IsShared m s.free s.chain s.shared pa xs ys e f

  pub Reach-IsShared : {s m : Memory} → IsShared machine s → Reach end s m → IsShared machine m
  Reach-IsShared h here = h
  Reach-IsShared h (later r st) = Step-IsShared st (Reach-IsShared h r)

  fresh_page :
      (P : ℕ → Type 0) (m : Memory) (free : List ℕ)
      → IsChain m.kmem.next m.kmem.freelist free
      → Permᴰ (free ++ m.held) machine
      → All P machine
      → (kalloc m.kmem).0 ≢ 0
      → NotIn (kalloc m.kmem).0 m.held × P (kalloc m.kmem).0
  fresh_page P m [] c p h ne = absurd (ne (kalloc_none m.kmem c))
  fresh_page P m (x ∷ xs) c p h ne = rw (kalloc_first m.kmem x xs c) (
    All-right (λ y. x ≢ y) xs m.held (Distinct-perm (Permᴰ.symm p) distinct).0,
    (All-perm P (Permᴰ.symm p) h).0,
  )

  -- In every state that clients reach by taking pages and giving back pages that they hold, the page
  -- that `kalloc` returns is no page that a client holds, and it is a page of the machine: it has
  -- every property `P` that those have.
  pub kalloc_unshared :
      (P : ℕ → Type 0) {s m : Memory}
      → All P machine
      → IsShared machine s
      → Reach end s m
      → (kalloc m.kmem).0 ≢ 0
      → NotIn (kalloc m.kmem).0 m.held × P (kalloc m.kmem).0
  kalloc_unshared P {s} {m} h i r ne =
      let j = Reach-IsShared i r in fresh_page P m j.free j.chain j.shared h ne

  -- In every state that clients reach by taking pages and giving back pages that they hold, the
  -- free memory that `kcollect_free` reports and the memory that clients hold add up to the memory
  -- of the machine, which has at most as many pages as lie below PHYSTOP.
  pub freemem_conserved :
      {s m : Memory}
      → length machine ≤ phystop / pgsize
      → IsShared machine s
      → Reach end s m
      → kcollect_free m.kmem + length m.held * pgsize ≡ length machine * pgsize
  freemem_conserved {m} small i r =
      let j = Reach-IsShared i r in
      let n : length j.free + length m.held ≡ length machine =
        omega (arith, length-append j.free m.held, length-perm j.shared) in
      omega (arith, n, kcollect_free-length m.kmem j.free j.chain (omega arith))

kfree_page : (end pa : ℕ) (k : Kmem) → IsPage end pa → kfree end pa k ≢ none
unfolding kfree
kfree_page end pa k h = ground arith
