-- ===== src/Kalloc/Tests.antt =====
-- The allocator on a small chain of pages, and its theorems there.
use intro2os_project.Prelude.{
  ℕ, ◌+◌, ◌-◌, ◌*◌, ◌/◌, ◌≡◌, refl, List, [], ◌∷◌, some, arith, length, All, NotIn, Distinct, ◌==◌,
  if◌then◌else◌,
}
use mathlib.Core.List.Permᴰ
use intro2os_project.Kalloc.{
  Kmem, kalloc, kcollect_free, count_free, kinit, pgsize, phystop, pgroundup,
}
use intro2os_project.Kalloc.Chain.{IsChain}
use intro2os_project.Kalloc.Owners.{
  IsPage, Memory, take, Reach, here, later, IsShared, kalloc_unshared, freemem_conserved,
}
use intro2os_project.Kalloc.Boot.{kinit_fills}

abbrev base : ℕ
base = 0x80100000

-- Two free pages, `base` and the one behind it.
abbrev two_free : Kmem
two_free = record { next = λ a. if a == base then base + pgsize else 0; freelist = base }

abbrev machine : List ℕ
machine = base ∷ (base + pgsize) ∷ []

abbrev nothing_held : Memory
nothing_held = record { kmem = two_free; held = [] }

two_free_bytes : kcollect_free two_free ≡ 8192
unfolding kcollect_free count_free
two_free_bytes = refl

double_take : (kalloc (kalloc two_free).1).0 ≡ base + pgsize
unfolding kalloc
double_take = refl

shared : IsShared machine nothing_held
shared = record {
  free = machine;
  chain = (refl, (λ e. omega arith), (refl, (λ e. omega arith), refl));
  shared = Permᴰ.refl machine;
}

abbrev taken : Memory
taken = record { kmem = (kalloc two_free).1; held = (kalloc two_free).0 ∷ [] }

reached : Reach base nothing_held taken
unfolding kalloc
reached = later here (take (λ e. omega arith))

distinct : Distinct machine
distinct = (((λ e. omega arith), tt), (tt, tt))

machine-IsPage : All (λ x. IsPage base x) machine
machine-IsPage = omega arith

kalloc_unshared_example : NotIn (kalloc taken.kmem).0 taken.held × IsPage base (kalloc taken.kmem).0
unfolding kalloc
kalloc_unshared_example =
    kalloc_unshared base machine distinct (omega arith) (IsPage base) machine-IsPage shared reached
      (λ e. omega arith)

freemem_conserved_example :
    kcollect_free taken.kmem + length taken.held * pgsize ≡ length machine * pgsize
freemem_conserved_example =
    freemem_conserved base machine distinct (omega arith) (omega arith) shared reached

kinit_fills_example :
    (k : Kmem) × (l : List ℕ) × (kinit base (λ _. 0) ≡ some k)
    × IsChain k.next k.freelist l
    × All (λ x. IsPage base x) l
    × Distinct l
    × (length l ≡ (phystop - pgroundup base) / pgsize)
kinit_fills_example = kinit_fills base (λ _. 0) (omega arith) (omega arith)
