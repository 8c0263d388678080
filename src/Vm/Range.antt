-- ===== src/Vm/Range.antt =====
-- The loop of `mappages` of kernel/vm.c over the pages of a range.
use intro2os_project.Prelude.{
  ℕ, zero, suc, ◌+◌, ◌-◌, ◌*◌, ◌/◌, ◌%◌, ◌^◌, ◌≤◌, ◌<◌, ◌≡◌, ◌⊎◌, inl, inr, refl, ap, ◌∙◌, subst,
  Bool, true, false, some, ◌==◌, arith, dec_lt, u64, List,
}
use intro2os_project.Kalloc.{pgsize}
use intro2os_project.Vm.{Ram, pte_v, pa2pte, with_v, maxva, map_page, map_from, mappages}
use intro2os_project.Vm.Tree.{Own, entry}
use intro2os_project.Vm.Pool.{IsSpace}
use intro2os_project.Vm.Mapping.{IsMapped, map_page-IsMapped}

-- No address of a range is mapped.
abbrev pub IsUnmapped : ℕ → (ℕ → ℕ) → ℕ → ℕ → Type 0
IsUnmapped root pte va n =
    (vb : ℕ) → vb < maxva → va ≤ vb → vb < va + n * 4096 → pte_v (entry pte root vb) ≡ false

round_stop :
    (fuel root a last pa perm : ℕ) (m m' : Ram)
    → map_page root a pa perm m ≡ some (false, m')
    → map_from (suc fuel) root a last pa perm m ≡ some (false, m')
unfolding map_from
round_stop fuel root a last pa perm m m' e = rw (e, map_from) refl

round_last :
    (fuel root a pa perm : ℕ) (m m' : Ram)
    → map_page root a pa perm m ≡ some (true, m')
    → map_from (suc fuel) root a a pa perm m ≡ some (true, m')
unfolding map_from
round_last fuel root a pa perm m m' e = rw (e, map_from) (ground arith)

round_next :
    (fuel root a last pa perm : ℕ) (m m' : Ram)
    → map_page root a pa perm m ≡ some (true, m')
    → a < last
    → last < maxva
    → pa + 4096 < 2 ^ 64
    → map_from (suc fuel) root a last pa perm m
      ≡ map_from fuel root (a + 4096) last (pa + 4096) perm m'
unfolding map_from
round_next fuel root a last pa perm m m' e lt high small =
    let more : (a == last) ≡ false = ground arith in
    let here : u64 (a + pgsize) ≡ a + 4096 = omega arith in
    let there : u64 (pa + pgsize) ≡ pa + 4096 = omega arith in
    rw (e, map_from, more, here, there) refl

-- One page and then the rest.
more-IsMapped :
    (root a k pa perm : ℕ) (m m1 m2 : Ram) (ok : Bool)
    → a % 4096 ≡ 0
    → IsMapped root a 1 pa perm m true m1
    → IsMapped root (a + 4096) k (pa + 4096) perm m1 ok m2
    → IsMapped root a (suc k) pa perm m ok m2
more-IsMapped root a k pa perm m m1 m2 ok al f g = record {
  own' = g.own';
  pages' = g.pages';
  space = g.space;
  bytes = g.bytes ∙ f.bytes;
  full = g.full;
  inside = λ vb lb ge le yes'. elim (dec_lt vb (a + 4096)) [
    | yes h ↦ g.outside vb lb (inl h) ∙ f.inside vb lb ge (omega arith) refl
    | no h ↦
        let shift : pa + 4096 + (vb / 4096 * 4096 - (a + 4096)) ≡ pa + (vb / 4096 * 4096 - a) =
          omega arith in
        g.inside vb lb (omega arith) (omega arith) yes' ∙ ap (λ z. pa2pte z + with_v perm) shift
  ];
  outside = λ vb lb out. g.outside vb lb (outer vb out) ∙ f.outside vb lb (first vb out);
}
  where
    outer :
        (vb : ℕ) → (vb < a) ⊎ (a + suc k * 4096 ≤ vb) → (vb < a + 4096) ⊎ (a + 4096 + k * 4096 ≤ vb)
    outer vb (inl h) = inl (omega arith)
    outer vb (inr h) = inr (omega arith)

    first : (vb : ℕ) → (vb < a) ⊎ (a + suc k * 4096 ≤ vb) → (vb < a) ⊎ (a + 1 * 4096 ≤ vb)
    first vb (inl h) = inl h
    first vb (inr h) = inr (omega arith)

-- A first page that found no table leaves the others.
short-IsMapped :
    (root a k pa perm : ℕ) (m m1 : Ram)
    → IsMapped root a 1 pa perm m false m1
    → IsMapped root a (suc k) pa perm m false m1
short-IsMapped root a k pa perm m m1 f = record {
  own' = f.own';
  pages' = f.pages';
  space = f.space;
  bytes = f.bytes;
  full = f.full;
  inside = λ vb lb ge le no'. ground arith;
  outside = λ vb lb out. f.outside vb lb (first vb out);
}
  where
    first : (vb : ℕ) → (vb < a) ⊎ (a + suc k * 4096 ≤ vb) → (vb < a) ⊎ (a + 1 * 4096 ≤ vb)
    first vb (inl h) = inl h
    first vb (inr h) = inr (omega arith)

-- The result of the loop over `k + 1` pages.
abbrev pub Mapped : ℕ → ℕ → ℕ → ℕ → ℕ → Ram → Type 0
Mapped root a k pa perm m =
    (ok : Bool) × (m' : Ram) × (map_from (suc k) root a (a + k * 4096) pa perm m ≡ some (ok, m'))
    × IsMapped root a (suc k) pa perm m ok m'

one_page :
    (root a pa perm : ℕ) (m : Ram) (ok : Bool) (m1 : Ram)
    → map_page root a pa perm m ≡ some (ok, m1)
    → IsMapped root a 1 pa perm m ok m1
    → Mapped root a 0 pa perm m
one_page root a pa perm m false m1 e f =
    (false, m1, round_stop 0 root a (a + 0 * 4096) pa perm m m1 e, f)
one_page root a pa perm m true m1 e f =
    let last : a ≡ a + 0 * 4096 = omega arith in
    (
      true,
      m1,
      subst (λ z. map_from 1 root a z pa perm m ≡ some (true, m1)) last
          (round_last 0 root a pa perm m m1 e),
      f,
    )

more_pages :
    (root a k pa perm : ℕ) (m : Ram) (ok : Bool) (m1 : Ram)
    → a % 4096 ≡ 0
    → a + suc (suc k) * 4096 ≤ maxva
    → pa + suc (suc k) * 4096 < 2 ^ 64
    → map_page root a pa perm m ≡ some (ok, m1)
    → IsMapped root a 1 pa perm m ok m1
    → (ok ≡ true → Mapped root (a + 4096) k (pa + 4096) perm m1)
    → Mapped root a (suc k) pa perm m
more_pages root a k pa perm m false m1 al high small e f rest = (
  false,
  m1,
  round_stop (suc k) root a (a + suc k * 4096) pa perm m m1 e,
  short-IsMapped root a (suc k) pa perm m m1 f,
)
more_pages root a k pa perm m true m1 al high small e f rest =
    let (ok, m2, e2, g) = rest refl in
    let last : a + 4096 + k * 4096 ≡ a + suc k * 4096 = omega arith in
    let step =
      round_next (suc k) root a (a + suc k * 4096) pa perm m m1 e (omega arith) (omega arith)
        (omega arith) in
    (
      ok,
      m2,
      step
          ∙ subst (λ z. map_from (suc k) root (a + 4096) z (pa + 4096) perm m1 ≡ some (ok, m2)) last
              e2,
      more-IsMapped root a (suc k) pa perm m m1 m2 ok al f g,
    )

map_from-Mapped :
    (k root a pa perm : ℕ) (own : Own) (pages : List ℕ) (m : Ram)
    → IsSpace root own pages m
    → a % 4096 ≡ 0
    → a + suc k * 4096 ≤ maxva
    → pa + suc k * 4096 < 2 ^ 64
    → IsUnmapped root m.pte a (suc k)
    → Mapped root a k pa perm m
map_from-Mapped zero root a pa perm own pages m s al high small un =
    let (ok, m1, e, f) =
      map_page-IsMapped root a pa perm own pages m s al (omega arith)
        (un a (omega arith) (omega arith) (omega arith)) in
    one_page root a pa perm m ok m1 e f
map_from-Mapped (suc k) root a pa perm own pages m s al high small un =
    let (ok, m1, e, f) =
      map_page-IsMapped root a pa perm own pages m s al (omega arith)
        (un a (omega arith) (omega arith) (omega arith)) in
    more_pages root a k pa perm m ok m1 al high small e f (λ yes'.
      map_from-Mapped k root (a + 4096) (pa + 4096) perm f.own' f.pages' m1 f.space (omega arith)
        (omega arith) (omega arith)
        (λ vb lb ge le.
          ap pte_v (f.outside vb lb (inr (omega arith))) ∙ un vb lb (omega arith) (omega arith)))

mappages_loop :
    (root va k pa perm : ℕ) (m : Ram)
    → va % 4096 ≡ 0
    → va + suc k * 4096 ≤ maxva
    → mappages root va (suc k * 4096) pa perm m ≡ map_from (suc k) root va (va + k * 4096) pa perm m
unfolding mappages
mappages_loop root va k pa perm m al high =
    let size : suc k * 4096 / pgsize ≡ suc k = omega arith in
    let last : u64 (va + suc k * 4096 - pgsize) ≡ va + k * 4096 = omega arith in
    rw (size, last) (ground arith)

-- Under a well-formed page table with its free pages, `mappages` of n > 0 aligned unmapped pages below MAXVA, to
-- frames that end below 2 ^ 64 and with permissions below 2 ^ 10, does not panic; it keeps the table and the
-- free list well formed, moves no byte of user memory and changes no entry outside the range; when it returns 0,
-- every page of the range has the entry of its frame, counted from `pa`, with the permissions and PTE_V, and it
-- returns -1 only when no free page is left.
pub mappages_maps :
    (root va n pa perm : ℕ) (own : Own) (pages : List ℕ) (m : Ram)
    → IsSpace root own pages m
    → va % 4096 ≡ 0
    → 0 < n
    → va + n * 4096 ≤ maxva
    → pa + n * 4096 < 2 ^ 64
    → perm < 2 ^ 10
    → IsUnmapped root m.pte va n
    → (ok : Bool) × (m' : Ram) × (mappages root va (n * 4096) pa perm m ≡ some (ok, m'))
      × IsMapped root va n pa perm m ok m'
mappages_maps root va zero pa perm own pages m s al pos high small flags un = absurd (omega arith)
mappages_maps root va (suc k) pa perm own pages m s al pos high small flags un =
    let (ok, m', e, f) = map_from-Mapped k root va pa perm own pages m s al high small un in
    (ok, m', mappages_loop root va k pa perm m al high ∙ e, f)
