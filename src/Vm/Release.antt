-- ===== src/Vm/Release.antt =====
-- The loop of `uvmunmap` of kernel/vm.c over the pages of a range.
use intro2os_project.Prelude.{
  ℕ, zero, suc, ◌+◌, ◌*◌, ◌/◌, ◌%◌, ◌≤◌, ◌<◌, ◌≡◌, ◌⊎◌, inl, inr, refl, sym, ap, ◌∙◌, subst, Bool,
  true, false, none, some, ◌==◌, ltb, if◌then◌else◌, arith, dec_lt, u64, List, NotIn, length,
}
use intro2os_project.Kalloc.{bad_page, pgsize}
use intro2os_project.Vm.{Ram, pte_v, pte2pa, pte_flags, maxva, unmap_page, unmap_from, uvmunmap}
use intro2os_project.Vm.Tree.{Own, entry}
use intro2os_project.Vm.Pool.{IsSpace}
use intro2os_project.Vm.Unmap.{
  frame, IsLeafRange, IsReleased, pages_after, pages_more, NotIn-after, unmap_page_released,
}

module _ (end : ℕ) where
  unmap_from_done :
      (fuel root a : ℕ) (do_free : Bool) (m : Ram)
      → unmap_from end fuel root a a do_free m ≡ some (tt, m)
  unfolding unmap_from
  unmap_from_done zero root a do_free m = refl
  unmap_from_done (suc fuel) root a do_free m =
      let stop : ltb a a ≡ false = ground arith in rw (unmap_from, stop) refl

  unmap_from_next :
      (fuel root a stop : ℕ) (do_free : Bool) (m m1 : Ram)
      → a < stop
      → stop ≤ maxva
      → unmap_page end root a do_free m ≡ some (tt, m1)
      → unmap_from end (suc fuel) root a stop do_free m
        ≡ unmap_from end fuel root (a + 4096) stop do_free m1
  unfolding unmap_from
  unmap_from_next fuel root a stop do_free m m1 lt high e =
      let more : ltb a stop ≡ true = ground arith in
      let here : u64 (a + pgsize) ≡ a + 4096 = omega arith in rw (unmap_from, more, e, here) refl

  -- The entries that a page's round leaves.
  abbrev IsCleared : ℕ → ℕ → Ram → Ram → Type 0
  IsCleared root a m m1 =
      (vb : ℕ)
      → vb < maxva
      → entry m1.pte root vb ≡ (if vb / 4096 == a / 4096 then 0 else entry m.pte root vb)

  cleared_later :
      (root a vb : ℕ) (m m1 : Ram)
      → IsCleared root a m m1
      → vb < maxva
      → a % 4096 ≡ 0
      → (vb < a) ⊎ (a + 4096 ≤ vb)
      → entry m1.pte root vb ≡ entry m.pte root vb
  cleared_later root a vb m m1 c lb al (inl h) = c vb lb ∙ ground arith
  cleared_later root a vb m m1 c lb al (inr h) = c vb lb ∙ ground arith

  cleared_here :
      (root a vb : ℕ) (m m1 : Ram)
      → IsCleared root a m m1
      → vb < maxva
      → a % 4096 ≡ 0
      → a ≤ vb
      → vb < a + 4096
      → entry m1.pte root vb ≡ 0
  cleared_here root a vb m m1 c lb al ge lt = c vb lb ∙ ground arith

  -- The rest of the range is as it was, and its pages are not the one that went back.
  rest-IsLeafRange :
      (root a n : ℕ) (own : Own) (pages : List ℕ) (do_free : Bool) (m m1 : Ram)
      → a % 4096 ≡ 0
      → a < maxva
      → IsLeafRange end root own pages a (suc n) do_free m
      → IsCleared root a m m1
      → IsLeafRange end root own
          (pages_after end (frame end root m a) pages do_free)
          (a + 4096)
          n
          do_free
          m1
  rest-IsLeafRange root a n own pages do_free m m1 al la r c = record {
    valid = λ vb lb ge lt. ap pte_v (same vb lb ge) ∙ r.valid vb lb (omega arith) (omega arith);
    leaf = λ vb lb ge lt e.
        r.leaf vb lb (omega arith) (omega arith) (sym (ap pte_flags (same vb lb ge)) ∙ e);
    good = λ vb lb ge lt f.
        let (fit, free, new) = r.good vb lb (omega arith) (omega arith) f in
        let ne =
          r.apart vb a lb (omega arith) (omega arith) la (omega arith) (omega arith) f
            (omega arith) in
        subst
          (λ z.
            (bad_page end z ≡ false)
            × (own z ≡ none)
            × NotIn z (pages_after end (frame end root m a) pages do_free))
          (sym (ap pte2pa (same vb lb ge)))
          (
            fit,
            free,
            NotIn-after end (frame end root m vb) (frame end root m a) pages do_free ne new,
          );
    apart = λ vb vc lb ge lt lc gc ltc f ne e.
        r.apart vb vc lb (omega arith) (omega arith) lc (omega arith) (omega arith) f ne
          (sym (ap pte2pa (same vb lb ge)) ∙ e ∙ ap pte2pa (same vc lc gc));
  }
    where
      same : (vb : ℕ) → vb < maxva → a + 4096 ≤ vb → entry m1.pte root vb ≡ entry m.pte root vb
      same vb lb ge = cleared_later root a vb m m1 c lb al (inr ge)

  one_more :
      (root a n : ℕ) (own : Own) (pages : List ℕ) (do_free : Bool) (m m1 m2 : Ram)
      → a % 4096 ≡ 0
      → m1.byte ≡ m.byte
      → IsCleared root a m m1
      → IsReleased end root own
          (pages_after end (frame end root m a) pages do_free)
          (a + 4096)
          n
          do_free
          m1
          m2
      → IsReleased end root own pages a (suc n) do_free m m2
  one_more root a n own pages do_free m m1 m2 al b c r = record {
    pages' = r.pages';
    space = r.space;
    bytes = r.bytes ∙ b;
    count = pages_more end (frame end root m a) n (length r.pages') pages do_free r.count;
    inside = λ vb lb ge lt. elim (dec_lt vb (a + 4096)) [
      | yes h ↦ r.outside vb lb (inl h) ∙ cleared_here root a vb m m1 c lb al ge h
      | no h ↦ r.inside vb lb (omega arith) (omega arith)
    ];
    outside = λ vb lb out.
        r.outside vb lb (outer vb out) ∙ cleared_later root a vb m m1 c lb al (first vb out);
  }
    where
      outer :
          (vb : ℕ)
          → (vb < a) ⊎ (a + suc n * 4096 ≤ vb)
          → (vb < a + 4096) ⊎ (a + 4096 + n * 4096 ≤ vb)
      outer vb (inl h) = inl (omega arith)
      outer vb (inr h) = inr (omega arith)

      first : (vb : ℕ) → (vb < a) ⊎ (a + suc n * 4096 ≤ vb) → (vb < a) ⊎ (a + 4096 ≤ vb)
      first vb (inl h) = inl h
      first vb (inr h) = inr (omega arith)

  unmap_from-IsReleased :
      (n root a : ℕ) (own : Own) (pages : List ℕ) (do_free : Bool) (m : Ram)
      → 0 < end
      → IsSpace root own pages m
      → a % 4096 ≡ 0
      → a + n * 4096 ≤ maxva
      → IsLeafRange end root own pages a n do_free m
      → (m' : Ram) × (unmap_from end n root a (a + n * 4096) do_free m ≡ some (tt, m'))
        × IsReleased end root own pages a n do_free m m'
  unmap_from-IsReleased zero root a own pages do_free m pos s al high r =
      let stop : a ≡ a + 0 * 4096 = omega arith in
      (
        m,
        subst (λ z. unmap_from end 0 root a z do_free m ≡ some (tt, m)) stop
            (unmap_from_done 0 root a do_free m),
        record {
          pages' = pages;
          space = s;
          bytes = refl;
          count = ground arith;
          inside = λ vb lb ge lt. absurd (omega arith);
          outside = λ vb lb out. refl;
        },
      )
  unmap_from-IsReleased (suc n) root a own pages do_free m pos s al high r =
      let (m1, e, space, b, c) =
        unmap_page_released end root a n own pages do_free m pos s al (omega arith) r in
      let rest = rest-IsLeafRange root a n own pages do_free m m1 al (omega arith) r c in
      let (m2, e2, f) =
        unmap_from-IsReleased n root (a + 4096) own
          (pages_after end (frame end root m a) pages do_free) do_free m1 pos space (omega arith)
          (omega arith) rest in
      let stop : a + 4096 + n * 4096 ≡ a + suc n * 4096 = omega arith in
      (
        m2,
        unmap_from_next n root a (a + suc n * 4096) do_free m m1 (omega arith) high e
            ∙ subst (λ z. unmap_from end n root (a + 4096) z do_free m1 ≡ some (tt, m2)) stop e2,
        one_more root a n own pages do_free m m1 m2 al b c f,
      )

  uvmunmap_loop :
      (root va n : ℕ) (do_free : Bool) (m : Ram)
      → va % 4096 ≡ 0
      → va + n * 4096 ≤ maxva
      → uvmunmap end root va n do_free m ≡ unmap_from end n root va (va + n * 4096) do_free m
  unfolding uvmunmap
  uvmunmap_loop root va n do_free m al high =
      let last : u64 (va + n * pgsize) ≡ va + n * 4096 = omega arith in rw (last) (ground arith)

  -- Under a well-formed page table with its free pages, `uvmunmap` of n aligned pages below MAXVA that are all
  -- mapped as leaves does not panic. It moves no byte, clears the entries of the range and keeps every other
  -- one, and keeps the table and the free list well formed. With `do_free`, where the frames are pages that
  -- `kfree` takes, distinct, no tables and not free yet, the free list grows by exactly n pages, and without it
  -- by none.
  pub uvmunmap_releases :
      (root va n : ℕ) (own : Own) (pages : List ℕ) (do_free : Bool) (m : Ram)
      → 0 < end
      → IsSpace root own pages m
      → va % 4096 ≡ 0
      → va + n * 4096 ≤ maxva
      → IsLeafRange end root own pages va n do_free m
      → (m' : Ram) × (uvmunmap end root va n do_free m ≡ some (tt, m'))
        × IsReleased end root own pages va n do_free m m'
  uvmunmap_releases root va n own pages do_free m pos s al high r =
      let (m', e, f) = unmap_from-IsReleased n root va own pages do_free m pos s al high r in
      (m', uvmunmap_loop root va n do_free m al high ∙ e, f)
