-- ===== src/Vm/Copyin.antt =====
-- `copyin` of kernel/vm.c against user memory read byte by byte.
use intro2os_project.Prelude.{
  ℕ, zero, suc, ◌+◌, ◌-◌, ◌*◌, ◌/◌, ◌%◌, ◌≤◌, ◌<◌, ◌≡◌, ◌⊎◌, inl, inr, refl, sym, ap, ◌∙◌, subst,
  Bool, true, false, ◌&&◌, none, some, ◌==◌, ltb, leb, if◌then◌else◌, arith, ℕ_discrete, dec_lt,
  u64,
}
use intro2os_project.Kalloc.{pgsize}
use intro2os_project.Vm.{Ram, pgrounddown, maxva, walkaddr}
use intro2os_project.Vm.Tree.{Own, IsTree}
use intro2os_project.Vm.User.{user_page, user_load, user_page_page, user_page_low, walkaddr_page}
use intro2os_project.Vm.Copy.{span, copyin, copyin_from}

-- The buffer after one round.
abbrev pub filled : (ℕ → ℕ) → ℕ → ℕ → (ℕ → ℕ) → ℕ → ℕ → ℕ
filled dst i n byte from j = if leb i j && ltb j (i + n) then byte (from + (j - i)) else dst j

-- What copying `len` bytes at `va` into the buffer from `i` on leaves.
pub record IsCopied (root va i len : ℕ) (m : Ram) (dst : ℕ → ℕ) (ok : Bool) (dst' : ℕ → ℕ)
    : Type 0 where
  pub read : ok ≡ true → (j : ℕ) → j < len → user_load root m (va + j) ≡ some (dst' (i + j))
  pub fault : ok ≡ false → (j : ℕ) × (j < len) × (user_load root m (va + j) ≡ none)
  pub before : (j : ℕ) → j < i → dst' j ≡ dst j
  pub after : (j : ℕ) → i + len ≤ j → dst' j ≡ dst j

done :
    (fuel root : ℕ) (dst : ℕ → ℕ) (i va : ℕ) (m : Ram)
    → copyin_from fuel root dst i va 0 m ≡ some ((true, dst), m)
unfolding copyin_from
done zero root dst i va m = refl
done (suc fuel) root dst i va m = refl

fault :
    (fuel root : ℕ) (dst : ℕ → ℕ) (i va len : ℕ) (m : Ram)
    → 0 < len
    → walkaddr root (pgrounddown va) m ≡ some (0, m)
    → copyin_from (suc fuel) root dst i va len m ≡ some ((false, dst), m)
unfolding copyin_from
fault fuel root dst i va len m h e =
    let more : ltb 0 len ≡ true = ground arith in rw (copyin_from, more, e) refl

round :
    (fuel root : ℕ) (dst : ℕ → ℕ) (i va len pa : ℕ) (m : Ram)
    → 0 < len
    → va < maxva
    → walkaddr root (pgrounddown va) m ≡ some (pa, m)
    → 0 < pa
    → copyin_from (suc fuel) root dst i va len m
      ≡ copyin_from fuel root
          (filled dst i (span va len) m.byte (pa + va % 4096))
          (i + span va len)
          (va / 4096 * 4096 + 4096)
          (len - span va len)
          m
unfolding copyin_from
round fuel root dst i va len pa m h lt e pos =
    let more : ltb 0 len ≡ true = ground arith in
    let there : (pa == 0) ≡ false = ground arith in
    let next : u64 (pgrounddown va + pgsize) ≡ va / 4096 * 4096 + 4096 = omega arith in
    let offset : va - pgrounddown va ≡ va % 4096 = omega arith in
    rw (copyin_from, more, e, there, next, offset) refl

-- The bytes of a round are those of the user.
user_bytes :
    (root va j pa : ℕ) (m : Ram)
    → va % 4096 + j < 4096
    → user_page root m.pte va ≡ pa
    → 0 < pa
    → user_load root m (va + j) ≡ some (m.byte (pa + va % 4096 + j))
user_bytes root va j pa m h e pos =
    let same = user_page_page root (va + j) va m.pte (omega arith) ∙ e in
    let there : (pa == 0) ≡ false = ground arith in
    let offset : pa + (va + j) % 4096 ≡ pa + va % 4096 + j = omega arith in
    rw (same, there, offset) refl

filled_here :
    (dst : ℕ → ℕ) (i n j from : ℕ) (byte : ℕ → ℕ)
    → j < n
    → filled dst i n byte from (i + j) ≡ byte (from + j)
filled_here dst i n j from byte h =
    let low : leb i (i + j) ≡ true = ground arith in
    let high : ltb (i + j) (i + n) ≡ true = ground arith in
    let index : from + (i + j - i) ≡ from + j = omega arith in rw (low, high, index) refl

filled_before :
    (dst : ℕ → ℕ) (i n j from : ℕ) (byte : ℕ → ℕ) → j < i → filled dst i n byte from j ≡ dst j
filled_before dst i n j from byte h = let low : leb i j ≡ false = ground arith in rw low refl

filled_after :
    (dst : ℕ → ℕ) (i n j from : ℕ) (byte : ℕ → ℕ) → i + n ≤ j → filled dst i n byte from j ≡ dst j
filled_after dst i n j from byte h =
    let high : ltb j (i + n) ≡ false = ground arith in rw high (ground arith)

-- One round of `n` bytes and then the rest.
more-IsCopied :
    (root va i n len pa vb : ℕ) (m : Ram) (dst : ℕ → ℕ) (ok : Bool) (dst' : ℕ → ℕ)
    → user_page root m.pte va ≡ pa
    → 0 < pa
    → va % 4096 + n ≤ 4096
    → n ≤ len
    → (n ≡ len) ⊎ (va + n ≡ vb)
    → IsCopied root vb (i + n) (len - n) m (filled dst i n m.byte (pa + va % 4096)) ok dst'
    → IsCopied root va i len m dst ok dst'
more-IsCopied root va i n len pa vb m dst ok dst' e pos fit le meet c = record {
  read = λ yes' j lt. elim (dec_lt j n) [
    | yes h ↦
        user_bytes root va j pa m (omega arith) e pos
        ∙ ap some
            (sym (c.before (i + j) (omega arith) ∙ filled_here dst i n j (pa + va % 4096) m.byte h))
    | no h ↦ later yes' j h lt meet
  ];
  fault = λ no'. faulted (c.fault no') meet;
  before = λ j h. c.before j (omega arith) ∙ filled_before dst i n j (pa + va % 4096) m.byte h;
  after =
      λ j h. c.after j (omega arith) ∙ filled_after dst i n j (pa + va % 4096) m.byte (omega arith);
}
  where
    later :
        ok ≡ true
        → (j : ℕ) → ¬ (j < n)
        → j < len
        → (n ≡ len) ⊎ (va + n ≡ vb)
        → user_load root m (va + j) ≡ some (dst' (i + j))
    later yes' j h lt (inl all) = absurd (omega arith)
    later yes' j h lt (inr next) =
        let there : vb + (j - n) ≡ va + j = omega arith in
        let index : i + n + (j - n) ≡ i + j = omega arith in
        subst (λ z. user_load root m z ≡ some (dst' (i + j))) there
          (c.read yes' (j - n) (omega arith) ∙ ap (λ z. some (dst' z)) index)

    faulted :
        ((j : ℕ) × (j < len - n) × (user_load root m (vb + j) ≡ none))
        → (n ≡ len) ⊎ (va + n ≡ vb)
        → (j : ℕ) × (j < len) × (user_load root m (va + j) ≡ none)
    faulted (j, lt, f) (inl all) = absurd (omega arith)
    faulted (j, lt, f) (inr next) =
        let there : vb + j ≡ va + (n + j) = omega arith in
        (n + j, omega arith, subst (λ z. user_load root m z ≡ none) there f)

-- The bytes of a round.
pub span_fit :
    (va len : ℕ)
    → 0 < len
    → (va % 4096 + span va len ≤ 4096)
      × (span va len ≤ len)
      × (0 < span va len)
      × ((span va len ≡ len) ⊎ (va + span va len ≡ va / 4096 * 4096 + 4096))
span_fit va len h = elim (dec_lt len (pgsize - (va - pgrounddown va))) [
  | yes lt ↦
      let e : span va len ≡ len = ground arith in (omega arith, omega arith, omega arith, inl e)
  | no ge ↦
      let e : span va len ≡ pgsize - (va - pgrounddown va) = ground arith in
      (omega arith, omega arith, omega arith, inr (omega arith))
]

abbrev pub Copied : ℕ → ℕ → (ℕ → ℕ) → ℕ → ℕ → ℕ → Ram → Type 0
Copied fuel root dst i va len m =
    (ok : Bool) × (dst' : ℕ → ℕ) × (copyin_from fuel root dst i va len m ≡ some ((ok, dst'), m))
    × IsCopied root va i len m dst ok dst'

copyin_from-Copied :
    (fuel root : ℕ) (dst : ℕ → ℕ) (i va len : ℕ) (own : Own) (m : Ram)
    → IsTree root own m.pte
    → len ≤ fuel
    → Copied fuel root dst i va len m
copyin_from-Copied fuel root dst i va zero own m t h = (
  true,
  dst,
  done fuel root dst i va m,
  record {
    read = λ yes' j lt. absurd (omega arith);
    fault = λ no'. ground arith;
    before = λ j lt. refl;
    after = λ j lt. refl;
  },
)
copyin_from-Copied zero root dst i va (suc len) own m t h = absurd (omega arith)
copyin_from-Copied (suc fuel) root dst i va (suc len) own m t h =
    let page = walkaddr_page root (pgrounddown va) own m t in
    let same = user_page_page root (pgrounddown va) va m.pte (omega arith) in
    let found = page ∙ ap (λ z. some (z, m)) same in
    elim (ℕ_discrete (user_page root m.pte va) 0) [
      | yes e ↦
          let here : user_page root m.pte (va + 0) ≡ 0 =
            user_page_page root (va + 0) va m.pte (omega arith) ∙ e in
          (
            false,
            dst,
            fault fuel root dst i va (suc len) m (omega arith) (found ∙ ap (λ z. some (z, m)) e),
            record {
              read = λ yes'. ground arith;
              fault = λ no'. (0, omega arith, rw here refl);
              before = λ j lt. refl;
              after = λ j lt. refl;
            },
          )
      | no ne ↦
          let pos : 0 < user_page root m.pte va = omega arith in
          let (fit, le, some', meet) = span_fit va (suc len) (omega arith) in
          let n = span va (suc len) in
          let pa = user_page root m.pte va in
          let (ok, dst', e, c) =
            copyin_from-Copied fuel root (filled dst i n m.byte (pa + va % 4096)) (i + n)
              (va / 4096 * 4096 + 4096) (suc len - n) own m t (omega arith) in
          (
            ok,
            dst',
            round fuel root dst i va (suc len) pa m (omega arith) (user_page_low root va m.pte pos)
                  found pos
                ∙ e,
            more-IsCopied root va i n (suc len) pa (va / 4096 * 4096 + 4096) m dst ok dst' refl pos
                fit le meet c,
          )
    ]

-- `copyin` with a well-formed page table never panics and changes no memory. It returns 0 exactly with the
-- bytes that the user reads at the `len` addresses from `srcva` on in the buffer, whatever pages they lie in,
-- and -1 only when the user can not read one of them; it writes no index of the buffer from `len` on.
pub copyin_reads :
    (root : ℕ) (dst : ℕ → ℕ) (srcva len : ℕ) (own : Own) (m : Ram)
    → IsTree root own m.pte
    → (ok : Bool) × (dst' : ℕ → ℕ) × (copyin root dst srcva len m ≡ some ((ok, dst'), m))
      × IsCopied root srcva 0 len m dst ok dst'
unfolding copyin
copyin_reads root dst srcva len own m t =
    copyin_from-Copied len root dst 0 srcva len own m t (omega arith)
