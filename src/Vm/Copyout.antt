-- ===== src/Vm/Copyout.antt =====
-- `copyout` of kernel/vm.c against user memory read byte by byte.
use intro2os_project.Prelude.{
  ℕ, zero, suc, ◌+◌, ◌-◌, ◌*◌, ◌/◌, ◌%◌, ◌≤◌, ◌<◌, ◌≡◌, ◌≢◌, ◌⊎◌, inl, inr, refl, sym, ap, ◌∙◌,
  subst, Bool, true, false, ◌&&◌, some, ◌==◌, ltb, leb, arith, Bool-cases, dec_lt, u64,
}
use intro2os_project.Kalloc.{pgsize}
use intro2os_project.Vm.{Ram, pgrounddown, maxva, pte_w}
use intro2os_project.Vm.Tree.{entry}
use intro2os_project.Vm.User.{
  user_page, user_load, user_page_page, user_page_aligned, write_page, write_page_page,
}
use intro2os_project.Vm.Copy.{span, put_bytes, copyout_from, writable_page}

-- Where the byte of a user address lies.
abbrev pub byte_at : ℕ → (ℕ → ℕ) → ℕ → ℕ
byte_at root pte va = user_page root pte va + va % 4096

-- No page of RAM stands at two pages of the range.
abbrev pub IsInjective : ℕ → (ℕ → ℕ) → ℕ → ℕ → Type 0
IsInjective root pte va len =
    (j k : ℕ)
    → j < len
    → k < len
    → 0 < user_page root pte (va + j)
    → user_page root pte (va + j) ≡ user_page root pte (va + k)
    → (va + j) / 4096 ≡ (va + k) / 4096

-- What copying `len` bytes of `src` from `i` on to `va` leaves in the bytes of RAM.
pub record IsWritten (root va i len : ℕ) (m : Ram) (src : ℕ → ℕ) (ok : Bool) (byte' : ℕ → ℕ)
    : Type 0 where
  pub wrote :
      ok ≡ true
      → (j : ℕ) → j < len
      → user_load root (record m { byte = byte' }) (va + j) ≡ some (src (i + j))
  pub writable : ok ≡ true → (j : ℕ) → j < len → 0 < write_page root m.pte (va + j)
  pub fault : ok ≡ false → (j : ℕ) × (j < len) × (write_page root m.pte (va + j) ≡ 0)
  pub same :
      (a : ℕ)
      → ((j : ℕ) → j < len → 0 < user_page root m.pte (va + j) → byte_at root m.pte (va + j) ≢ a)
      → byte' a ≡ m.byte a

pub done :
    (fuel root va : ℕ) (src : ℕ → ℕ) (i : ℕ) (m : Ram)
    → copyout_from fuel root va src i 0 m ≡ some (true, m)
unfolding copyout_from
done zero root va src i m = refl
done (suc fuel) root va src i m = refl

pub fault :
    (fuel root va : ℕ) (src : ℕ → ℕ) (i len : ℕ) (m : Ram)
    → 0 < len
    → writable_page root va m ≡ some (0, m)
    → copyout_from (suc fuel) root va src i len m ≡ some (false, m)
unfolding copyout_from
fault fuel root va src i len m h e =
    let more : ltb 0 len ≡ true = ground arith in rw (copyout_from, more, e) refl

pub round :
    (fuel root va : ℕ) (src : ℕ → ℕ) (i len pa : ℕ) (m : Ram)
    → 0 < len
    → va < maxva
    → writable_page root va m ≡ some (pa, m)
    → 0 < pa
    → copyout_from (suc fuel) root va src i len m
      ≡ copyout_from fuel root
          (va / 4096 * 4096 + 4096)
          src
          (i + span va len)
          (len - span va len)
          (record m { byte = put_bytes (pa + va % 4096) src i (span va len) m.byte })
unfolding copyout_from
round fuel root va src i len pa m h lt e pos =
    let more : ltb 0 len ≡ true = ground arith in
    let there : (pa == 0) ≡ false = ground arith in
    let next : u64 (pgrounddown va + pgsize) ≡ va / 4096 * 4096 + 4096 = omega arith in
    let offset : va - pgrounddown va ≡ va % 4096 = omega arith in
    rw (copyout_from, more, e, there, next, offset) refl

put_here :
    (to i n j : ℕ) (src byte : ℕ → ℕ) → j < n → put_bytes to src i n byte (to + j) ≡ src (i + j)
put_here to i n j src byte h =
    let low : leb to (to + j) ≡ true = ground arith in
    let high : ltb (to + j) (to + n) ≡ true = ground arith in
    let index : i + (to + j - to) ≡ i + j = omega arith in rw (low, high, index) refl

put_outside :
    (to i n a : ℕ) (src byte : ℕ → ℕ)
    → ((j : ℕ) → j < n → to + j ≢ a)
    → put_bytes to src i n byte a ≡ byte a
put_outside to i n a src byte h = elim (Bool-cases (leb to a && ltb a (to + n))) [
  | inl b ↦ absurd (h (a - to) (ground arith) (ground arith))
  | inr b ↦ rw b refl
]

pub write_page_user :
    (root va : ℕ) (pte : ℕ → ℕ)
    → 0 < write_page root pte va
    → write_page root pte va ≡ user_page root pte va
write_page_user root va pte h = elim (Bool-cases (pte_w (entry pte root va))) [
  | inl b ↦ rw b refl
  | inr b ↦ absurd (ground arith)
]

same_frame :
    (p q u v : ℕ) → p % 4096 ≡ 0 → q % 4096 ≡ 0 → u < 4096 → v < 4096 → p + u ≡ q + v → p ≡ q
same_frame p q u v hp hq hu hv e = omega arith

-- The page of the addresses of a round.
module _ (root va pa : ℕ) (m : Ram) (e : user_page root m.pte va ≡ pa) where
  round_at : (j : ℕ) → va % 4096 + j < 4096 → byte_at root m.pte (va + j) ≡ pa + va % 4096 + j
  round_at j h =
      let same = user_page_page root (va + j) va m.pte (omega arith) ∙ e in rw same (omega arith)

  round_load :
      (j : ℕ) (byte : ℕ → ℕ)
      → va % 4096 + j < 4096
      → 0 < pa
      → user_load root (record m { byte = byte }) (va + j) ≡ some (byte (pa + va % 4096 + j))
  round_load j byte h pos =
      let same = user_page_page root (va + j) va m.pte (omega arith) ∙ e in
      let there : (pa == 0) ≡ false = ground arith in
      let offset : pa + (va + j) % 4096 ≡ pa + va % 4096 + j = omega arith in
      rw (same, there, offset) refl

  -- The bytes of a later page of an injective range lie elsewhere.
  later_apart :
      (len j k vb : ℕ)
      → IsInjective root m.pte va len
      → va % 4096 + j < 4096
      → j < len
      → vb ≡ va / 4096 * 4096 + 4096
      → va ≤ vb
      → vb - va + k < len
      → 0 < pa
      → byte_at root m.pte (vb + k) ≢ pa + va % 4096 + j
  later_apart len j k vb inj h lt eb ge lk pos clash =
      let here = user_page_page root (va + j) va m.pte (omega arith) ∙ e in
      let low = user_page_aligned root (va + j) m.pte in
      let low' = user_page_aligned root (vb + k) m.pte in
      let index : va + (vb - va + k) ≡ vb + k = omega arith in
      let shift : pa + (va % 4096 + j) ≡ pa + va % 4096 + j = omega arith in
      let one_page : user_page root m.pte (va + j) ≡ user_page root m.pte (vb + k) =
        same_frame (user_page root m.pte (va + j)) (user_page root m.pte (vb + k)) (va % 4096 + j)
          ((vb + k) % 4096) low low' h (omega arith)
          (ap (λ z. z + (va % 4096 + j)) here ∙ shift ∙ sym clash) in
      let meet =
        inj j (vb - va + k) lt lk (subst (λ z. 0 < z) (sym here) pos)
          (one_page ∙ ap (user_page root m.pte) (sym index)) in
      omega arith

-- One round of `n` bytes and then the rest.
pub more-IsWritten :
    (root va i n len pa vb : ℕ) (m : Ram) (src : ℕ → ℕ) (ok : Bool) (byte' : ℕ → ℕ)
    → write_page root m.pte va ≡ pa
    → user_page root m.pte va ≡ pa
    → 0 < pa
    → va % 4096 + n ≤ 4096
    → n ≤ len
    → (n ≡ len) ⊎ (va + n ≡ vb)
    → vb ≡ va / 4096 * 4096 + 4096
    → IsInjective root m.pte va len
    → IsWritten root vb
        (i + n)
        (len - n)
        (record m { byte = put_bytes (pa + va % 4096) src i n m.byte })
        src
        ok
        byte'
    → IsWritten root va i len m src ok byte'
more-IsWritten root va i n len pa vb m src ok byte' w e pos fit le meet eb inj c = record {
  wrote = λ yes' j lt. elim (dec_lt j n) [
    | yes h ↦
        round_load root va pa m e j byte' (omega arith) pos
        ∙ ap some (kept j h meet ∙ put_here (pa + va % 4096) i n j src m.byte h)
    | no h ↦
        subst (λ z. user_load root (record m { byte = byte' }) z ≡ some (src (i + j)))
          (shift j h lt meet)
          (c.wrote yes' (j - n) (omega arith) ∙ ap (λ z. some (src z)) (index j h))
  ];
  writable = λ yes' j lt. elim (dec_lt j n) [
    | yes h ↦
        subst (λ z. 0 < z) (sym (write_page_page root (va + j) va m.pte (omega arith) ∙ w)) pos
    | no h ↦
        subst (λ z. 0 < write_page root m.pte z) (shift j h lt meet)
          (c.writable yes' (j - n) (omega arith))
  ];
  fault = λ no'. faulted (c.fault no') meet;
  same = λ a apart.
      c.same a (λ k lt posk.
        subst (λ z. byte_at root m.pte z ≢ a) (there k lt meet)
          (apart (n + k) (omega arith)
            (subst (λ z. 0 < user_page root m.pte z) (sym (there k lt meet)) posk)))
      ∙ put_outside (pa + va % 4096) i n a src m.byte (λ j h clash.
        apart j (omega arith)
          (subst (λ z. 0 < z) (sym (user_page_page root (va + j) va m.pte (omega arith) ∙ e)) pos)
          (round_at root va pa m e j (omega arith) ∙ clash));
}
  where
    there : (k : ℕ) → k < len - n → (n ≡ len) ⊎ (va + n ≡ vb) → va + (n + k) ≡ vb + k
    there k lt (inl all) = absurd (omega arith)
    there k lt (inr next) = omega arith

    shift : (j : ℕ) → ¬ (j < n) → j < len → (n ≡ len) ⊎ (va + n ≡ vb) → vb + (j - n) ≡ va + j
    shift j h lt (inl all) = absurd (omega arith)
    shift j h lt (inr next) = omega arith

    index : (j : ℕ) → ¬ (j < n) → i + n + (j - n) ≡ i + j
    index j h = omega arith

    kept :
        (j : ℕ)
        → j < n
        → (n ≡ len) ⊎ (va + n ≡ vb)
        → byte' (pa + va % 4096 + j)
          ≡ put_bytes (pa + va % 4096) src i n m.byte (pa + va % 4096 + j)
    kept j h (inl all) = c.same (pa + va % 4096 + j) (λ k lt posk. absurd (omega arith))
    kept j h (inr next) = c.same (pa + va % 4096 + j) (λ k lt posk.
        later_apart root va pa m e len j k vb inj (omega arith) (omega arith) eb (omega arith)
          (omega arith) pos)

    faulted :
        ((j : ℕ) × (j < len - n) × (write_page root m.pte (vb + j) ≡ 0))
        → (n ≡ len) ⊎ (va + n ≡ vb)
        → (j : ℕ) × (j < len) × (write_page root m.pte (va + j) ≡ 0)
    faulted (j, lt, f) meet' =
        (n + j, omega arith, subst (λ z. write_page root m.pte z ≡ 0) (sym (there j lt meet')) f)
