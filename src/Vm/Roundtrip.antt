-- ===== src/Vm/Roundtrip.antt =====
-- The loop of `copyout` of kernel/vm.c, and `copyin` of what it wrote.
use intro2os_project.Prelude.{
  ℕ, zero, suc, ◌+◌, ◌-◌, ◌*◌, ◌/◌, ◌%◌, ◌≤◌, ◌<◌, ◌≡◌, ◌⊎◌, inl, inr, refl, sym, ap, ◌∙◌, subst,
  Bool, true, false, Option, some, arith, Bool-cases, ℕ_discrete,
}
use intro2os_project.Vm.{Ram}
use intro2os_project.Vm.Tree.{Own, IsTree}
use intro2os_project.Vm.User.{
  user_page, user_page_low, write_page, write_page_page, writable_page-page,
}
use intro2os_project.Vm.Copy.{span, put_bytes, copyin, copyout, copyout_from}
use intro2os_project.Vm.Copyin.{span_fit, copyin_reads}
use intro2os_project.Vm.Copyout.{
  IsInjective, IsWritten, done, fault, round, write_page_user, more-IsWritten,
}

rest-IsInjective :
    (root va n len vb : ℕ) (pte : ℕ → ℕ)
    → (n ≡ len) ⊎ (va + n ≡ vb)
    → IsInjective root pte va len
    → IsInjective root pte vb (len - n)
rest-IsInjective root va n len vb pte (inl all) inj j k hj hk pos e = absurd (omega arith)
rest-IsInjective root va n len vb pte (inr next) inj j k hj hk pos e =
    let at : va + (n + j) ≡ vb + j = omega arith in
    let to : va + (n + k) ≡ vb + k = omega arith in
    let up = ap (user_page root pte) at in
    let uq = ap (user_page root pte) to in
    let meet =
      inj (n + j) (n + k) (omega arith) (omega arith) (subst (λ z. 0 < z) (sym up) pos)
        (up ∙ e ∙ sym uq) in
    sym (ap (λ z. z / 4096) at) ∙ meet ∙ ap (λ z. z / 4096) to

abbrev pub Written : ℕ → ℕ → ℕ → (ℕ → ℕ) → ℕ → ℕ → Ram → Type 0
Written fuel root va src i len m =
    (ok : Bool) × (byte' : ℕ → ℕ) × (copyout_from fuel root va src i len m
      ≡ some (ok, record m { byte = byte' }))
    × IsWritten root va i len m src ok byte'

copyout_from-Written :
    (fuel root va : ℕ) (src : ℕ → ℕ) (i len : ℕ) (own : Own) (m : Ram)
    → IsTree root own m.pte
    → IsInjective root m.pte va len
    → len ≤ fuel
    → Written fuel root va src i len m
copyout_from-Written fuel root va src i zero own m t inj h = (
  true,
  m.byte,
  done fuel root va src i m,
  record {
    wrote = λ yes' j lt. absurd (omega arith);
    writable = λ yes' j lt. absurd (omega arith);
    fault = λ no'. ground arith;
    same = λ a apart. refl;
  },
)
copyout_from-Written zero root va src i (suc len) own m t inj h = absurd (omega arith)
copyout_from-Written (suc fuel) root va src i (suc len) own m t inj h =
    let found = writable_page-page root va own m t in
    elim (ℕ_discrete (write_page root m.pte va) 0) [
      | yes e ↦
          let here : write_page root m.pte (va + 0) ≡ 0 =
            write_page_page root (va + 0) va m.pte (omega arith) ∙ e in
          (
            false,
            m.byte,
            fault fuel root va src i (suc len) m (omega arith) (found ∙ ap (λ z. some (z, m)) e),
            record {
              wrote = λ yes'. ground arith;
              writable = λ yes'. ground arith;
              fault = λ no'. (0, omega arith, here);
              same = λ a apart. refl;
            },
          )
      | no ne ↦
          let pa = write_page root m.pte va in
          let pos : 0 < pa = omega arith in
          let user = write_page_user root va m.pte pos in
          let low = user_page_low root va m.pte (subst (λ z. 0 < z) user pos) in
          let (fit, le, some', meet) = span_fit va (suc len) (omega arith) in
          let n = span va (suc len) in
          let (ok, byte', e, c) =
            copyout_from-Written fuel root (va / 4096 * 4096 + 4096) src (i + n) (suc len - n) own
              (record m { byte = put_bytes (pa + va % 4096) src i n m.byte }) t
              (rest-IsInjective root va n (suc len) (va / 4096 * 4096 + 4096) m.pte meet inj)
              (omega arith) in
          (
            ok,
            byte',
            round fuel root va src i (suc len) pa m (omega arith) low found pos ∙ e,
            more-IsWritten root va i n (suc len) pa (va / 4096 * 4096 + 4096) m src ok byte' refl
                (sym user) pos fit le meet refl inj c,
          )
    ]

-- `copyout` with a well-formed page table that puts no page of RAM at two pages of the range never panics, and
-- changes nothing but bytes. When it returns 0, every one of the `len` addresses from `dstva` on is in a page
-- with PTE_V, PTE_U and PTE_W, and the user reads there the bytes of the buffer; it returns -1 only when one of
-- them is in no such page; and no byte changes that is not the user's at one of these addresses.
pub copyout_writes :
    (root dstva : ℕ) (src : ℕ → ℕ) (len : ℕ) (own : Own) (m : Ram)
    → IsTree root own m.pte
    → IsInjective root m.pte dstva len
    → (ok : Bool) × (byte' : ℕ → ℕ) × (copyout root dstva src len m
        ≡ some (ok, record m { byte = byte' }))
      × IsWritten root dstva 0 len m src ok byte'
unfolding copyout
copyout_writes root dstva src len own m t inj =
    copyout_from-Written len root dstva src 0 len own m t inj (omega arith)

same_byte : {a b : ℕ} → ◌≡◌ {A = Option ℕ} (some a) (some b) → a ≡ b
same_byte e = ground arith

-- What `copyout` wrote `copyin` reads: after a `copyout` of `len` bytes that returned 0, with a well-formed page
-- table that puts no page of RAM at two pages of the range, a `copyin` of the same range returns 0 and fills the
-- first `len` indices of its buffer with the same bytes.
pub copyin-copyout :
    (root va : ℕ) (src dst : ℕ → ℕ) (len : ℕ) (own : Own) (m m' : Ram)
    → IsTree root own m.pte
    → IsInjective root m.pte va len
    → copyout root va src len m ≡ some (true, m')
    → (dst' : ℕ → ℕ) × (copyin root dst va len m' ≡ some ((true, dst'), m'))
      × ((j : ℕ) → j < len → dst' j ≡ src j)
copyin-copyout root va src dst len own m m' t inj e =
    let (ok, byte', e1, c) = copyout_writes root va src len own m t inj in
    let ok_true : ok ≡ true = ground (arith, sym e1 ∙ e) in
    let after : m' ≡ record m { byte = byte' } = ground (arith, sym e1 ∙ e) in
    let (ok2, dst', e2, d) = copyin_reads root dst va len own (record m { byte = byte' }) t in
    elim (Bool-cases ok2) [
      | inl y ↦ (
        dst',
        rw (after, e2, y) refl,
        λ j lt.
            let index : 0 + j ≡ j = omega arith in
            subst (λ z. dst' z ≡ src z) index
              (same_byte (sym (d.read y j lt) ∙ c.wrote ok_true j lt)),
      )
      | inr n ↦ let (j, lt, f) = d.fault n in absurd (ground (arith, sym f ∙ c.wrote ok_true j lt))
    ]
