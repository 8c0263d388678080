-- ===== src/Syscall/Tracing.antt =====
-- Which calls are traced, and how their arguments are printed.
use intro2os_project.Prelude.{
  ℕ, zero, suc, ◌+◌, ◌-◌, ◌/◌, ◌%◌, ◌^◌, ◌<◌, ◌≡◌, ◌≢◌, ◌↔◌, inl, inr, refl, ap, sym, subst, ◌∙◌,
  true, false, Option, some, List, [], ◌∷◌, ◌==◌, ltb, update, u32, arith, Bool-cases, Option-cases,
}
use intro2os_project.Syscall.{
  Caller, Piece, text, int, int_of, served, syscall, sys_trace, argint, argraw, print_args,
  trace_line, nelem,
}

-- The numbers `args i`, `args (i + 1)`, … with one blank between neighbours.
abbrev pub joined : (ℕ → ℕ) → ℕ → ℕ → List Piece
joined args i zero = []
joined args i (suc zero) = int (int_of (args i)) ∷ []
joined args i (suc (suc k)) = int (int_of (args i)) ∷ text " " ∷ joined args (i + 1) (suc k)

print_args_from : (args : ℕ → ℕ) (i k : ℕ) → print_args args (i + k) i k ≡ joined args i k
unfolding print_args
print_args_from args i zero = refl
print_args_from args i (suc zero) = ground arith
print_args_from args i (suc (suc k)) =
    rw (lt, print_args)
      (ap (λ (l : List Piece). int (int_of (args i)) ∷ text " " ∷ l)
        (ap (λ n. print_args args n (i + 1) (suc k)) shift ∙ print_args_from args (i + 1) (suc k)))
  where
    lt : ltb i (i + suc (suc k) - 1) ≡ true
    lt = ground arith

    shift : i + suc (suc k) ≡ i + 1 + suc k
    shift = omega arith

-- The arguments of a trace line are those of the call in order, as signed integers, with one blank
-- between neighbours and none at the ends.
pub print_args-joined : (args : ℕ → ℕ) (n : ℕ) → print_args args n 0 n ≡ joined args 0 n
print_args-joined args n = ap (λ m. print_args args m 0 n) (omega arith) ∙ print_args_from args 0 n

bit_test : (x : ℕ) → (x % 2 == 1) ≡ false → x % 2 ≡ 0
bit_test x h = ground arith

module _ (Rest : Type 0) (handlers : ℕ → Caller Rest → Option (ℕ × Caller Rest)) where
  trace_line_some : (num : ℕ) (args : ℕ → ℕ) (c : Caller Rest) → trace_line Rest num args c ≢ []
  unfolding trace_line
  trace_line_some num args c e = cc

  handled_prints :
      (num : ℕ) (c : Caller Rest) (r : ℕ) (d : Caller Rest) {out : List Piece} {c1 : Caller Rest}
      → handlers num c ≡ some (r, d)
      → served Rest handlers num c ≡ some (out, c1)
      → (out ≡ []) ↔ (c1.trace_mask / 2 ^ num % 2 ≡ 0)
  unfolding served
  handled_prints num c r d n e = elim (Bool-cases (d.trace_mask / 2 ^ num % 2 == 1)) [
    | inl odd ↦ ground (arith, n, e, odd, trace_line_some num c.a (record d { a = update d.a 0 r }))
    | inr even ↦ ground (arith, n, e, even, bit_test (d.trace_mask / 2 ^ num))
  ]

  -- A call prints something exactly if the mask that its handler leaves has its bit.
  served_prints :
      (num : ℕ) (c : Caller Rest) {out : List Piece} {c1 : Caller Rest}
      → served Rest handlers num c ≡ some (out, c1)
      → (out ≡ []) ↔ (c1.trace_mask / 2 ^ num % 2 ≡ 0)
  unfolding served
  served_prints num c e = elim (Option-cases (handlers num c)) [
    | inl n ↦ absurd (ground (arith, n, e))
    | inr ((r, d), n) ↦ handled_prints num c r d n e
  ]

  -- `handlers` follows the table where it matters for the mask: 22 is `sys_trace`, and no other handler
  -- writes the mask.
  pub record IsTraceTable : Type 0 where
    pub trace : (c : Caller Rest) → handlers 22 c ≡ sys_trace Rest c
    pub keeps :
        (num : ℕ) (c d : Caller Rest) (r : ℕ)
        → num ≢ 22
        → handlers num c ≡ some (r, d)
        → d.trace_mask ≡ c.trace_mask

  served_trace :
      (c : Caller Rest) {out : List Piece} {c1 : Caller Rest}
      → IsTraceTable
      → served Rest handlers 22 c ≡ some (out, c1)
      → c1.trace_mask ≡ u32 (c.a 0)
  unfolding served sys_trace argint argraw
  served_trace c t e = ground (arith, t.trace c)

  served_keeps :
      (num : ℕ) (c : Caller Rest) {out : List Piece} {c1 : Caller Rest}
      → IsTraceTable
      → num ≢ 22
      → served Rest handlers num c ≡ some (out, c1)
      → c1.trace_mask ≡ c.trace_mask
  unfolding served
  served_keeps num c t ne e = elim (Option-cases (handlers num c)) [
    | inl n ↦ absurd (ground (arith, n, e))
    | inr ((r, d), n) ↦ ground (arith, n, e, t.keeps num c d r ne n)
  ]

  syscall-served :
      (c : Caller Rest)
      → 0 < u32 (c.a 7)
      → u32 (c.a 7) < nelem
      → syscall Rest handlers c ≡ served Rest handlers (u32 (c.a 7)) c
  unfolding syscall
  syscall-served c lo hi = ground arith

  syscall-at :
      (num : ℕ) (c : Caller Rest) {out : List Piece} {c1 : Caller Rest}
      → u32 (c.a 7) ≡ num
      → 0 < num
      → num < nelem
      → syscall Rest handlers c ≡ some (out, c1)
      → served Rest handlers num c ≡ some (out, c1)
  syscall-at num c e lo hi h =
      ap (λ n. served Rest handlers n c) (sym e)
      ∙ sym (syscall-served c (omega (arith, e)) (omega (arith, e)))
      ∙ h

  -- A process calls trace(mask), and later, with its mask unchanged since, the system call `num`,
  -- which is not trace. If no other handler writes the mask, the later call prints a trace line
  -- exactly if bit `num` of the mask is set, and leaves the mask.
  pub traced_iff :
      (c d : Caller Rest) (num : ℕ) {out1 out2 : List Piece} {c1 d1 : Caller Rest}
      → IsTraceTable
      → u32 (c.a 7) ≡ 22
      → syscall Rest handlers c ≡ some (out1, c1)
      → d.trace_mask ≡ c1.trace_mask
      → u32 (d.a 7) ≡ num
      → 0 < num
      → num < nelem
      → num ≢ 22
      → syscall Rest handlers d ≡ some (out2, d1)
      → ((out2 ≡ []) ↔ (u32 (c.a 0) / 2 ^ num % 2 ≡ 0)) × (d1.trace_mask ≡ u32 (c.a 0))
  traced_iff c d num {out2} {d1} t e22 e1 same en lo hi ne e2 =
      let s2 = syscall-at num d en lo hi e2 in
      let mask : d1.trace_mask ≡ u32 (c.a 0) =
        served_keeps num d t ne s2
        ∙ same
        ∙ served_trace c t (syscall-at 22 c e22 (omega arith) (omega arith) e1) in
      (subst (λ m. (out2 ≡ []) ↔ (m / 2 ^ num % 2 ≡ 0)) mask (served_prints num d s2), mask)
