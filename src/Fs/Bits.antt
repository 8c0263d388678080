-- ===== src/Fs/Bits.antt =====
-- Bits of a number by division, as the bitmap of kernel/fs.c tests, sets and clears them.
use native.Mathlib.Nat.{div-div-eq-div-mul}
use intro2os_project.Prelude.{
  ℕ, zero, suc, ◌+◌, ◌-◌, ◌*◌, ◌/◌, ◌%◌, ◌^◌, ◌≤◌, ◌≡◌, ◌≢◌, refl, sym, ap, ◌∙◌, arith,
}

abbrev pub digit : ℕ → ℕ → ℕ
digit r v = v / 2 ^ r % 2

pow_suc : (r : ℕ) → 2 ^ suc r ≡ 2 * 2 ^ r
pow_suc r = omega arith

-- The digit above is the digit of the half.
pub digit_above : (r v : ℕ) → digit (suc r) v ≡ digit r (v / 2)
digit_above r v =
    ap (λ z. v / z % 2) (pow_suc r) ∙ ap (λ z. z % 2) (sym (div-div-eq-div-mul v 2 (2 ^ r)))

half_add : (r v : ℕ) → (v + 2 ^ suc r) / 2 ≡ v / 2 + 2 ^ r
half_add r v = omega (arith, pow_suc r)

half_sub : (r v : ℕ) → (v - 2 ^ suc r) / 2 ≡ v / 2 - 2 ^ r
half_sub r v = omega (arith, pow_suc r)

-- Setting a digit that is 0.
pub digit_set : (r v : ℕ) → digit r v ≡ 0 → digit r (v + 2 ^ r) ≡ 1
digit_set zero v h = omega arith
digit_set (suc r) v h =
    digit_above r (v + 2 ^ suc r)
    ∙ ap (digit r) (half_add r v)
    ∙ digit_set r (v / 2) (sym (digit_above r v) ∙ h)

pub digit_set_other : (r s v : ℕ) → r ≢ s → digit r v ≡ 0 → digit s (v + 2 ^ r) ≡ digit s v
digit_set_other zero zero v n h = absurd (n refl)
digit_set_other zero (suc s) v n h =
    let half : (v + 2 ^ 0) / 2 ≡ v / 2 = omega arith in
    digit_above s (v + 2 ^ 0) ∙ ap (digit s) half ∙ sym (digit_above s v)
digit_set_other (suc r) zero v n h = omega (arith, pow_suc r)
digit_set_other (suc r) (suc s) v n h =
    digit_above s (v + 2 ^ suc r)
    ∙ ap (digit s) (half_add r v)
    ∙ digit_set_other r s (v / 2) (λ e. n (ap suc e)) (sym (digit_above r v) ∙ h)
    ∙ sym (digit_above s v)

-- Clearing a digit that is 1.
pub digit_clear : (r v : ℕ) → digit r v ≡ 1 → digit r (v - 2 ^ r) ≡ 0
digit_clear zero v h = omega arith
digit_clear (suc r) v h =
    digit_above r (v - 2 ^ suc r)
    ∙ ap (digit r) (half_sub r v)
    ∙ digit_clear r (v / 2) (sym (digit_above r v) ∙ h)

digit_le : (r v : ℕ) → digit r v ≡ 1 → 2 ^ r ≤ v
digit_le zero v h = omega arith
digit_le (suc r) v h = omega (arith, pow_suc r, digit_le r (v / 2) (sym (digit_above r v) ∙ h))

pub digit_clear_other : (r s v : ℕ) → r ≢ s → digit r v ≡ 1 → digit s (v - 2 ^ r) ≡ digit s v
digit_clear_other zero zero v n h = absurd (n refl)
digit_clear_other zero (suc s) v n h =
    let half : (v - 2 ^ 0) / 2 ≡ v / 2 = omega arith in
    digit_above s (v - 2 ^ 0) ∙ ap (digit s) half ∙ sym (digit_above s v)
digit_clear_other (suc r) zero v n h = omega (arith, pow_suc r, digit_le (suc r) v h)
digit_clear_other (suc r) (suc s) v n h =
    digit_above s (v - 2 ^ suc r)
    ∙ ap (digit s) (half_sub r v)
    ∙ digit_clear_other r s (v / 2) (λ e. n (ap suc e)) (sym (digit_above r v) ∙ h)
    ∙ sym (digit_above s v)
