-- ===== src/Text/Compare.antt =====
-- The comparisons: when `strncmp` and `memcmp` return 0, and that a copied name compares equal.
use intro2os_project.Prelude.{
  ℕ, zero, suc, ◌+◌, ◌≤◌, ◌<◌, ◌≡◌, ◌≢◌, inl, inr, refl, ◌∙◌, sym, subst, true, false, ◌==◌, ◌&&◌,
  not, ◌↔◌, update, update_self, update_ne, arith, Bool-cases, ℕ_discrete, ==_iff,
}
use intro2os_project.Prelude.Int.{pos}
use intro2os_project.Text.{
  Bytes, memcmp, memcmp_from, strncmp, strncmp_from, strncpy, strncpy_from, pad_from,
}

-- Two strings agree on at most `k` characters from `i` on: up to the end of the first or the bound.
abbrev pub Agrees : Bytes → Bytes → ℕ → ℕ → Type 0
Agrees p q i zero = Unit
Agrees p q i (suc k) = (p i ≡ q i) × (p i ≢ 0 → Agrees p q (i + 1) k)

strncmp_from_iff : (p q : Bytes) (i k : ℕ) → (strncmp_from p q i k ≡ pos 0) ↔ Agrees p q i k
unfolding strncmp_from
strncmp_from_iff p q i zero = (λ e. tt, λ h. refl)
strncmp_from_iff p q i (suc k) = elim (Bool-cases (not (p i == 0) && p i == q i)) [
  | inl e ↦
      rw (e, strncmp_from)
        (
          λ z. (ground arith, λ ne. (strncmp_from_iff p q (i + 1) k).0 z),
          λ h. (strncmp_from_iff p q (i + 1) k).1 (h.1 (ground arith)),
        )
  | inr e ↦
      rw (e, strncmp_from) (λ z. (ground arith, λ ne. absurd (ground arith)), λ h. ground arith)
]

-- `strncmp` returns 0 exactly on strings that agree up to the end of the first or to the bound.
pub strncmp_iff : (p q : Bytes) (n : ℕ) → (strncmp p q n ≡ pos 0) ↔ Agrees p q 0 n
unfolding strncmp
strncmp_iff p q n = strncmp_from_iff p q 0 n

memcmp_from_iff :
    (s t : Bytes) (i k : ℕ)
    → (memcmp_from s t i k ≡ pos 0) ↔ ((j : ℕ) → i ≤ j → j < i + k → s j ≡ t j)
unfolding memcmp_from
memcmp_from_iff s t i zero = (λ e j lo hi. absurd (omega arith), λ h. refl)
memcmp_from_iff s t i (suc k) = elim (Bool-cases (s i == t i)) [
  | inl e ↦
      rw (e, memcmp_from)
        (
          λ z j lo hi. elim (ℕ_discrete i j) [
            | yes q ↦ subst (λ m. s m ≡ t m) q ((==_iff (s i) (t i)).0 e)
            | no q ↦ (memcmp_from_iff s t (i + 1) k).0 z j (omega arith) (omega arith)
          ],
          λ h. (memcmp_from_iff s t (i + 1) k).1 (λ j lo hi. h j (omega arith) (omega arith)),
        )
  | inr e ↦
      rw (e, memcmp_from) (λ z j lo hi. absurd (ground arith), λ h. absurd (ground (arith, h i)))
]

-- `memcmp` returns 0 exactly on areas that agree on every byte.
pub memcmp_iff : (s t : Bytes) (n : ℕ) → (memcmp s t n ≡ pos 0) ↔ ((j : ℕ) → j < n → s j ≡ t j)
unfolding memcmp
memcmp_iff s t n = (
  λ z j h. (memcmp_from_iff s t 0 n).0 z j (omega arith) (omega arith),
  λ h. (memcmp_from_iff s t 0 n).1 (λ j lo hi. h j (omega arith)),
)

pad_from_before : (s : Bytes) (i k j : ℕ) → j < i → pad_from s i k j ≡ s j
unfolding pad_from
pad_from_before s i zero j h = refl
pad_from_before s i (suc k) j h =
    pad_from_before (update s i 0) (i + 1) k j (omega arith) ∙ update_ne s i 0 j (omega arith)

strncpy_from_before : (s t : Bytes) (i k j : ℕ) → j < i → strncpy_from s t i k j ≡ s j
unfolding strncpy_from
strncpy_from_before s t i zero j h = refl
strncpy_from_before s t i (suc k) j h = elim (Bool-cases (t i == 0)) [
  | inl e ↦ rw e (
      pad_from_before (update s i (t i)) (i + 1) k j (omega arith)
      ∙ update_ne s i (t i) j (omega arith))
  | inr e ↦ rw e (
      strncpy_from_before (update s i (t i)) t (i + 1) k j (omega arith)
      ∙ update_ne s i (t i) j (omega arith))
]

strncpy_from_on :
    (s t : Bytes) (i k : ℕ)
    → (t i == 0) ≡ false
    → strncpy_from s t i (suc k) ≡ strncpy_from (update s i (t i)) t (i + 1) k
unfolding strncpy_from
strncpy_from_on s t i k e = rw e refl

strncpy_from_end :
    (s t : Bytes) (i k : ℕ)
    → (t i == 0) ≡ true
    → strncpy_from s t i (suc k) ≡ pad_from (update s i (t i)) (i + 1) k
unfolding strncpy_from
strncpy_from_end s t i k e = rw e refl

strncpy_from-Agrees : (s t : Bytes) (i k : ℕ) → Agrees t (strncpy_from s t i k) i k
strncpy_from-Agrees s t i zero = tt
strncpy_from-Agrees s t i (suc k) = elim (Bool-cases (t i == 0)) [
  | inl e ↦
      subst (λ out. Agrees t out i (suc k)) (sym (strncpy_from_end s t i k e))
        (
          sym (
              pad_from_before (update s i (t i)) (i + 1) k i (omega arith) ∙ update_self s i (t i)),
          λ ne. absurd (ne ((==_iff (t i) 0).0 e)),
        )
  | inr e ↦
      subst (λ out. Agrees t out i (suc k)) (sym (strncpy_from_on s t i k e))
        (
          sym (
              strncpy_from_before (update s i (t i)) t (i + 1) k i (omega arith)
              ∙ update_self s i (t i)),
          λ ne. strncpy_from-Agrees (update s i (t i)) t (i + 1) k,
        )
]

-- A name that `strncpy` copied into an entry of `n` bytes compares equal to the original by `strncmp` with
-- the same bound, also where the name fills the entry and no terminator is stored.
pub strncmp-strncpy : (s t : Bytes) (n : ℕ) → strncmp t (strncpy s t n) n ≡ pos 0
unfolding strncpy
strncmp-strncpy s t n = (strncmp_iff t (strncpy_from s t 0 n) n).1 (strncpy_from-Agrees s t 0 n)
