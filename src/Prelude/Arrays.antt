-- ===== src/Prelude/Arrays.antt =====
-- Arrays in memory as functions from index to content, and the ring positions of a counter.
use Prim.Native.Nat.{ℕ, zero, suc, ◌+◌, ◌-◌, ◌%◌, ◌<◌}
use mathlib.Core.Path.{◌≡◌, refl, ap, ap₂, ◌∙◌}
use mathlib.Core.Logic.{◌≢◌}
use mathlib.Core.List.{List, [], ◌∷◌, ◌++◌}
use native.Mathlib.Decide.{dec_lt}
use native.Mathlib.Omega.{arith}
use native.Mathlib.Nat.{mod-add-mod, mod-eq_of_lt, mod-eq-sub-mod, add-zero}
use intro2os_project.Prelude.Tests.{◌==◌, if◌then◌else◌}

-- The array `f` after the assignment `f[i] = v`.
abbrev pub update {ℓ} : {A : Type ℓ} → (ℕ → A) → ℕ → A → ℕ → A
update f i v j = if i == j then v else f j

pub update_self {ℓ} : {A : Type ℓ} (f : ℕ → A) (i : ℕ) (v : A) → update f i v i ≡ v
update_self f i v = ground arith

pub update_ne {ℓ} : {A : Type ℓ} (f : ℕ → A) (i : ℕ) (v : A) (j : ℕ) → i ≢ j → update f i v j ≡ f j
update_ne f i v j h = ground arith

-- The `n` elements of a ring of `size` cells that a free-running counter reaches from `h` on.
module _ {ℓ} {A : Type ℓ} (size : ℕ) (f : ℕ → A) where
  abbrev pub window : ℕ → ℕ → List A
  window h zero = []
  window h (suc n) = f (h % size) ∷ window (h + 1) n

-- Fewer than `size` steps round the ring do not come back to the start.
add-mod-ne : {size h k : ℕ} → h < size → suc k < size → (h + suc k) % size ≢ h
add-mod-ne {size} {h} {k} hh hk = elim (dec_lt (h + suc k) size) [
  | yes p ↦ omega (arith, mod-eq_of_lt p)
  | no p ↦ omega (
    arith,
    mod-eq-sub-mod {n = h + suc k} {m = size} (omega arith),
    mod-eq_of_lt {n = h + suc k - size} {m = size} (omega arith),
  )
]

mod_shift : (size h n : ℕ) → (h % size + n) % size ≡ (h + n) % size
mod_shift size h n = mod-add-mod h size n

slot-ne : (size h k : ℕ) → 0 < size → suc k < size → (h + suc k) % size ≢ h % size
slot-ne size h k p hk = rw (← mod_shift size h (suc k)) (add-mod-ne (omega arith) hk)

-- A write just past a window extends it by that element.
pub window-update {ℓ} :
    {A : Type ℓ} (size : ℕ) (f : ℕ → A) (h n i : ℕ) (x : A)
    → n < size
    → i ≡ (h + n) % size
    → window size (update f i x) h (suc n) ≡ window size f h n ++ (x ∷ [])
window-update size f h zero i x p e = rw (e, add-zero, update_self f (h % size) x)
window-update size f h (suc n) i x p e =
    ap₂ ◌∷◌ (update_ne f i x (h % size) (rw e (slot-ne size h n (omega arith) p)))
      (window-update size f (h + 1) n i x (omega arith) (e ∙ ap (λ k. k % size) shift))
  where
    shift : h + suc n ≡ h + 1 + n
    shift = omega arith

-- A window depends on its start only modulo the size.
pub window-mod {ℓ} :
    {A : Type ℓ} (size : ℕ) (f : ℕ → A) (h k n : ℕ)
    → h % size ≡ k % size
    → window size f h n ≡ window size f k n
window-mod size f h k zero e = refl
window-mod size f h k (suc n) e = ap₂ ◌∷◌ (ap f e) (window-mod size f (h + 1) (k + 1) n next)
  where
    next : (h + 1) % size ≡ (k + 1) % size
    next = rw (← mod_shift size h 1, e, mod_shift size k 1)
