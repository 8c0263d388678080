-- ===== src/Text/Move.antt =====
-- `memmove` and `memset`: what every byte of the memory is afterwards.
use intro2os_project.Prelude.{
  ℕ, zero, suc, ◌+◌, ◌≤◌, ◌<◌, ◌≡◌, ◌≢◌, ◌⊎◌, inl, inr, refl, ◌∙◌, false, ◌==◌, ltb, ◌&&◌, update,
  update_self, update_ne, arith, Bool-cases, ℕ_discrete, ==_iff, dec_lt,
}
use intro2os_project.Text.{Bytes, memmove, move_up, move_down}

-- What a copy of `n` bytes from `s` to `d` makes of the memory `m`.
pub record Moved (m : Bytes) (d s n : ℕ) (out : Bytes) : Type 0 where
  pub copied : (j : ℕ) → j < n → out (d + j) ≡ m (s + j)
  pub kept : (j : ℕ) → (j < d) ⊎ (d + n ≤ j) → out j ≡ m j

move_up_kept : (m : Bytes) (d s k j : ℕ) → (j < d) ⊎ (d + k ≤ j) → move_up m d s k j ≡ m j
unfolding move_up
move_up_kept m d s zero j h = refl
move_up_kept m d s (suc k) j h =
    move_up_kept (update m d (m s)) (d + 1) (s + 1) k j (next h) ∙ update_ne m d (m s) j (apart h)
  where
    next : (j < d) ⊎ (d + suc k ≤ j) → (j < d + 1) ⊎ (d + 1 + k ≤ j)
    next (inl h) = inl (omega arith)
    next (inr h) = inr (omega arith)

    apart : (j < d) ⊎ (d + suc k ≤ j) → d ≢ j
    apart (inl r) e = omega arith
    apart (inr r) e = omega arith

-- Upwards is right if no source byte is overwritten before it is read.
move_up_copied :
    (m : Bytes) (d s k j x y : ℕ)
    → (d ≤ s) ⊎ (s + k ≤ d)
    → j < k
    → x ≡ d + j
    → y ≡ s + j
    → move_up m d s k x ≡ m y
unfolding move_up
move_up_copied m d s zero j x y o h ex ey = absurd (omega arith)
move_up_copied m d s (suc k) zero x y o h ex ey =
    let e : x ≡ d = omega arith in
    let f : y ≡ s = omega arith in
    rw (e, f)
      (move_up_kept (update m d (m s)) (d + 1) (s + 1) k d (inl (omega arith))
        ∙ update_self m d (m s))
move_up_copied m d s (suc k) (suc j) x y o h ex ey =
    move_up_copied (update m d (m s)) (d + 1) (s + 1) k j x y (next o) (omega arith) (omega arith)
      (omega arith)
    ∙ update_ne m d (m s) y (apart o)
  where
    next : (d ≤ s) ⊎ (s + suc k ≤ d) → (d + 1 ≤ s + 1) ⊎ (s + 1 + k ≤ d + 1)
    next (inl h) = inl (omega arith)
    next (inr h) = inr (omega arith)

    apart : (d ≤ s) ⊎ (s + suc k ≤ d) → d ≢ y
    apart (inl r) e = omega arith
    apart (inr r) e = omega arith

move_down_kept : (m : Bytes) (d s k j : ℕ) → (j < d) ⊎ (d + k ≤ j) → move_down m d s k j ≡ m j
unfolding move_down
move_down_kept m d s zero j h = refl
move_down_kept m d s (suc k) j h =
    move_down_kept (update m (d + k) (m (s + k))) d s k j (next h)
    ∙ update_ne m (d + k) (m (s + k)) j (apart h)
  where
    next : (j < d) ⊎ (d + suc k ≤ j) → (j < d) ⊎ (d + k ≤ j)
    next (inl h) = inl (omega arith)
    next (inr h) = inr (omega arith)

    apart : (j < d) ⊎ (d + suc k ≤ j) → d + k ≢ j
    apart (inl r) e = omega arith
    apart (inr r) e = omega arith

-- Downwards is right if the source does not lie above the destination.
move_down_copied : (m : Bytes) (d s k j : ℕ) → s ≤ d → j < k → move_down m d s k (d + j) ≡ m (s + j)
unfolding move_down
move_down_copied m d s zero j o h = absurd (omega arith)
move_down_copied m d s (suc k) j o h = elim (ℕ_discrete j k) [
  | yes e ↦ rw e (
      move_down_kept (update m (d + k) (m (s + k))) d s k (d + k) (inr (omega arith))
      ∙ update_self m (d + k) (m (s + k)))
  | no ne ↦
      move_down_copied (update m (d + k) (m (s + k))) d s k j o (omega arith)
      ∙ update_ne m (d + k) (m (s + k)) (s + j) (omega arith)
]

-- After `memmove` the destination holds the bytes that the source held before, also where the two areas
-- overlap, and no byte outside the destination has changed.
pub memmove-Moved : (m : Bytes) (d s n : ℕ) → Moved m d s n (memmove m d s n)
unfolding memmove
memmove-Moved m d s n = elim (Bool-cases (n == 0)) [
  | inl none ↦
      let e : n ≡ 0 = (==_iff n 0).0 none in
      rw none (record { copied = λ j h. absurd (omega arith); kept = λ j h. refl })
  | inr some ↦ elim (Bool-cases (ltb s d && ltb d (s + n))) [
    | inl over ↦
        rw (some, over)
          (record {
            copied = λ j h. move_down_copied m d s n j (ground arith) h;
            kept = move_down_kept m d s n;
          })
    | inr apart ↦
        rw (some, apart)
          (record {
            copied = λ j h.
                move_up_copied m d s n j (d + j) (s + j) (order apart (dec_lt s d)) h refl refl;
            kept = move_up_kept m d s n;
          })
  ]
]
  where
    order : (ltb s d && ltb d (s + n)) ≡ false → Dec (s < d) → (d ≤ s) ⊎ (s + n ≤ d)
    order e (yes h) = inr (ground arith)
    order e (no h) = inl (omega arith)
