-- ===== src/Text/Copy.antt =====
-- The string copies: what `strncpy` and `safestrcpy` leave in the destination.
use intro2os_project.Prelude.{
  ℕ, zero, suc, ◌+◌, ◌≤◌, ◌<◌, ◌≡◌, ◌≢◌, inl, inr, ◌∙◌, sym, subst, ◌==◌, update, update_self,
  update_ne, arith, Bool-cases, ℕ_discrete, ==_iff,
}
use intro2os_project.Text.{Bytes, safestrcpy, safestrcpy_from}

-- The string that an array spells: `len` bytes that are not 0, and then a 0.
pub record Spells (s : Bytes) (len : ℕ) : Type 0 where
  pub text : (j : ℕ) → j < len → s j ≢ 0
  pub end : s len ≡ 0

safestrcpy_from_before : (s t : Bytes) (i k j : ℕ) → j < i → safestrcpy_from s t i k j ≡ s j
unfolding safestrcpy_from
safestrcpy_from_before s t i zero j h = update_ne s i 0 j (omega arith)
safestrcpy_from_before s t i (suc k) j h = elim (Bool-cases (t i == 0)) [
  | inl e ↦
      rw e (
        update_ne (update s i (t i)) (i + 1) 0 j (omega arith)
        ∙ update_ne s i (t i) j (omega arith))
  | inr e ↦ rw e (
      safestrcpy_from_before (update s i (t i)) t (i + 1) k j (omega arith)
      ∙ update_ne s i (t i) j (omega arith))
]

-- What `safestrcpy_from` at `i` leaves: the source up to an end within its bound, and a 0 there.
record Ended (s t out : Bytes) (i k : ℕ) : Type 0 where
  len : ℕ
  bound : (i ≤ len) × (len ≤ i + k)
  same : (j : ℕ) → i ≤ j → j < len → (out j ≡ t j) × (t j ≢ 0)
  end : out len ≡ 0
  whole : (len < i + k) → t len ≡ 0

safestrcpy_from-Ended : (s t : Bytes) (i k : ℕ) → Ended s t (safestrcpy_from s t i k) i k
unfolding safestrcpy_from
safestrcpy_from-Ended s t i zero = record {
  len = i;
  bound = (omega arith, omega arith);
  same = λ j lo hi. absurd (omega arith);
  end = update_self s i 0;
  whole = λ h. absurd (omega arith);
}
safestrcpy_from-Ended s t i (suc k) = elim (Bool-cases (t i == 0)) [
  | inl e ↦ rw e (record {
    len = i;
    bound = (omega arith, omega arith);
    same = λ j lo hi. absurd (omega arith);
    end =
        update_ne (update s i (t i)) (i + 1) 0 i (omega arith)
        ∙ update_self s i (t i)
        ∙ (==_iff (t i) 0).0 e;
    whole = λ h. (==_iff (t i) 0).0 e;
  })
  | inr e ↦ rw e (later (safestrcpy_from-Ended (update s i (t i)) t (i + 1) k) (λ z. ground arith))
]
  where
    later :
        Ended (update s i (t i)) t (safestrcpy_from (update s i (t i)) t (i + 1) k) (i + 1) k
        → t i ≢ 0
        → Ended s t (safestrcpy_from (update s i (t i)) t (i + 1) k) i (suc k)
    later r ne = record {
      len = r.len;
      bound = (omega (arith, r.bound), omega (arith, r.bound));
      same = λ j lo hi. elim (ℕ_discrete i j) [
        | yes q ↦
            subst (λ m. (safestrcpy_from (update s i (t i)) t (i + 1) k m ≡ t m) × (t m ≢ 0)) q
              (
                safestrcpy_from_before (update s i (t i)) t (i + 1) k i (omega arith)
                    ∙ update_self s i (t i),
                ne,
              )
        | no q ↦ r.same j (omega arith) hi
      ];
      end = r.end;
      whole = λ h. r.whole (omega arith);
    }

-- `safestrcpy` with room for `n > 0` bytes leaves a string that ends within the room: it is the source
-- cut to `n - 1` characters, or the whole source where that is shorter.
pub safestrcpy_terminates :
    (s t : Bytes) (n : ℕ)
    → 0 < n
    → (len : ℕ) × (len < n)
      × Spells (safestrcpy s t n) len
      × ((j : ℕ) → j < len → safestrcpy s t n j ≡ t j)
      × (len + 1 < n → t len ≡ 0)
unfolding safestrcpy
safestrcpy_terminates s t zero h = absurd (omega arith)
safestrcpy_terminates s t (suc n) h =
    let r = safestrcpy_from-Ended s t 0 n in
    (
      r.len,
      omega (arith, r.bound),
      record {
        text = λ j hj e. (r.same j (omega arith) hj).1 (sym (r.same j (omega arith) hj).0 ∙ e);
        end = r.end;
      },
      λ j hj. (r.same j (omega arith) hj).0,
      λ hl. r.whole (omega arith),
    )
