-- ===== src/Fs/Bitmap.antt =====
-- `balloc` and `bfree` of kernel/fs.c against the set of blocks in use.
use intro2os_project.Prelude.{
  ℕ, zero, suc, ◌+◌, ◌-◌, ◌/◌, ◌%◌, ◌^◌, ◌≤◌, ◌<◌, ◌≡◌, ◌≢◌, inl, inr, refl, sym, subst, Bool, true,
  false, Option, none, some, ltb, update_self, update_ne, arith, Bool-cases, ℕ_discrete,
}
use intro2os_project.Fs.Disk.{Super, Disk, bblock, bit, set_bit, clear_bit, bpb, find_bit}
use intro2os_project.Fs.Bits.{digit, digit_set, digit_set_other, digit_clear, digit_clear_other}

-- Whether the bitmap has a block in use.
abbrev pub used : Super → Disk → ℕ → Bool
used sb d b = bit (d.byte (bblock sb b)) (b % bpb)

bit_clear : (old : ℕ → ℕ) (i : ℕ) → bit old i ≡ false → digit (i % 8) (old (i / 8)) ≡ 0
bit_clear old i n = ground arith

bit_one : (old : ℕ → ℕ) (i : ℕ) → bit old i ≡ true → digit (i % 8) (old (i / 8)) ≡ 1
bit_one old i y = ground arith

-- Setting a bit of a block of the map.
pub bit-set_bit_self : (old : ℕ → ℕ) (i : ℕ) → bit (set_bit old i) i ≡ true
bit-set_bit_self old i = elim (Bool-cases (bit old i)) [
  | inl y ↦ rw (y) y
  | inr n ↦
      rw
        (
          n,
          update_self old (i / 8) (old (i / 8) + 2 ^ (i % 8)),
          digit_set (i % 8) (old (i / 8)) (bit_clear old i n),
        )
        refl
]

pub bit-set_bit_other : (old : ℕ → ℕ) (i j : ℕ) → i ≢ j → bit (set_bit old i) j ≡ bit old j
bit-set_bit_other old i j ne = elim (Bool-cases (bit old i)) [
  | inl y ↦ rw (y) refl
  | inr n ↦ rw n (elim (ℕ_discrete (i / 8) (j / 8)) [
    | yes e ↦
        let apart : i % 8 ≢ j % 8 = λ f. ne (omega arith) in
        rw (← e) (
          rw
            (
              update_self old (i / 8) (old (i / 8) + 2 ^ (i % 8)),
              digit_set_other (i % 8) (j % 8) (old (i / 8)) apart (bit_clear old i n),
            )
            refl)
    | no apart ↦ rw (update_ne old (i / 8) (old (i / 8) + 2 ^ (i % 8)) (j / 8) apart) refl
  ])
]

-- Clearing one.
pub bit-clear_bit_self : (old : ℕ → ℕ) (i : ℕ) → bit (clear_bit old i) i ≡ false
bit-clear_bit_self old i = elim (Bool-cases (bit old i)) [
  | inl y ↦
      rw
        (
          y,
          update_self old (i / 8) (old (i / 8) - 2 ^ (i % 8)),
          digit_clear (i % 8) (old (i / 8)) (bit_one old i y),
        )
        refl
  | inr n ↦ rw (n) n
]

pub bit-clear_bit_other : (old : ℕ → ℕ) (i j : ℕ) → i ≢ j → bit (clear_bit old i) j ≡ bit old j
bit-clear_bit_other old i j ne = elim (Bool-cases (bit old i)) [
  | inl y ↦ rw y (elim (ℕ_discrete (i / 8) (j / 8)) [
    | yes e ↦
        let apart : i % 8 ≢ j % 8 = λ f. ne (omega arith) in
        rw (← e) (
          rw
            (
              update_self old (i / 8) (old (i / 8) - 2 ^ (i % 8)),
              digit_clear_other (i % 8) (j % 8) (old (i / 8)) apart (bit_one old i y),
            )
            refl)
    | no apart ↦ rw (update_ne old (i / 8) (old (i / 8) - 2 ^ (i % 8)) (j / 8) apart) refl
  ])
  | inr n ↦ rw (n) refl
]

-- What the inner loop of `balloc` finds: the first free bit of the range, if there is one.
abbrev pub IsFound : (ℕ → ℕ) → ℕ → ℕ → ℕ → ℕ → Option ℕ → Type 0
IsFound old b size bi k none = (j : ℕ) → bi ≤ j → j < bi + k → b + j < size → bit old j ≡ true
IsFound old b size bi k (some i) =
    (bi ≤ i)
    × (i < bi + k)
    × (b + i < size)
    × (bit old i ≡ false)
    × ((j : ℕ) → bi ≤ j → j < i → bit old j ≡ true)

find_bit_past :
    (old : ℕ → ℕ) (b size bi k : ℕ)
    → ltb (b + bi) size ≡ false
    → find_bit old b size bi (suc k) ≡ none
unfolding find_bit
find_bit_past old b size bi k h = rw h refl

find_bit_here :
    (old : ℕ → ℕ) (b size bi k : ℕ)
    → ltb (b + bi) size ≡ true
    → bit old bi ≡ false
    → find_bit old b size bi (suc k) ≡ some bi
unfolding find_bit
find_bit_here old b size bi k h f = rw (h, f) refl

find_bit_next :
    (old : ℕ → ℕ) (b size bi k : ℕ)
    → ltb (b + bi) size ≡ true
    → bit old bi ≡ true
    → find_bit old b size bi (suc k) ≡ find_bit old b size (bi + 1) k
unfolding find_bit
find_bit_next old b size bi k h f = rw (h, f) refl

later-IsFound :
    (old : ℕ → ℕ) (b size bi k : ℕ) (o : Option ℕ)
    → bit old bi ≡ true
    → IsFound old b size (bi + 1) k o
    → IsFound old b size bi (suc k) o
later-IsFound old b size bi k none y f = λ j ge lt small. elim (ℕ_discrete bi j) [
  | yes e ↦ subst (λ z. bit old z ≡ true) e y
  | no n ↦ f j (omega arith) (omega arith) small
]
later-IsFound old b size bi k (some i) y (low, high, small, free, before) = (
  omega arith,
  omega arith,
  small,
  free,
  λ j ge lt. elim (ℕ_discrete bi j) [
    | yes e ↦ subst (λ z. bit old z ≡ true) e y
    | no n ↦ before j (omega arith) lt
  ],
)

pub find_bit-IsFound :
    (old : ℕ → ℕ) (b size bi k : ℕ) → IsFound old b size bi k (find_bit old b size bi k)
unfolding find_bit
find_bit-IsFound old b size bi zero = λ j ge lt small. absurd (omega arith)
find_bit-IsFound old b size bi (suc k) = elim (Bool-cases (ltb (b + bi) size)) [
  | inr h ↦
      subst (IsFound old b size bi (suc k)) (sym (find_bit_past old b size bi k h))
        (λ j ge lt small. absurd (ground arith))
  | inl h ↦ elim (Bool-cases (bit old bi)) [
    | inr f ↦
        subst (IsFound old b size bi (suc k)) (sym (find_bit_here old b size bi k h f))
          (omega arith, omega arith, ground arith, f, λ j ge lt. absurd (omega arith))
    | inl y ↦ subst (IsFound old b size bi (suc k)) (sym (find_bit_next old b size bi k h y)) (
        later-IsFound old b size bi k (find_bit old b size (bi + 1) k) y
          (find_bit-IsFound old b size (bi + 1) k))
  ]
]
