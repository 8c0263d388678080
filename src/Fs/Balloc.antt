-- ===== src/Fs/Balloc.antt =====
-- `balloc` of kernel/fs.c: the first free block, zeroed and marked, or none.
use intro2os_project.Prelude.{
  ℕ, zero, suc, ◌+◌, ◌-◌, ◌*◌, ◌/◌, ◌%◌, ◌≤◌, ◌<◌, ◌≡◌, ◌≢◌, ◌⊎◌, inl, inr, refl, sym, ap, ◌∙◌,
  subst, true, false, none, some, ltb, update, update_self, update_ne, arith, Bool-cases,
  Option-cases, ℕ_discrete, dec_lt,
}
use intro2os_project.Fs.Disk.{
  Super, Disk, log_write, bblock, bit, set_bit, bpb, bzero, find_bit, balloc_from, balloc,
}
use intro2os_project.Fs.Logging.{LogsAtMost, balloc_logs}
use intro2os_project.Fs.Bitmap.{
  used, bit-set_bit_self, bit-set_bit_other, IsFound, find_bit-IsFound,
}

-- The map itself, and block 0, are in use.
pub record IsMap (sb : Super) (d : Disk) : Type 0 where
  pub boot : used sb d 0 ≡ true
  pub map : (b : ℕ) → b < sb.size → used sb d (bblock sb b) ≡ true
  pub map_low : (b : ℕ) → b < sb.size → bblock sb b < sb.size

-- The block `a` was free, and is taken.
pub record IsAllocated (sb : Super) (d : Disk) (a : ℕ) (d' : Disk) : Type 0 where
  pub low : a < sb.size
  pub free : used sb d a ≡ false
  pub first : (b : ℕ) → b < a → used sb d b ≡ true
  pub now : used sb d' a ≡ true
  pub rest : (b : ℕ) → b < sb.size → b ≢ a → used sb d' b ≡ used sb d b
  pub zero_byte : (i : ℕ) → d'.byte a i ≡ 0
  pub zero_word : (i : ℕ) → d'.word a i ≡ 0
  pub bytes : (b : ℕ) → b ≢ a → ((c : ℕ) → c < sb.size → bblock sb c ≢ b) → d'.byte b ≡ d.byte b
  pub words : (b : ℕ) → b ≢ a → d'.word b ≡ d.word b
  pub inodes : d'.inode ≡ d.inode

-- The disk after block `a` was taken.
abbrev pub taken : Super → ℕ → Disk → Disk
taken sb a d = bzero a (
    log_write (bblock sb a)
      (record d { byte = update d.byte (bblock sb a) (set_bit (d.byte (bblock sb a)) (a % bpb)) }))

pub used-ne : (sb : Super) (d : Disk) (a b : ℕ) → used sb d a ≡ false → used sb d b ≡ true → b ≢ a
used-ne sb d a b f t e = ground (arith, ap (used sb d) e)

module _ (sb : Super) (d : Disk) (a : ℕ) (ok : IsMap sb d) (low : a < sb.size)
    (free : used sb d a ≡ false) where
  map_apart : (b : ℕ) → b < sb.size → a ≢ bblock sb b
  map_apart b h e = used-ne sb d a (bblock sb b) free (ok.map b h) (sym e)

  taken_byte :
      (b : ℕ)
      → a ≢ b
      → (taken sb a d).byte b
        ≡ update d.byte (bblock sb a) (set_bit (d.byte (bblock sb a)) (a % bpb)) b
  unfolding bzero
  taken_byte b n =
      update_ne (update d.byte (bblock sb a) (set_bit (d.byte (bblock sb a)) (a % bpb))) a (λ i. 0)
        b n

  taken-now : used sb (taken sb a d) a ≡ true
  taken-now =
      ap (λ z. bit z (a % bpb))
        (taken_byte (bblock sb a) (map_apart a low)
          ∙ update_self d.byte (bblock sb a) (set_bit (d.byte (bblock sb a)) (a % bpb)))
      ∙ bit-set_bit_self (d.byte (bblock sb a)) (a % bpb)

  taken_other : (b : ℕ) → b < sb.size → b ≢ a → used sb (taken sb a d) b ≡ used sb d b
  taken_other b h n =
      ap (λ z. bit z (b % bpb)) (taken_byte (bblock sb b) (map_apart b h))
      ∙ elim (ℕ_discrete (bblock sb a) (bblock sb b)) [
        | no apart ↦
            ap (λ z. bit z (b % bpb)) (update_ne d.byte (bblock sb a) _ (bblock sb b) apart)
        | yes e ↦
            let index : a % bpb ≢ b % bpb = λ f. n (omega arith) in
            subst
              (λ z.
                bit (update d.byte (bblock sb a) (set_bit (d.byte (bblock sb a)) (a % bpb)) z)
                  (b % bpb)
                ≡ bit (d.byte z) (b % bpb))
              e
              (ap (λ z. bit z (b % bpb))
                  (update_self d.byte (bblock sb a) (set_bit (d.byte (bblock sb a)) (a % bpb)))
                ∙ bit-set_bit_other (d.byte (bblock sb a)) (a % bpb) (b % bpb) index)
      ]

  taken-IsAllocated : ((b : ℕ) → b < a → used sb d b ≡ true) → IsAllocated sb d a (taken sb a d)
  unfolding bzero
  taken-IsAllocated before = record {
    low = low;
    free = free;
    first = before;
    now = taken-now;
    rest = taken_other;
    zero_byte = λ i.
        ap (λ z. z i)
          (update_self (update d.byte (bblock sb a) (set_bit (d.byte (bblock sb a)) (a % bpb))) a
            (λ j. 0));
    zero_word = λ i. ap (λ z. z i) (update_self d.word a (λ j. 0));
    bytes = λ b n m. taken_byte b (λ e. n (sym e)) ∙ update_ne d.byte (bblock sb a) _ b (m a low);
    words = λ b n. update_ne d.word a (λ j. 0) b (λ e. n (sym e));
    inodes = refl;
  }

-- The outcomes of `balloc`.
abbrev pub Allocated : Super → Disk → ℕ × Disk → Type 0
Allocated sb d r =
    ((r ≡ (0, d)) × ((b : ℕ) → b < sb.size → used sb d b ≡ true))
    ⊎ ((a : ℕ) × (0 < a) × (r ≡ (a, taken sb a d)) × IsAllocated sb d a (taken sb a d))

from_end :
    (sb : Super) (fuel b : ℕ) (d : Disk) → ltb b sb.size ≡ false → balloc_from sb fuel b d ≡ (0, d)
unfolding balloc_from
from_end sb zero b d h = refl
from_end sb (suc fuel) b d h = rw (balloc_from, h) refl

from_next :
    (sb : Super) (fuel b : ℕ) (d : Disk)
    → ltb b sb.size ≡ true
    → find_bit (d.byte (bblock sb b)) b sb.size 0 bpb ≡ none
    → balloc_from sb (suc fuel) b d ≡ balloc_from sb fuel (b + bpb) d
unfolding balloc_from
from_next sb fuel b d h f = rw (balloc_from, h, f) refl

from_here :
    (sb : Super) (fuel b i : ℕ) (d : Disk)
    → ltb b sb.size ≡ true
    → find_bit (d.byte (bblock sb b)) b sb.size 0 bpb ≡ some i
    → b % bpb ≡ 0
    → i < bpb
    → balloc_from sb (suc fuel) b d ≡ (b + i, taken sb (b + i) d)
unfolding balloc_from
from_here sb fuel b i d h f al lt =
    let block : bblock sb (b + i) ≡ bblock sb b = omega arith in
    let index : (b + i) % bpb ≡ i = omega arith in rw (balloc_from, h, f, block, index) refl

-- A bit of a block of the map stands for a block of the disk.
used_in_block :
    (sb : Super) (d : Disk) (b j : ℕ)
    → b % bpb ≡ 0
    → j < bpb
    → used sb d (b + j) ≡ bit (d.byte (bblock sb b)) j
used_in_block sb d b j al lt =
    let block : bblock sb (b + j) ≡ bblock sb b = omega arith in
    let index : (b + j) % bpb ≡ j = omega arith in rw (block, index) refl

abbrev UsedBelow : Super → Disk → ℕ → Type 0
UsedBelow sb d b = (c : ℕ) → c < b → c < sb.size → used sb d c ≡ true

used_further :
    (sb : Super) (d : Disk) (b i : ℕ)
    → b % bpb ≡ 0
    → i ≤ bpb
    → UsedBelow sb d b
    → ((j : ℕ) → j < i → b + j < sb.size → bit (d.byte (bblock sb b)) j ≡ true)
    → UsedBelow sb d (b + i)
used_further sb d b i al le before here c lt small = elim (dec_lt c b) [
  | yes h ↦ before c h small
  | no h ↦
      let there : b + (c - b) ≡ c = omega arith in
      subst (λ z. used sb d z ≡ true) there
        (used_in_block sb d b (c - b) al (omega arith) ∙ here (c - b) (omega arith) (omega arith))
]

balloc_from-Allocated :
    (sb : Super) (fuel b : ℕ) (d : Disk)
    → IsMap sb d
    → b % bpb ≡ 0
    → sb.size ≤ b + fuel * bpb
    → UsedBelow sb d b
    → Allocated sb d (balloc_from sb fuel b d)
balloc_from-Allocated sb zero b d ok al enough before =
    inl (from_end sb 0 b d (ground arith), λ c lt. before c (omega arith) lt)
balloc_from-Allocated sb (suc fuel) b d ok al enough before = elim (Bool-cases (ltb b sb.size)) [
  | inr h ↦ inl (from_end sb (suc fuel) b d h, λ c lt. before c (ground arith) lt)
  | inl h ↦
      let found = find_bit-IsFound (d.byte (bblock sb b)) b sb.size 0 bpb in
      elim (Option-cases (find_bit (d.byte (bblock sb b)) b sb.size 0 bpb)) [
        | inl n ↦
            let all = subst (IsFound (d.byte (bblock sb b)) b sb.size 0 bpb) n found in
            let further =
              used_further sb d b bpb al (omega arith) before
                (λ j lt small. all j (omega arith) (omega arith) small) in
            subst (Allocated sb d) (sym (from_next sb fuel b d h n))
              (balloc_from-Allocated sb fuel (b + bpb) d ok (omega arith) (omega arith) further)
        | inr (i, f) ↦
            let (low, high, small, free, first) =
              subst (IsFound (d.byte (bblock sb b)) b sb.size 0 bpb) f found in
            let lt : i < bpb = omega arith in
            let clear = used_in_block sb d b i al lt ∙ free in
            let below =
              used_further sb d b i al (omega arith) before (λ j jl js. first j (omega arith) jl) in
            let nonzero : b + i ≢ 0 = λ e. used-ne sb d (b + i) 0 clear ok.boot (sym e) in
            inr (
              b + i,
              omega arith,
              from_here sb fuel b i d h f al lt,
              taken-IsAllocated sb d (b + i) ok small clear (λ c cl. below c cl (omega arith)),
            )
      ]
]

balloc-Allocated : (sb : Super) (d : Disk) → IsMap sb d → Allocated sb d (balloc sb d)
unfolding balloc
balloc-Allocated sb d ok =
    balloc_from-Allocated sb (sb.size / bpb + 1) 0 d ok refl (omega arith)
      (λ c lt small. absurd (omega arith))

-- `balloc`, where the bitmap marks itself and block 0 in use, takes the first free block: it returns its number,
-- has it zeroed and marked, and changes neither the mark of another block nor the content of another block
-- outside the bitmap. It returns 0, and changes nothing, exactly when every block is in use. It calls `log_write`
-- at most twice, which does not panic where an operation is in and the log has room for the two blocks.
pub balloc_allocates :
    (sb : Super) (d : Disk)
    → IsMap sb d
    → Allocated sb d (balloc sb d) × LogsAtMost 2 d.log (balloc sb d).1.log
balloc_allocates sb d ok = (balloc-Allocated sb d ok, balloc_logs sb d)
