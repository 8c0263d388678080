-- ===== src/Fs/Bfree.antt =====
-- `bfree` of kernel/fs.c, alone and after `balloc`.
use intro2os_project.Prelude.{
  ℕ, ◌%◌, ◌<◌, ◌≡◌, ◌≢◌, inl, inr, refl, sym, ap, ◌∙◌, subst, true, false, some, update,
  update_self, update_ne, arith, ℕ_discrete,
}
use intro2os_project.Fs.Disk.{Super, Disk, log_write, bblock, bit, clear_bit, bpb, balloc, bfree}
use intro2os_project.Fs.Logging.{LogsAtMost, noted_logs}
use intro2os_project.Fs.Bitmap.{used, bit-clear_bit_self, bit-clear_bit_other}
use intro2os_project.Fs.Balloc.{IsMap, taken, balloc_allocates}

abbrev pub freed : Super → ℕ → Disk → Disk
freed sb b d =
    log_write (bblock sb b)
      (record d { byte = update d.byte (bblock sb b) (clear_bit (d.byte (bblock sb b)) (b % bpb)) })

bfree-used :
    (sb : Super) (b : ℕ) (d : Disk) → used sb d b ≡ true → bfree sb b d ≡ some (freed sb b d)
unfolding bfree
bfree-used sb b d y = rw y refl

freed-now : (sb : Super) (b : ℕ) (d : Disk) → used sb (freed sb b d) b ≡ false
freed-now sb b d =
    ap (λ z. bit z (b % bpb))
      (update_self d.byte (bblock sb b) (clear_bit (d.byte (bblock sb b)) (b % bpb)))
    ∙ bit-clear_bit_self (d.byte (bblock sb b)) (b % bpb)

freed_other : (sb : Super) (b c : ℕ) (d : Disk) → b ≢ c → used sb (freed sb b d) c ≡ used sb d c
freed_other sb b c d n = elim (ℕ_discrete (bblock sb b) (bblock sb c)) [
  | no apart ↦ ap (λ z. bit z (c % bpb)) (update_ne d.byte (bblock sb b) _ (bblock sb c) apart)
  | yes e ↦
      let index : b % bpb ≢ c % bpb = λ f. n (omega arith) in
      subst
        (λ z.
          bit (update d.byte (bblock sb b) (clear_bit (d.byte (bblock sb b)) (b % bpb)) z) (c % bpb)
          ≡ bit (d.byte z) (c % bpb))
        e
        (ap (λ z. bit z (c % bpb))
            (update_self d.byte (bblock sb b) (clear_bit (d.byte (bblock sb b)) (b % bpb)))
          ∙ bit-clear_bit_other (d.byte (bblock sb b)) (b % bpb) (c % bpb) index)
]

-- `bfree` of the block that `balloc` returned, where the bitmap marks itself and block 0 in use, does not find the
-- block free, and restores the set of blocks in use: the mark of every block is as it was before the `balloc`. It
-- calls `log_write` at most once, which does not panic where an operation is in and the log has room for a block.
pub bfree-balloc :
    (sb : Super) (d d' : Disk) (a : ℕ)
    → IsMap sb d
    → balloc sb d ≡ (a, d')
    → a ≢ 0
    → (d2 : Disk) × (bfree sb a d' ≡ some d2)
      × LogsAtMost 1 d'.log d2.log
      × ((b : ℕ) → b < sb.size → used sb d2 b ≡ used sb d b)
bfree-balloc sb d d' a m e n = elim (balloc_allocates sb d m).0 [
  | inl (full, all) ↦ absurd (n (sym (ap (λ z. z.0) (sym full ∙ e))))
  | inr (a1, pos, e1, al) ↦
      let block : a1 ≡ a = ap (λ z. z.0) (sym e1 ∙ e) in
      let disk : taken sb a1 d ≡ d' = ap (λ z. z.1) (sym e1 ∙ e) in
      subst
        (λ z.
          (d2 : Disk) × (bfree sb z d' ≡ some d2)
          × LogsAtMost 1 d'.log d2.log
          × ((b : ℕ) → b < sb.size → used sb d2 b ≡ used sb d b))
        block
        (subst
          (λ z.
            (d2 : Disk) × (bfree sb a1 z ≡ some d2)
            × LogsAtMost 1 z.log d2.log
            × ((b : ℕ) → b < sb.size → used sb d2 b ≡ used sb d b))
          disk
          (
            freed sb a1 (taken sb a1 d),
            bfree-used sb a1 (taken sb a1 d) al.now,
            noted_logs (bblock sb a1) (taken sb a1 d).log,
            λ b lt. elim (ℕ_discrete a1 b) [
              | yes q ↦
                  subst (λ z. used sb (freed sb a1 (taken sb a1 d)) z ≡ used sb d z) q
                    (freed-now sb a1 (taken sb a1 d) ∙ sym al.free)
              | no ne ↦ freed_other sb a1 b (taken sb a1 d) ne ∙ al.rest b lt (λ q. ne (sym q))
            ],
          ))
]
