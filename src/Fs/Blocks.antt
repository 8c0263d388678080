-- ===== src/Fs/Blocks.antt =====
-- The blocks of a file of kernel/fs.c: which block of the disk holds which block of the file.
use intro2os_project.Prelude.{
  ℕ, ◌-◌, ◌<◌, ◌≡◌, ◌≢◌, sym, ap, ◌∙◌, subst, Bool, true, false, ◌==◌, ltb, if◌then◌else◌, arith,
  ℕ_discrete,
}
use intro2os_project.Fs.{Dinode}
use intro2os_project.Fs.Disk.{Super, Disk, bblock, ndirect, maxfile}
use intro2os_project.Fs.Bitmap.{used}

-- The block that holds block `bn` of the file, or 0.
abbrev pub block_of : Disk → Dinode → ℕ → ℕ
block_of d ip bn =
    if ltb bn ndirect
    then ip.addrs bn
    else if ip.addrs ndirect == 0
    then 0
    else d.word (ip.addrs ndirect) (bn - ndirect)

-- The byte `i` of block `bn` of the file; a block that the file has not reads as zeros.
abbrev pub block_byte : Disk → Dinode → ℕ → ℕ → ℕ
block_byte d ip bn i = if block_of d ip bn == 0 then 0 else d.byte (block_of d ip bn) i

-- A block in use that is no part of the map.
abbrev pub IsData : Super → (ℕ → Bool) → ℕ → Type 0
IsData sb u b = (u b ≡ true) × (b < sb.size) × ((c : ℕ) → c < sb.size → bblock sb c ≢ b)

-- No block serves twice in a file with the blocks `blk` and the indirect block `ind`.
pub record IsFile (sb : Super) (u : ℕ → Bool) (blk : ℕ → ℕ) (ind : ℕ) : Type 0 where
  pub content : (bn : ℕ) → bn < maxfile → blk bn ≢ 0 → IsData sb u (blk bn)
  pub table : ind ≢ 0 → IsData sb u ind
  pub apart : (bn : ℕ) → bn < maxfile → blk bn ≢ 0 → ind ≢ blk bn
  pub single : (bn bm : ℕ) → bn < maxfile → bm < maxfile → blk bn ≢ 0 → blk bn ≡ blk bm → bn ≡ bm

abbrev pub FileOn : Super → Disk → Dinode → Type 0
FileOn sb d ip = IsFile sb (used sb d) (block_of d ip) (ip.addrs ndirect)

-- Blocks stay in use.
abbrev pub StaysUsed : Super → (ℕ → Bool) → (ℕ → Bool) → Type 0
StaysUsed sb u u' = (b : ℕ) → b < sb.size → u b ≡ true → u' b ≡ true

still-IsData :
    (sb : Super) (u u' : ℕ → Bool) (b : ℕ) → StaysUsed sb u u' → IsData sb u b → IsData sb u' b
still-IsData sb u u' b k (y, low, m) = (k b low y, low, m)

u-ne : (u : ℕ → Bool) (a b : ℕ) → u a ≡ false → u b ≡ true → b ≢ a
u-ne u a b f t e = ground (arith, ap u e)

-- A free block becomes block `bn` of the file.
pub data-IsFile :
    (sb : Super) (u u' : ℕ → Bool) (blk blk' : ℕ → ℕ) (ind bn a : ℕ)
    → IsFile sb u blk ind
    → StaysUsed sb u u'
    → u a ≡ false
    → IsData sb u' a
    → 0 < a
    → blk' bn ≡ a
    → ((bm : ℕ) → bm < maxfile → bm ≢ bn → blk' bm ≡ blk bm)
    → IsFile sb u' blk' ind
data-IsFile sb u u' blk blk' ind bn a f k free fresh pos here others = record {
  content = λ bm lt n. elim (ℕ_discrete bm bn) [
    | yes e ↦ subst (IsData sb u') (sym (ap blk' e ∙ here)) fresh
    | no ne ↦
        let same = others bm lt ne in
        subst (IsData sb u') (sym same)
          (still-IsData sb u u' (blk bm) k (f.content bm lt (λ z. n (same ∙ z))))
  ];
  table = λ n. still-IsData sb u u' ind k (f.table n);
  apart = λ bm lt n. elim (ℕ_discrete bm bn) [
    | yes e ↦ λ q.
        let there : ind ≡ a = q ∙ ap blk' e ∙ here in
        u-ne u a ind free (f.table (λ z. omega arith)).0 there
    | no ne ↦
        let same = others bm lt ne in
        subst (λ z. ind ≢ z) (sym same) (f.apart bm lt (λ z. n (same ∙ z)))
  ];
  single = λ bm bk lm lk n e. elim (ℕ_discrete bm bn) [
    | yes p ↦ elim (ℕ_discrete bk bn) [
      | yes q ↦ p ∙ sym q
      | no nq ↦ absurd (strange bk lk nq (sym here ∙ sym (ap blk' p) ∙ e))
    ]
    | no np ↦ elim (ℕ_discrete bk bn) [
      | yes q ↦ absurd (strange bm lm np (sym here ∙ sym (ap blk' q) ∙ sym e))
      | no nq ↦
          f.single bm bk lm lk (λ z. n (others bm lm np ∙ z))
            (sym (others bm lm np) ∙ e ∙ others bk lk nq)
    ]
  ];
}
  where
    strange : (bm : ℕ) → bm < maxfile → bm ≢ bn → a ≡ blk' bm → ⊥
    strange bm lt ne e =
        let there : blk bm ≡ a = sym (others bm lt ne) ∙ sym e in
        u-ne u a (blk bm) free (f.content bm lt (λ z. omega arith)).0 there

-- A free block becomes the indirect block.
pub table-IsFile :
    (sb : Super) (u u' : ℕ → Bool) (blk blk' : ℕ → ℕ) (a : ℕ)
    → IsFile sb u blk 0
    → StaysUsed sb u u'
    → u a ≡ false
    → IsData sb u' a
    → ((bm : ℕ) → bm < maxfile → blk' bm ≡ blk bm)
    → IsFile sb u' blk' a
table-IsFile sb u u' blk blk' a f k free fresh same = record {
  content = λ bm lt n.
      subst (IsData sb u') (sym (same bm lt))
        (still-IsData sb u u' (blk bm) k (f.content bm lt (λ z. n (same bm lt ∙ z))));
  table = λ n. fresh;
  apart = λ bm lt n e.
      u-ne u a (blk bm) free (f.content bm lt (λ z. n (same bm lt ∙ z))).0 (sym (e ∙ same bm lt));
  single = λ bm bk lm lk n e.
      f.single bm bk lm lk (λ z. n (same bm lm ∙ z)) (sym (same bm lm) ∙ e ∙ same bk lk);
}

-- The same file while its blocks stay in use.
pub IsFile-stays :
    (sb : Super) (u u' : ℕ → Bool) (blk : ℕ → ℕ) (ind : ℕ)
    → StaysUsed sb u u'
    → IsFile sb u blk ind
    → IsFile sb u' blk ind
IsFile-stays sb u u' blk ind k f = record {
  content = λ bn lt n. still-IsData sb u u' (blk bn) k (f.content bn lt n);
  table = λ n. still-IsData sb u u' ind k (f.table n);
  apart = f.apart;
  single = f.single;
}
