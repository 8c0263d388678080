-- ===== src/Fs/Index.antt =====
-- The branches of `bmap` of kernel/fs.c, and the blocks of a file by index.
use intro2os_project.Prelude.{
  ℕ, ◌-◌, ◌≤◌, ◌<◌, ◌≡◌, ◌≢◌, refl, sym, ap, ◌∙◌, true, false, ◌==◌, ltb, update, arith, ℕ_discrete,
  dec_lt,
}
use intro2os_project.Fs.{Dinode}
use intro2os_project.Fs.Disk.{Super, Disk, log_write, ndirect, balloc, direct, indirect}
use intro2os_project.Fs.Bitmap.{used}
use intro2os_project.Fs.Blocks.{block_of}
use intro2os_project.Fs.Extend.{IsExtended}

-- What `bmap` of block `bn` leaves: the block, or 0 when every block of the disk is in use.
pub record IsBlock (sb : Super) (bn : ℕ) (d : Disk) (ip : Dinode) (a : ℕ) (d' : Disk) (ip' : Dinode)
    : Type 0 where
  pub ext : IsExtended sb bn d ip d' ip'
  pub here : block_of d' ip' bn ≡ a
  pub full : a ≡ 0 → (b : ℕ) → b < sb.size → used sb d' b ≡ true

-- The inode with a new address, and the disk with a new word of an indirect block.
abbrev pub with_addr : Dinode → ℕ → ℕ → Dinode
with_addr ip i a = record ip { addrs = update ip.addrs i a }

abbrev pub with_word : Disk → ℕ → ℕ → ℕ → Disk
with_word d a0 i a = log_write a0 (record d { word = update d.word a0 (update (d.word a0) i a) })

pub direct_there :
    (sb : Super) (i : ℕ) (ip : Dinode) (d : Disk)
    → ip.addrs i ≢ 0
    → direct sb i ip d ≡ (ip.addrs i, (ip, d))
unfolding direct
direct_there sb i ip d n = let t : (ip.addrs i == 0) ≡ false = ground arith in rw (direct, t) refl

pub direct_full :
    (sb : Super) (i : ℕ) (ip : Dinode) (d : Disk)
    → ip.addrs i ≡ 0
    → balloc sb d ≡ (0, d)
    → direct sb i ip d ≡ (0, (ip, d))
unfolding direct
direct_full sb i ip d z e =
    let t : (ip.addrs i == 0) ≡ true = ground arith in rw (direct, t, e) refl

pub direct_new :
    (sb : Super) (i a : ℕ) (ip : Dinode) (d d' : Disk)
    → ip.addrs i ≡ 0
    → balloc sb d ≡ (a, d')
    → 0 < a
    → direct sb i ip d ≡ (a, (with_addr ip i a, d'))
unfolding direct
direct_new sb i a ip d d' z e pos =
    let t : (ip.addrs i == 0) ≡ true = ground arith in
    let q : (a == 0) ≡ false = ground arith in rw (direct, t, e, q) refl

pub indirect_there :
    (sb : Super) (a0 i : ℕ) (d : Disk) → d.word a0 i ≢ 0 → indirect sb a0 i d ≡ (d.word a0 i, d)
unfolding indirect
indirect_there sb a0 i d n =
    let t : (d.word a0 i == 0) ≡ false = ground arith in rw (indirect, t) refl

pub indirect_full :
    (sb : Super) (a0 i : ℕ) (d : Disk)
    → d.word a0 i ≡ 0
    → balloc sb d ≡ (0, d)
    → indirect sb a0 i d ≡ (0, d)
unfolding indirect
indirect_full sb a0 i d z e =
    let t : (d.word a0 i == 0) ≡ true = ground arith in rw (indirect, t, e) refl

pub indirect_new :
    (sb : Super) (a0 i a : ℕ) (d d' : Disk)
    → d.word a0 i ≡ 0
    → balloc sb d ≡ (a, d')
    → 0 < a
    → indirect sb a0 i d ≡ (a, with_word d' a0 i a)
unfolding indirect
indirect_new sb a0 i a d d' z e pos =
    let t : (d.word a0 i == 0) ≡ true = ground arith in
    let q : (a == 0) ≡ false = ground arith in rw (indirect, t, e, q) refl

-- The blocks of a file by index.
pub of_direct : (d : Disk) (ip : Dinode) (bn : ℕ) → bn < ndirect → block_of d ip bn ≡ ip.addrs bn
of_direct d ip bn lt = let t : ltb bn ndirect ≡ true = ground arith in rw t refl

pub of_none :
    (d : Disk) (ip : Dinode) (bn : ℕ) → ndirect ≤ bn → ip.addrs ndirect ≡ 0 → block_of d ip bn ≡ 0
of_none d ip bn ge z = let t : ltb bn ndirect ≡ false = ground arith in rw (t, z) refl

pub of_indirect :
    (d : Disk) (ip : Dinode) (bn : ℕ)
    → ndirect ≤ bn
    → ip.addrs ndirect ≢ 0
    → block_of d ip bn ≡ d.word (ip.addrs ndirect) (bn - ndirect)
of_indirect d ip bn ge n =
    let t : ltb bn ndirect ≡ false = ground arith in
    let q : (ip.addrs ndirect == 0) ≡ false = ground arith in rw (t, q) refl

pub of_same :
    (d d' : Disk) (ip ip' : Dinode) (bm : ℕ)
    → (bm < ndirect → ip'.addrs bm ≡ ip.addrs bm)
    → ip'.addrs ndirect ≡ ip.addrs ndirect
    → (ndirect ≤ bm
        → ip.addrs ndirect ≢ 0
        → d'.word (ip.addrs ndirect) (bm - ndirect) ≡ d.word (ip.addrs ndirect) (bm - ndirect))
    → block_of d' ip' bm ≡ block_of d ip bm
of_same d d' ip ip' bm low ind word = elim (dec_lt bm ndirect) [
  | yes lt ↦ of_direct d' ip' bm lt ∙ low lt ∙ sym (of_direct d ip bm lt)
  | no ge ↦ elim (ℕ_discrete (ip.addrs ndirect) 0) [
    | yes z ↦ of_none d' ip' bm (omega arith) (ind ∙ z) ∙ sym (of_none d ip bm (omega arith) z)
    | no n ↦
        of_indirect d' ip' bm (omega arith) (λ z. n (sym ind ∙ z))
        ∙ ap (λ z. d'.word z (bm - ndirect)) ind
        ∙ word (omega arith) n
        ∙ sym (of_indirect d ip bm (omega arith) n)
  ]
]
