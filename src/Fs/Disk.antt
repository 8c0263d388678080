-- ===== src/Fs/Disk.antt =====
-- kernel/fs.c: blocks of the disk, their bitmap, and the inodes on it, as a transaction sees them. A block is
-- used for bytes or for the 32-bit words of an indirect block, and the two uses are kept apart: `byte` holds
-- the one, `word` the other. The inode blocks are the table `inode`. Every change of a block is followed by the
-- `log_write` of kernel/log.c. The scan of `balloc` counts in an `int`, so a disk has less than 2 ^ 31 blocks.
use intro2os_project.Prelude.{
  ℕ, zero, suc, ◌+◌, ◌-◌, ◌/◌, ◌%◌, ◌^◌, Bool, true, false, Option, none, some, ◌==◌, ltb,
  if◌then◌else◌, update,
}
use intro2os_project.Fs.{Dinode}
use intro2os_project.Log
use intro2os_project.Log.{Log, Store}

-- BSIZE, BPB, NDIRECT, NINDIRECT and MAXFILE
abbrev pub bsize : ℕ
bsize = 1024

abbrev pub bpb : ℕ
bpb = 8192

abbrev pub ndirect : ℕ
ndirect = 12

abbrev pub nindirect : ℕ
nindirect = 256

abbrev pub maxfile : ℕ
maxfile = 268

-- `struct superblock`, less what only `fsinit` and `mkfs` read.
pub record Super : Type 0 where
  pub size : ℕ
  pub ninodes : ℕ
  pub inodestart : ℕ
  pub bmapstart : ℕ

-- The blocks as the buffers have them; `log` is the log with its store, from which only the pins are used here,
-- and none as soon as a `log_write` has panicked: what the code does from there on does not count.
pub record Disk : Type 0 where
  pub byte : ℕ → ℕ → ℕ
  pub word : ℕ → ℕ → ℕ
  pub inode : ℕ → Dinode
  pub log : Option (Log × Store)

-- `log_write` of the buffer of block `b`
unfoldable pub noted : ℕ → Option (Log × Store) → Option (Log × Store)
noted b none = none
noted b (some (l, s)) = Log.log_write b l s

abbrev pub log_write : ℕ → Disk → Disk
log_write b d = record d { log = noted b d.log }

-- BBLOCK
abbrev pub bblock : Super → ℕ → ℕ
bblock sb b = b / bpb + sb.bmapstart

-- IBLOCK, with IPB
abbrev pub iblock : Super → ℕ → ℕ
iblock sb inum = inum / 16 + sb.inodestart

-- `data[bi/8] & m`, and its set and clear
abbrev pub bit : (ℕ → ℕ) → ℕ → Bool
bit old bi = old (bi / 8) / 2 ^ (bi % 8) % 2 == 1

abbrev pub set_bit : (ℕ → ℕ) → ℕ → ℕ → ℕ
set_bit old bi = if bit old bi then old else update old (bi / 8) (old (bi / 8) + 2 ^ (bi % 8))

abbrev pub clear_bit : (ℕ → ℕ) → ℕ → ℕ → ℕ
clear_bit old bi = if bit old bi then update old (bi / 8) (old (bi / 8) - 2 ^ (bi % 8)) else old

-- `bzero`
unfoldable pub bzero : ℕ → Disk → Disk
bzero bno d =
    log_write bno
      (record d { byte = update d.byte bno (λ i. 0); word = update d.word bno (λ i. 0) })

-- The inner loop of `balloc` at bit `bi`, with `k` to go.
unfoldable pub find_bit : (ℕ → ℕ) → ℕ → ℕ → ℕ → ℕ → Option ℕ
find_bit old b size bi zero = none
find_bit old b size bi (suc k) =
    let rest = find_bit old b size (bi + 1) k in
    if ltb (b + bi) size then (if bit old bi then rest else some bi) else none

-- The outer loop of `balloc` at block `b`, with fuel for its rounds.
unfoldable pub balloc_from : Super → ℕ → ℕ → Disk → ℕ × Disk
balloc_from sb zero b d = (0, d)
balloc_from sb (suc fuel) b d = elim (ltb b sb.size) [
  | false ↦ (0, d)
  | true ↦ elim (find_bit (d.byte (bblock sb b)) b sb.size 0 bpb) [
    | none ↦ balloc_from sb fuel (b + bpb) d
    | some bi ↦ (
      b + bi,
      bzero (b + bi) (
          log_write (bblock sb b)
            (record d { byte = update d.byte (bblock sb b) (set_bit (d.byte (bblock sb b)) bi) })),
    )
  ]
]

-- `balloc`
unfoldable pub balloc : Super → Disk → ℕ × Disk
balloc sb d = balloc_from sb (sb.size / bpb + 1) 0 d

-- `bfree`; `none` is its panic.
unfoldable pub bfree : Super → ℕ → Disk → Option Disk
bfree sb b d =
    if bit (d.byte (bblock sb b)) (b % bpb)
    then some (
        log_write (bblock sb b) (record d {
          byte = update d.byte (bblock sb b) (clear_bit (d.byte (bblock sb b)) (b % bpb));
        }))
    else none

-- The address at index `i` of the inode, with a block allocated where there is none; 0 when there is no space.
unfoldable pub direct : Super → ℕ → Dinode → Disk → ℕ × (Dinode × Disk)
direct sb i ip d = elim (ip.addrs i == 0) [
  | false ↦ (ip.addrs i, (ip, d))
  | true ↦
      let (a, d') = balloc sb d in
      (a, (if a == 0 then ip else record ip { addrs = update ip.addrs i a }, d'))
]

-- The word `i` of the indirect block `a0`, likewise.
unfoldable pub indirect : Super → ℕ → ℕ → Disk → ℕ × Disk
indirect sb a0 i d = elim (d.word a0 i == 0) [
  | false ↦ (d.word a0 i, d)
  | true ↦
      let (a, d') = balloc sb d in
      (
        a,
        if a == 0
            then d'
            else log_write a0 (record d' { word = update d'.word a0 (update (d'.word a0) i a) }),
      )
]

-- `bmap`; `none` is its panic.
unfoldable pub bmap : Super → ℕ → Dinode → Disk → Option (ℕ × (Dinode × Disk))
bmap sb bn ip d =
    if ltb bn ndirect
    then some (direct sb bn ip d)
    else if ltb (bn - ndirect) nindirect
    then (let (a0, (ip', d')) = direct sb ndirect ip d in
        if a0 == 0
        then some (0, (ip', d'))
        else (let (a, d2) = indirect sb a0 (bn - ndirect) d' in some (a, (ip', d2))))
    else none

-- The loops of `itrunc` at index `i`, with `k` to go.
unfoldable pub free_direct : Super → ℕ → ℕ → Dinode → Disk → Option (Dinode × Disk)
free_direct sb i zero ip d = some (ip, d)
free_direct sb i (suc k) ip d = elim (ip.addrs i == 0) [
  | true ↦ free_direct sb (i + 1) k ip d
  | false ↦ elim (bfree sb (ip.addrs i) d) [
    | none ↦ none
    | some d' ↦ free_direct sb (i + 1) k (record ip { addrs = update ip.addrs i 0 }) d'
  ]
]

-- `a` is the indirect block as it was read: the blocks freed are no part of it.
unfoldable pub free_indirect : Super → (ℕ → ℕ) → ℕ → ℕ → Disk → Option Disk
free_indirect sb a j zero d = some d
free_indirect sb a j (suc k) d = elim (a j == 0) [
  | true ↦ free_indirect sb a (j + 1) k d
  | false ↦ elim (bfree sb (a j) d) [ none ↦ none | some d' ↦ free_indirect sb a (j + 1) k d' ]
]

-- `iupdate` of the inode number `inum`
unfoldable pub iupdate : Super → ℕ → Dinode → Disk → Disk
iupdate sb inum ip d = log_write (iblock sb inum) (record d { inode = update d.inode inum ip })

-- The second half of `itrunc`, from the test of the indirect block on.
unfoldable pub trunc_end : Super → ℕ → Dinode → Disk → Option (Dinode × Disk)
trunc_end sb inum ip d = elim (ip.addrs ndirect == 0) [
  | true ↦ let ip' = record ip { size = 0 } in some (ip', iupdate sb inum ip' d)
  | false ↦ elim (free_indirect sb (d.word (ip.addrs ndirect)) 0 nindirect d) [
    | none ↦ none
    | some d' ↦ elim (bfree sb (ip.addrs ndirect) d') [
      | none ↦ none
      | some d2 ↦
          let ip' = record ip { addrs = update ip.addrs ndirect 0; size = 0 } in
          some (ip', iupdate sb inum ip' d2)
    ]
  ]
]

-- `itrunc`
unfoldable pub itrunc : Super → ℕ → Dinode → Disk → Option (Dinode × Disk)
itrunc sb inum ip d = elim (free_direct sb 0 ndirect ip d) [
  | none ↦ none
  | some (ip', d') ↦ trunc_end sb inum ip' d'
]

-- The loop of `ialloc` at `inum`, with `k` to go: the inode, or 0.
unfoldable pub ialloc_from : Super → ℕ → ℕ → ℕ → Disk → ℕ × Disk
ialloc_from sb ftype inum zero d = (0, d)
ialloc_from sb ftype inum (suc k) d =
    let rest = ialloc_from sb ftype (inum + 1) k d in
    if (d.inode inum).ftype == 0
    then (
      inum,
      log_write (iblock sb inum) (record d {
        inode =
            update d.inode inum
              (record { ftype = ftype; major = 0; minor = 0; nlink = 0; size = 0; addrs = λ i. 0 });
      }),
    )
    else rest

-- `ialloc`, up to the call of `iget`
unfoldable pub ialloc : Super → ℕ → Disk → ℕ × Disk
ialloc sb ftype d = ialloc_from sb ftype 1 (sb.ninodes - 1) d
