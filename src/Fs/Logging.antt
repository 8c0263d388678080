-- ===== src/Fs/Logging.antt =====
-- How many blocks the operations of kernel/fs.c log.
use intro2os_project.Prelude.{
  ℕ, zero, suc, ◌+◌, ◌-◌, ◌/◌, ◌%◌, ◌≤◌, ◌<◌, ◌≡◌, refl, sym, subst, true, false, ◌||◌, leb, ◌^◌,
  Option, some, none, ◌==◌, ltb, arith, Bool-cases, Option-cases, inl, inr, ◌⊎◌, ℕ_discrete,
}
use intro2os_project.Log.{Log, Store, find_block, logsize}
use intro2os_project.Log
use intro2os_project.Fs.{Dinode}
use intro2os_project.Fs.Disk.{
  Super, Disk, noted, bblock, bpb, ndirect, nindirect, find_bit, bzero, balloc_from, balloc, direct,
  indirect, bmap, bsize, maxfile,
}

-- An operation is in, and the log takes `k` more blocks.
pub record HasRoom (k : ℕ) (lg : Option (Log × Store)) : Type 0 where
  pub log : Log
  pub store : Store
  pub is : lg ≡ some (log, store)
  pub fits : log.n + k ≤ logsize
  pub fits_region : log.n + k < log.size
  pub in_op : 0 < log.outstanding
  pub few : log.outstanding ≤ 3

-- From the one log to the other there are at most `k` calls of `log_write`: none of them panics where there is
-- room for `k` blocks, and room for `c` more than those leaves room for `c`.
abbrev pub LogsAtMost : ℕ → Option (Log × Store) → Option (Log × Store) → Type 0
LogsAtMost k lg lg' = (c : ℕ) → HasRoom (k + c) lg → HasRoom c lg'

less_room : (k c : ℕ) (lg : Option (Log × Store)) → c ≤ k → HasRoom k lg → HasRoom c lg
less_room k c lg le r = record {
  log = r.log;
  store = r.store;
  is = r.is;
  fits = let h = r.fits in omega arith;
  fits_region = let h = r.fits_region in omega arith;
  in_op = r.in_op;
  few = r.few;
}

pub logs_none : (k : ℕ) (lg : Option (Log × Store)) → LogsAtMost k lg lg
logs_none k lg c r = less_room (k + c) c lg (omega arith) r

pub logs_more :
    (k m : ℕ) (lg lg' : Option (Log × Store)) → k ≤ m → LogsAtMost k lg lg' → LogsAtMost m lg lg'
logs_more k m lg lg' le h c r = h c (less_room (m + c) (k + c) lg (omega arith) r)

pub logs_then :
    (k m : ℕ) (lg lg1 lg2 : Option (Log × Store))
    → LogsAtMost k lg lg1
    → LogsAtMost m lg1 lg2
    → LogsAtMost (k + m) lg lg2
logs_then k m lg lg1 lg2 h g c r =
    let e : k + m + c ≡ k + (m + c) = omega arith in g c (h (m + c) (subst (λ z. HasRoom z lg) e r))

written_log :
    (b c : ℕ) (l : Log) (s : Store)
    → l.n + (1 + c) ≤ logsize
    → l.n + (1 + c) < l.size
    → 0 < l.outstanding
    → l.outstanding ≤ 3
    → HasRoom c (Log.log_write b l s)
unfolding Log.log_write
written_log b c l s fits region pos few =
    let low : (leb logsize l.n || leb (l.size - 1) l.n) ≡ false = ground arith in
    let inside : (ltb l.outstanding 1 || leb (2 ^ 31) l.outstanding) ≡ false = ground arith in
    rw (low, inside)
      (elim (Bool-cases (find_block l.block b 0 l.n == l.n)) [
        | inl new ↦ rw new (record {
          log = _;
          store = _;
          is = refl;
          fits = omega arith;
          fits_region = omega arith;
          in_op = pos;
          few = few;
        })
        | inr old ↦ rw old (record {
          log = _;
          store = _;
          is = refl;
          fits = omega arith;
          fits_region = omega arith;
          in_op = pos;
          few = few;
        })
      ])

pub noted_logs : (b : ℕ) (lg : Option (Log × Store)) → LogsAtMost 1 lg (noted b lg)
unfolding noted
noted_logs b lg c r =
    subst (λ z. HasRoom c (noted b z)) (sym r.is)
      (written_log b c r.log r.store r.fits r.fits_region r.in_op r.few)

pub bzero_logs : (bno : ℕ) (d : Disk) → LogsAtMost 1 d.log (bzero bno d).log
unfolding bzero
bzero_logs bno d = noted_logs bno d.log

balloc_from_logs :
    (sb : Super) (fuel b : ℕ) (d : Disk) → LogsAtMost 2 d.log (balloc_from sb fuel b d).1.log
unfolding balloc_from bzero
balloc_from_logs sb zero b d = logs_none 2 d.log
balloc_from_logs sb (suc fuel) b d = elim (Bool-cases (ltb b sb.size)) [
  | inr h ↦ rw (balloc_from, h) (logs_none 2 d.log)
  | inl h ↦ elim (Option-cases (find_bit (d.byte (bblock sb b)) b sb.size 0 bpb)) [
    | inl n ↦ rw (balloc_from, h, n) (balloc_from_logs sb fuel (b + bpb) d)
    | inr (i, f) ↦
        rw (balloc_from, h, f)
          (logs_then 1 1 d.log (noted (bblock sb b) d.log)
            (noted (b + i) (noted (bblock sb b) d.log)) (noted_logs (bblock sb b) d.log)
            (noted_logs (b + i) (noted (bblock sb b) d.log)))
  ]
]

pub balloc_logs : (sb : Super) (d : Disk) → LogsAtMost 2 d.log (balloc sb d).1.log
unfolding balloc
balloc_logs sb d = balloc_from_logs sb (sb.size / bpb + 1) 0 d

pub direct_logs :
    (sb : Super) (i : ℕ) (ip : Dinode) (d : Disk) → LogsAtMost 2 d.log (direct sb i ip d).1.1.log
unfolding direct
direct_logs sb i ip d = elim (Bool-cases (ip.addrs i == 0)) [
  | inl y ↦ rw (direct, y) (balloc_logs sb d)
  | inr n ↦ rw (direct, n) (logs_none 2 d.log)
]

pub indirect_logs :
    (sb : Super) (a0 i : ℕ) (d : Disk) → LogsAtMost 3 d.log (indirect sb a0 i d).1.log
unfolding indirect
indirect_logs sb a0 i d = elim (Bool-cases (d.word a0 i == 0)) [
  | inr n ↦ rw (indirect, n) (logs_none 3 d.log)
  | inl y ↦
      rw (indirect, y)
        (elim (Bool-cases ((balloc sb d).0 == 0)) [
          | inl z ↦ rw z (logs_more 2 3 d.log (balloc sb d).1.log (omega arith) (balloc_logs sb d))
          | inr z ↦ rw z (
              logs_then 2 1 d.log (balloc sb d).1.log (noted a0 (balloc sb d).1.log)
                (balloc_logs sb d) (noted_logs a0 (balloc sb d).1.log))
        ])
]

-- The log behind `bmap`.
abbrev pub log_of : Option (ℕ × (Dinode × Disk)) → Option (Log × Store)
log_of none = none
log_of (some r) = r.1.1.log

bmap_log :
    (sb : Super) (bn : ℕ) (ip : Dinode) (d : Disk)
    → bn < maxfile
    → LogsAtMost 5 d.log (log_of (bmap sb bn ip d))
unfolding bmap
bmap_log sb bn ip d lt =
    let first = direct_logs sb ndirect ip d in
    elim (Bool-cases (ltb bn ndirect)) [
      | inl low ↦
          rw (bmap, low)
            (logs_more 2 5 d.log (direct sb bn ip d).1.1.log (omega arith) (direct_logs sb bn ip d))
      | inr high ↦
          let within : ltb (bn - ndirect) nindirect ≡ true = ground arith in
          rw (bmap, high, within)
            (elim (Bool-cases ((direct sb ndirect ip d).0 == 0)) [
              | inl z ↦
                  rw z (logs_more 2 5 d.log (direct sb ndirect ip d).1.1.log (omega arith) first)
              | inr n ↦ rw n (
                  logs_then 2 3 d.log (direct sb ndirect ip d).1.1.log _ first (
                    indirect_logs sb (direct sb ndirect ip d).0 (bn - ndirect)
                      (direct sb ndirect ip d).1.1))
            ])
    ]

pub bmap_logs :
    (sb : Super) (bn a : ℕ) (ip ip' : Dinode) (d d' : Disk)
    → bn < maxfile
    → bmap sb bn ip d ≡ some (a, (ip', d'))
    → LogsAtMost 5 d.log d'.log
bmap_logs sb bn a ip ip' d d' lt e =
    subst (λ z. LogsAtMost 5 d.log (log_of z)) e (bmap_log sb bn ip d lt)

-- The blocks of a file that `left` bytes from `off` on lie in.
unfoldable pub touched : ℕ → ℕ → ℕ
touched off zero = 0
touched off (suc left) = (off + left) / bsize - off / bsize + 1

pub touched_pos : (off left : ℕ) → 0 < left → 1 ≤ touched off left
unfolding touched
touched_pos off zero h = absurd (omega arith)
touched_pos off (suc left) h = omega arith

pub touched_next :
    (off left p : ℕ)
    → 0 < p
    → p ≤ left
    → off % bsize + p ≤ bsize
    → left - p ≡ 0 ⊎ off % bsize + p ≡ bsize
    → touched (off + p) (left - p) + 1 ≤ touched off left
unfolding touched
touched_next off zero p pos le fit full = absurd (omega arith)
touched_next off (suc left) p pos le fit full = elim (ℕ_discrete (suc left - p) 0) [
  | yes z ↦ rw z (omega arith)
  | no n ↦
      let rest : suc left - p ≡ suc (left - p) = omega arith in
      rw rest (elim full [ inl z ↦ absurd (n z) | inr f ↦ omega (arith, f) ])
]
