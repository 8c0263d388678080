-- ===== src/Fs/Writing.antt =====
-- `writei` of kernel/fs.c from the kernel's memory.
use intro2os_project.Prelude.{
  ℕ, zero, suc, ◌+◌, ◌-◌, ◌*◌, ◌/◌, ◌%◌, ◌≤◌, ◌<◌, ◌≡◌, ◌≢◌, ◌⊎◌, inl, inr, refl, sym, ap, ◌∙◌,
  true, false, some, ◌==◌, ltb, arith, ℕ_discrete, dec_lt,
}
use intro2os_project.Fs.{Dinode}
use intro2os_project.Fs.Disk.{Super, Disk, noted, bsize, maxfile, bmap}
use intro2os_project.Fs.Content.{from_kernel, stored, piece, writei_from}
use intro2os_project.Fs.Logging.{
  LogsAtMost, logs_none, logs_more, logs_then, noted_logs, bmap_logs, touched, touched_pos,
  touched_next,
}
use intro2os_project.Fs.Bitmap.{used}
use intro2os_project.Fs.Balloc.{IsMap}
use intro2os_project.Fs.Blocks.{FileOn, block_of}
use intro2os_project.Fs.Extend.{extended_stays}
use intro2os_project.Fs.Bmap.{bmap_extends}
use intro2os_project.Fs.Write.{
  file_byte, with_block, put_at, put_in, put_out, written-IsMap, written-FileOn, piece_written,
}

-- The file after `k` of `left` bytes of `mem` from `src` on were put at `off`.
pub record IsWrote (sb : Super) (mem : ℕ → ℕ) (src off left : ℕ) (d : Disk) (ip : Dinode) (k : ℕ)
    (d' : Disk) (ip' : Dinode) : Type 0 where
  pub map : IsMap sb d'
  pub file : FileOn sb d' ip'
  pub count : k ≤ left
  pub short : k < left → (b : ℕ) → b < sb.size → used sb d' b ≡ true
  pub bytes :
      (x : ℕ) → x < maxfile * bsize → file_byte d' ip' x ≡ put_at mem src off k (file_byte d ip) x
  pub stays : (bm : ℕ) → bm < maxfile → block_of d ip bm ≢ 0 → block_of d' ip' bm ≢ 0
  pub present : (x : ℕ) → off ≤ x → x < off + k → block_of d' ip' (x / bsize) ≢ 0
  pub size : ip'.size ≡ ip.size
  pub inodes : d'.inode ≡ d.inode
  pub logs : LogsAtMost (6 * touched off left) d.log d'.log

module _ (mem : ℕ → ℕ) (sb : Super) where
  write_done :
      (fuel src off tot : ℕ) (ip : Dinode) (d : Disk)
      → writei_from (from_kernel mem) sb fuel src off tot 0 ip d ≡ some (tot, (off, (ip, d)))
  unfolding writei_from
  write_done zero src off tot ip d = refl
  write_done (suc fuel) src off tot ip d = refl

  write_full :
      (fuel src off tot left : ℕ) (ip ip' : Dinode) (d d' : Disk)
      → 0 < left
      → bmap sb (off / bsize) ip d ≡ some (0, (ip', d'))
      → writei_from (from_kernel mem) sb (suc fuel) src off tot left ip d
        ≡ some (tot, (off, (ip', d')))
  unfolding writei_from
  write_full fuel src off tot left ip ip' d d' h e =
      let more : ltb 0 left ≡ true = ground arith in rw (writei_from, more, e) refl

  write_on :
      (fuel src off tot left a : ℕ) (ip ip' : Dinode) (d d' : Disk)
      → 0 < left
      → bmap sb (off / bsize) ip d ≡ some (a, (ip', d'))
      → a ≢ 0
      → writei_from (from_kernel mem) sb (suc fuel) src off tot left ip d
        ≡ writei_from
            (from_kernel mem)
            sb
            fuel
            (src + piece off left)
            (off + piece off left)
            (tot + piece off left)
            (left - piece off left)
            ip'
            (with_block d' a
              (stored (d'.byte a) (off % bsize) (from_kernel mem src (piece off left))))
  unfolding writei_from
  write_on fuel src off tot left a ip ip' d d' h e n =
      let more : ltb 0 left ≡ true = ground arith in
      let there : (a == 0) ≡ false = ground arith in rw (writei_from, more, e, there) refl

  pub put_more :
      (src off n k x : ℕ) (old : ℕ → ℕ)
      → put_at mem (src + n) (off + n) k (put_at mem src off n old) x
        ≡ put_at mem src off (n + k) old x
  put_more src off n k x old = elim (dec_lt x off) [
    | yes h ↦
        put_out mem (put_at mem src off n old) (src + n) (off + n) k x (inl (omega arith))
        ∙ put_out mem old src off n x (inl h)
        ∙ sym (put_out mem old src off (n + k) x (inl h))
    | no h ↦ elim (dec_lt x (off + n)) [
      | yes c ↦
          put_out mem (put_at mem src off n old) (src + n) (off + n) k x (inl c)
          ∙ put_in mem old src off n x (omega arith) c
          ∙ sym (put_in mem old src off (n + k) x (omega arith) (omega arith))
      | no c ↦ elim (dec_lt x (off + n + k)) [
        | yes g ↦
            let index : src + n + (x - (off + n)) ≡ src + (x - off) = omega arith in
            put_in mem (put_at mem src off n old) (src + n) (off + n) k x (omega arith) g
            ∙ ap mem index
            ∙ sym (put_in mem old src off (n + k) x (omega arith) (omega arith))
        | no g ↦
            put_out mem (put_at mem src off n old) (src + n) (off + n) k x (inr (omega arith))
            ∙ put_out mem old src off n x (inr (omega arith))
            ∙ sym (put_out mem old src off (n + k) x (inr (omega arith)))
      ]
    ]
  ]

  pub put_ext :
      (src off k x : ℕ) (f g : ℕ → ℕ)
      → f x ≡ g x
      → put_at mem src off k f x ≡ put_at mem src off k g x
  put_ext src off k x f g e = rw e refl

  pub piece_fit :
      (off left : ℕ)
      → 0 < left
      → (0 < piece off left) × (piece off left ≤ left) × (off % bsize + piece off left ≤ bsize)
  piece_fit off left h = elim (dec_lt left (bsize - off % bsize)) [
    | yes lt ↦
        let e : piece off left ≡ left = ground arith in (omega arith, omega arith, omega arith)
    | no ge ↦
        let e : piece off left ≡ bsize - off % bsize = ground arith in
        (omega arith, omega arith, omega arith)
  ]

  pub piece_full :
      (off left : ℕ) → (left - piece off left ≡ 0) ⊎ (off % bsize + piece off left ≡ bsize)
  piece_full off left = elim (dec_lt left (bsize - off % bsize)) [
    | yes lt ↦ let e : piece off left ≡ left = ground arith in inl (omega arith)
    | no ge ↦ let e : piece off left ≡ bsize - off % bsize = ground arith in inr (omega arith)
  ]

  in_block :
      (off p x : ℕ) → off ≤ x → x < off + p → off % bsize + p ≤ bsize → off / bsize ≡ x / bsize
  in_block off p x ge lt fit = omega arith

  abbrev pub Wrote : ℕ → ℕ → ℕ → ℕ → ℕ → Dinode → Disk → Type 0
  Wrote fuel src off tot left ip d =
      (k : ℕ) × (ip' : Dinode) × (d' : Disk) × (writei_from (from_kernel mem) sb fuel src off tot
          left ip d
        ≡ some (tot + k, (off + k, (ip', d'))))
      × IsWrote sb mem src off left d ip k d' ip'

  nothing-IsWrote :
      (src off left : ℕ) (d d' : Disk) (ip ip' : Dinode)
      → IsMap sb d'
      → FileOn sb d' ip'
      → (0 < left → (b : ℕ) → b < sb.size → used sb d' b ≡ true)
      → ((x : ℕ) → x < maxfile * bsize → file_byte d' ip' x ≡ file_byte d ip x)
      → ((bm : ℕ) → bm < maxfile → block_of d ip bm ≢ 0 → block_of d' ip' bm ≢ 0)
      → ip'.size ≡ ip.size
      → d'.inode ≡ d.inode
      → LogsAtMost (6 * touched off left) d.log d'.log
      → IsWrote sb mem src off left d ip 0 d' ip'
  nothing-IsWrote src off left d d' ip ip' m f full same stay sz ino logs = record {
    logs = logs;
    stays = stay;
    present = λ x ge lt. absurd (omega arith);
    map = m;
    file = f;
    count = omega arith;
    short = full;
    bytes = λ x lt. same x lt ∙ sym (put_none x);
    size = sz;
    inodes = ino;
  }
    where
      put_none : (x : ℕ) → put_at mem src off 0 (file_byte d ip) x ≡ file_byte d ip x
      put_none x =
          put_out mem (file_byte d ip) src off 0 x
            (elim (dec_lt x off) [ yes h ↦ inl h | no h ↦ inr (omega arith) ])

  pub writei_from-Wrote :
      (fuel src off tot left : ℕ) (ip : Dinode) (d : Disk)
      → IsMap sb d
      → FileOn sb d ip
      → off + left ≤ maxfile * bsize
      → left ≤ fuel
      → Wrote fuel src off tot left ip d
  writei_from-Wrote fuel src off tot zero ip d m f fit h =
      let t : tot + 0 ≡ tot = omega arith in
      let o : off + 0 ≡ off = omega arith in
      (
        0,
        ip,
        d,
        rw (t, o) (write_done fuel src off tot ip d),
        nothing-IsWrote src off 0 d d ip ip m f (λ q. absurd (omega arith)) (λ x lt. refl)
            (λ bm lt z. z) refl refl (logs_none (6 * touched off 0) d.log),
      )
  writei_from-Wrote zero src off tot (suc left) ip d m f fit h = absurd (omega arith)
  writei_from-Wrote (suc fuel) src off tot (suc left) ip d m f fit h =
      let (a, ip1, d1, e, r) = bmap_extends sb (off / bsize) ip d m f (omega arith) in
      let logs1 = bmap_logs sb (off / bsize) a ip ip1 d d1 (omega arith) e in
      let t : tot + 0 ≡ tot = omega arith in
      let o : off + 0 ≡ off = omega arith in
      elim (ℕ_discrete a 0) [
        | yes z ↦ (
          0,
          ip1,
          d1,
          rw (t, o)
              (write_full fuel src off tot (suc left) ip ip1 d d1 (omega arith)
                (e ∙ ap (λ y. some (y, (ip1, d1))) z)),
          nothing-IsWrote src off (suc left) d d1 ip ip1 r.ext.map r.ext.file (λ q. r.full z)
              (λ x lt. r.ext.bytes (x / bsize) (x % bsize) (omega arith))
              (λ bm lt. extended_stays sb (off / bsize) bm d d1 ip ip1 r.ext lt) r.ext.size
              r.ext.inodes
              (logs_more 5 (6 * touched off (suc left)) d.log d1.log
                (let t = touched_pos off (suc left) (omega arith) in omega arith) logs1),
        )
        | no n ↦
            let (low, le, within) = piece_fit off (suc left) (omega arith) in
            let p = piece off (suc left) in
            let new = stored (d1.byte a) (off % bsize) (from_kernel mem src p) in
            let m2 =
              written-IsMap sb d1 ip1 a (off / bsize) r.ext.map r.ext.file (omega arith) r.here n
                new in
            let f2 =
              written-FileOn sb d1 ip1 a (off / bsize) r.ext.map r.ext.file (omega arith) r.here n
                new in
            let (k, ip2, d2, e2, w) =
              writei_from-Wrote fuel (src + p) (off + p) (tot + p) (suc left - p) ip1
                (with_block d1 a new) m2 f2 (omega arith) (omega arith) in
            let t2 : tot + (p + k) ≡ tot + p + k = omega arith in
            let o2 : off + (p + k) ≡ off + p + k = omega arith in
            (
              p + k,
              ip2,
              d2,
              rw (t2, o2)
                  (write_on fuel src off tot (suc left) a ip ip1 d d1 (omega arith) e n ∙ e2),
              record {
                map = w.map;
                file = w.file;
                count = let c = w.count in omega arith;
                short = λ q. w.short (omega arith);
                bytes = λ x lt.
                    w.bytes x lt
                    ∙ put_ext (src + p) (off + p) k x (file_byte (with_block d1 a new) ip1)
                        (put_at mem src off p (file_byte d ip))
                        (piece_written sb d1 ip1 a off p src x mem r.ext.map r.ext.file
                            (omega arith) r.here n within lt
                          ∙ put_ext src off p x (file_byte d1 ip1) (file_byte d ip)
                              (r.ext.bytes (x / bsize) (x % bsize) (omega arith)))
                    ∙ put_more src off p k x (file_byte d ip);
                stays = λ bm lt z.
                    w.stays bm lt (extended_stays sb (off / bsize) bm d d1 ip ip1 r.ext lt z);
                present = λ x ge lt. elim (dec_lt x (off + p)) [
                  | no c ↦ w.present x (omega arith) (omega arith)
                  | yes c ↦ w.stays (x / bsize) (omega arith) (λ z.
                      n (sym r.here ∙ ap (block_of d1 ip1) (in_block off p x ge c within) ∙ z))
                ];
                size = w.size ∙ r.ext.size;
                inodes = w.inodes ∙ r.ext.inodes;
                logs =
                    logs_more (5 + 1 + 6 * touched (off + p) (suc left - p))
                      (6 * touched off (suc left)) d.log d2.log
                      (let t =
                          touched_next off (suc left) p low le within (piece_full off (suc left)) in
                        omega arith)
                      (logs_then (5 + 1) (6 * touched (off + p) (suc left - p)) d.log
                        (noted a d1.log) d2.log
                        (logs_then 5 1 d.log d1.log (noted a d1.log) logs1 (noted_logs a d1.log))
                        w.logs);
              },
            )
      ]
