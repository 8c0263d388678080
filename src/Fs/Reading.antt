-- ===== src/Fs/Reading.antt =====
-- The loop of `readi` of kernel/fs.c into the kernel's memory.
use intro2os_project.Prelude.{
  ℕ, zero, suc, ◌+◌, ◌-◌, ◌*◌, ◌/◌, ◌%◌, ◌≤◌, ◌<◌, ◌≡◌, ◌≢◌, inl, inr, refl, sym, ap, ◌∙◌, true,
  false, some, ◌==◌, ltb, leb, arith, ℕ_discrete, dec_lt,
}
use intro2os_project.Fs.{Dinode}
use intro2os_project.Fs.Disk.{Super, Disk, bsize, maxfile, bmap}
use intro2os_project.Fs.Content.{Transfer, to_kernel, piece, readi_from}
use intro2os_project.Fs.Bitmap.{used}
use intro2os_project.Fs.Balloc.{IsMap}
use intro2os_project.Fs.Blocks.{FileOn, block_of}
use intro2os_project.Fs.Index.{IsBlock}
use intro2os_project.Fs.Extend.{extended_stays}
use intro2os_project.Fs.Bmap.{bmap_extends, bmap_there}
use intro2os_project.Fs.Logging.{
  LogsAtMost, logs_none, logs_more, logs_then, bmap_logs, log_of, touched, touched_pos,
  touched_next,
}
use intro2os_project.Fs.Write.{file_byte, put_at, put_in, put_out}
use intro2os_project.Fs.Writing.{put_more, piece_fit, piece_full}

-- Every block of the file that the `left` bytes from `off` on lie in is there.
abbrev pub HasNoHole : Disk → Dinode → ℕ → ℕ → Type 0
HasNoHole d ip off left = (x : ℕ) → off ≤ x → x < off + left → block_of d ip (x / bsize) ≢ 0

-- What reading `left` bytes at `off` to `dst` leaves: `k` of them are there, and the file is as it was.
pub record IsRead (sb : Super) (dst off left tot : ℕ) (d : Disk) (ip : Dinode) (mem : ℕ → ℕ) (k : ℕ)
    (t : Transfer (ℕ → ℕ)) : Type 0 where
  pub map : IsMap sb t.disk
  pub file : FileOn sb t.disk t.ip
  pub count : k ≤ left
  pub total : t.result ≡ tot + k
  pub short : k < left → (b : ℕ) → b < sb.size → used sb t.disk b ≡ true
  pub hole : k < left → (x : ℕ) × (off ≤ x) × (x < off + left) × (block_of d ip (x / bsize) ≡ 0)
  pub buffer : (j : ℕ) → t.user j ≡ put_at (file_byte d ip) off dst k mem j
  pub bytes : (x : ℕ) → x < maxfile * bsize → file_byte t.disk t.ip x ≡ file_byte d ip x
  pub size : t.ip.size ≡ ip.size
  pub inodes : t.disk.inode ≡ d.inode
  pub logs : LogsAtMost (5 * touched off left) d.log t.disk.log
  pub quiet : HasNoHole d ip off left → t.disk.log ≡ d.log

abbrev pub transfer : ℕ → Dinode → Disk → (ℕ → ℕ) → Transfer (ℕ → ℕ)
transfer result ip d mem = record { result = result; ip = ip; disk = d; user = mem }

-- The kernel's memory after a piece.
abbrev pub got : Disk → ℕ → ℕ → ℕ → ℕ → (ℕ → ℕ) → ℕ → ℕ
got d a dst off m mem = (to_kernel dst (λ i. d.byte a (off % bsize + i)) m mem).1

module _ (sb : Super) where
  read_done :
      (fuel dst off tot : ℕ) (ip : Dinode) (d : Disk) (mem : ℕ → ℕ)
      → readi_from to_kernel sb fuel dst off tot 0 ip d mem ≡ some (transfer tot ip d mem)
  unfolding readi_from
  read_done zero dst off tot ip d mem = refl
  read_done (suc fuel) dst off tot ip d mem = refl

  read_full :
      (fuel dst off tot left : ℕ) (ip ip' : Dinode) (d d' : Disk) (mem : ℕ → ℕ)
      → 0 < left
      → bmap sb (off / bsize) ip d ≡ some (0, (ip', d'))
      → readi_from to_kernel sb (suc fuel) dst off tot left ip d mem
        ≡ some (transfer tot ip' d' mem)
  unfolding readi_from
  read_full fuel dst off tot left ip ip' d d' mem h e =
      let more : ltb 0 left ≡ true = ground arith in rw (readi_from, more, e) refl

  read_on :
      (fuel dst off tot left a : ℕ) (ip ip' : Dinode) (d d' : Disk) (mem : ℕ → ℕ)
      → 0 < left
      → bmap sb (off / bsize) ip d ≡ some (a, (ip', d'))
      → a ≢ 0
      → readi_from to_kernel sb (suc fuel) dst off tot left ip d mem
        ≡ readi_from to_kernel sb fuel
            (dst + piece off left)
            (off + piece off left)
            (tot + piece off left)
            (left - piece off left)
            ip'
            d'
            (got d' a dst off (piece off left) mem)
  unfolding readi_from
  read_on fuel dst off tot left a ip ip' d d' mem h e n =
      let more : ltb 0 left ≡ true = ground arith in
      let there : (a == 0) ≡ false = ground arith in rw (readi_from, more, e, there) refl

  -- A piece in the buffer holds the bytes of the file.
  got_bytes :
      (d : Disk) (ip : Dinode) (a dst off m j : ℕ) (mem : ℕ → ℕ)
      → block_of d ip (off / bsize) ≡ a
      → a ≢ 0
      → off % bsize + m ≤ bsize
      → got d a dst off m mem j ≡ put_at (file_byte d ip) off dst m mem j
  got_bytes d ip a dst off m j mem here pos fit = elim (dec_lt j dst) [
    | yes h ↦ let low : leb dst j ≡ false = ground arith in rw low refl
    | no h ↦ elim (dec_lt j (dst + m)) [
      | no c ↦
          let low : leb dst j ≡ true = ground arith in
          let high : ltb j (dst + m) ≡ false = ground arith in rw (low, high) refl
      | yes c ↦
          let low : leb dst j ≡ true = ground arith in
          let high : ltb j (dst + m) ≡ true = ground arith in
          let there : (a == 0) ≡ false = ground arith in
          let block : (off + (j - dst)) / bsize ≡ off / bsize = omega arith in
          let index : (off + (j - dst)) % bsize ≡ off % bsize + (j - dst) = omega arith in
          rw (low, high, block, index, here, there) refl
    ]
  ]

  abbrev pub Read : ℕ → ℕ → ℕ → ℕ → ℕ → Dinode → Disk → (ℕ → ℕ) → Type 0
  Read fuel dst off tot left ip d mem =
      (k : ℕ) × (t : Transfer (ℕ → ℕ)) × (readi_from to_kernel sb fuel dst off tot left ip d mem
        ≡ some t)
      × IsRead sb dst off left tot d ip mem k t

  nothing-IsRead :
      (dst off left tot : ℕ) (d d' : Disk) (ip ip' : Dinode) (mem : ℕ → ℕ)
      → IsMap sb d'
      → FileOn sb d' ip'
      → (0 < left → (b : ℕ) → b < sb.size → used sb d' b ≡ true)
      → (0 < left → block_of d ip (off / bsize) ≡ 0)
      → ((x : ℕ) → x < maxfile * bsize → file_byte d' ip' x ≡ file_byte d ip x)
      → ip'.size ≡ ip.size
      → d'.inode ≡ d.inode
      → LogsAtMost (5 * touched off left) d.log d'.log
      → (HasNoHole d ip off left → d'.log ≡ d.log)
      → IsRead sb dst off left tot d ip mem 0 (transfer tot ip' d' mem)
  nothing-IsRead dst off left tot d d' ip ip' mem m f full gap same sz ino logs quiet = record {
    logs = logs;
    quiet = quiet;
    hole = λ q. (off, omega arith, omega arith, gap q);
    map = m;
    file = f;
    count = omega arith;
    total = omega arith;
    short = full;
    buffer = λ j. sym (
        put_out (file_byte d ip) mem off dst 0 j
          (elim (dec_lt j dst) [ yes h ↦ inl h | no h ↦ inr (omega arith) ]));
    bytes = same;
    size = sz;
    inodes = ino;
  }

  -- Reading the same file on.
  put_file :
      (f g : ℕ → ℕ) (off dst k j : ℕ) (old : ℕ → ℕ)
      → off + k ≤ maxfile * bsize
      → ((x : ℕ) → x < maxfile * bsize → f x ≡ g x)
      → put_at f off dst k old j ≡ put_at g off dst k old j
  put_file f g off dst k j old fit e = elim (dec_lt j dst) [
    | yes h ↦ put_out f old off dst k j (inl h) ∙ sym (put_out g old off dst k j (inl h))
    | no h ↦ elim (dec_lt j (dst + k)) [
      | no c ↦
          put_out f old off dst k j (inr (omega arith))
          ∙ sym (put_out g old off dst k j (inr (omega arith)))
      | yes c ↦
          put_in f old off dst k j (omega arith) c
          ∙ e (off + (j - dst)) (omega arith)
          ∙ sym (put_in g old off dst k j (omega arith) c)
    ]
  ]

  put_old :
      (f : ℕ → ℕ) (off dst k j : ℕ) (old new : ℕ → ℕ)
      → old j ≡ new j
      → put_at f off dst k old j ≡ put_at f off dst k new j
  put_old f off dst k j old new e = rw e refl

  was_hole :
      (off a : ℕ) (d d1 : Disk) (ip ip1 : Dinode)
      → IsBlock sb (off / bsize) d ip a d1 ip1
      → a ≡ 0
      → off / bsize < maxfile
      → block_of d ip (off / bsize) ≡ 0
  was_hole off a d d1 ip ip1 r z lt = elim (ℕ_discrete (block_of d ip (off / bsize)) 0) [
    | yes e ↦ e
    | no n ↦
        absurd (extended_stays sb (off / bsize) (off / bsize) d d1 ip ip1 r.ext lt n (r.here ∙ z))
  ]

  old_hole :
      (off x a : ℕ) (d d1 : Disk) (ip ip1 : Dinode)
      → IsBlock sb (off / bsize) d ip a d1 ip1
      → a ≢ 0
      → x / bsize < maxfile
      → block_of d1 ip1 (x / bsize) ≡ 0
      → block_of d ip (x / bsize) ≡ 0
  old_hole off x a d d1 ip ip1 r n lt z = elim (ℕ_discrete (x / bsize) (off / bsize)) [
    | yes e ↦ absurd (n (sym r.here ∙ sym (ap (block_of d1 ip1) e) ∙ z))
    | no ne ↦ sym (r.ext.others (x / bsize) lt ne) ∙ z
  ]

  pub readi_from-Read :
      (fuel dst off tot left : ℕ) (ip : Dinode) (d : Disk) (mem : ℕ → ℕ)
      → IsMap sb d
      → FileOn sb d ip
      → off + left ≤ maxfile * bsize
      → left ≤ fuel
      → Read fuel dst off tot left ip d mem
  readi_from-Read fuel dst off tot zero ip d mem m f fit h = (
    0,
    transfer tot ip d mem,
    read_done fuel dst off tot ip d mem,
    nothing-IsRead dst off 0 tot d d ip ip mem m f (λ q. absurd (omega arith))
        (λ q. absurd (omega arith)) (λ x lt. refl) refl refl (logs_none (5 * touched off 0) d.log)
        (λ z. refl),
  )
  readi_from-Read zero dst off tot (suc left) ip d mem m f fit h = absurd (omega arith)
  readi_from-Read (suc fuel) dst off tot (suc left) ip d mem m f fit h =
      let (a, ip1, d1, e, r) = bmap_extends sb (off / bsize) ip d m f (omega arith) in
      let same : (x : ℕ) → x < maxfile * bsize → file_byte d1 ip1 x ≡ file_byte d ip x =
        λ x lt. r.ext.bytes (x / bsize) (x % bsize) (omega arith) in
      let logs1 = bmap_logs sb (off / bsize) a ip ip1 d d1 (omega arith) e in
      elim (ℕ_discrete a 0) [
        | yes z ↦ (
          0,
          transfer tot ip1 d1 mem,
          read_full fuel dst off tot (suc left) ip ip1 d d1 mem (omega arith)
              (e ∙ ap (λ y. some (y, (ip1, d1))) z),
          nothing-IsRead dst off (suc left) tot d d1 ip ip1 mem r.ext.map r.ext.file (λ q. r.full z)
              (λ q. was_hole off a d d1 ip ip1 r z (omega arith)) same r.ext.size r.ext.inodes
              (logs_more 5 (5 * touched off (suc left)) d.log d1.log
                (let t = touched_pos off (suc left) (omega arith) in omega arith) logs1)
              (λ g.
                absurd (
                  g off (omega arith) (omega arith)
                    (was_hole off a d d1 ip ip1 r z (omega arith)))),
        )
        | no n ↦
            let (low, le, within) = piece_fit mem sb off (suc left) (omega arith) in
            let p = piece off (suc left) in
            let (k, t, e2, w) =
              readi_from-Read fuel (dst + p) (off + p) (tot + p) (suc left - p) ip1 d1
                (got d1 a dst off p mem) r.ext.map r.ext.file (omega arith) (omega arith) in
            (
              p + k,
              t,
              read_on fuel dst off tot (suc left) a ip ip1 d d1 mem (omega arith) e n ∙ e2,
              record {
                map = w.map;
                file = w.file;
                count = let c = w.count in omega arith;
                total = let c = w.total in omega arith;
                short = λ q. w.short (omega arith);
                hole = λ q.
                    let (x, ge, lt, z) = w.hole (omega arith) in
                    (x, omega arith, omega arith, old_hole off x a d d1 ip ip1 r n (omega arith) z);
                buffer = λ j.
                    let c = w.count in
                    w.buffer j
                    ∙ put_old (file_byte d1 ip1) (off + p) (dst + p) k j (got d1 a dst off p mem)
                        (put_at (file_byte d1 ip1) off dst p mem)
                        (got_bytes d1 ip1 a dst off p j mem r.here n within)
                    ∙ put_more (file_byte d1 ip1) sb off dst p k j mem
                    ∙ put_file (file_byte d1 ip1) (file_byte d ip) off dst (p + k) j mem
                        (omega arith) same;
                bytes = λ x lt. w.bytes x lt ∙ same x lt;
                size = w.size ∙ r.ext.size;
                inodes = w.inodes ∙ r.ext.inodes;
                logs =
                    logs_more (5 + 5 * touched (off + p) (suc left - p))
                      (5 * touched off (suc left)) d.log t.disk.log
                      (let h =
                          touched_next off (suc left) p low le within
                            (piece_full mem sb off (suc left)) in
                        omega arith)
                      (logs_then 5 (5 * touched (off + p) (suc left - p)) d.log d1.log t.disk.log
                        logs1 w.logs);
                quiet = λ g.
                    let first : block_of d ip (off / bsize) ≢ 0 =
                      g off (omega arith) (omega arith) in
                    let there = sym (bmap_there sb (off / bsize) ip d (omega arith) first) ∙ e in
                    let same_log : d1.log ≡ d.log = sym (ap log_of there) in
                    w.quiet (λ x ge lt z.
                      g x (omega arith) (omega arith)
                        (old_hole off x a d d1 ip ip1 r n (omega arith) z))
                    ∙ same_log;
              },
            )
      ]
