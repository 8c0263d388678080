-- ===== src/Fs/Access.antt =====
-- `readi` and `writei` of kernel/fs.c on the bytes of a file.
use intro2os_project.Prelude.{
  ℕ, ◌+◌, ◌-◌, ◌*◌, ◌/◌, ◌^◌, ◌≤◌, ◌<◌, ◌≡◌, ◌≢◌, ◌⊎◌, inl, inr, refl, sym, ap, ◌∙◌, subst, true,
  false, ◌||◌, some, ltb, if◌then◌else◌, update_self, arith, Bool-cases, dec_lt, u32,
}
use intro2os_project.Fs.{Dinode}
use intro2os_project.Fs.Disk.{Super, Disk, bsize, maxfile, iupdate, iblock, noted}
use intro2os_project.Fs.Content.{
  Transfer, to_kernel, from_kernel, readi, readi_from, writei, writei_from,
}
use intro2os_project.Fs.Logging.{LogsAtMost, logs_then, noted_logs, touched}
use intro2os_project.Fs.Bitmap.{used}
use intro2os_project.Fs.Balloc.{IsMap}
use intro2os_project.Fs.Blocks.{FileOn, block_of}
use intro2os_project.Fs.Write.{file_byte, put_at, put_in}
use intro2os_project.Fs.Writing.{IsWrote, writei_from-Wrote}
use intro2os_project.Fs.Reading.{IsRead, transfer, readi_from-Read}

abbrev pub max_size : ℕ
max_size = maxfile * bsize

-- The size of the file when a write ends at `off`.
abbrev pub grown : ℕ → ℕ → ℕ
grown size off = if ltb size off then off else size

-- What a write of `n` bytes at `off` leaves: its first `k` bytes are in the file, all of them unless the disk is
-- full, every other byte is as it was, and the inode is on the disk.
pub record IsWritten (sb : Super) (inum : ℕ) (mem : ℕ → ℕ) (src off n : ℕ) (d : Disk) (ip : Dinode)
    (k : ℕ) (ip' : Dinode) (d' : Disk) : Type 0 where
  pub map : IsMap sb d'
  pub file : FileOn sb d' ip'
  pub count : k ≤ n
  pub short : k < n → (b : ℕ) → b < sb.size → used sb d' b ≡ true
  pub bytes : (x : ℕ) → x < max_size → file_byte d' ip' x ≡ put_at mem src off k (file_byte d ip) x
  pub present : (x : ℕ) → off ≤ x → x < off + k → block_of d' ip' (x / bsize) ≢ 0
  pub size : ip'.size ≡ grown ip.size (off + k)
  pub saved : d'.inode inum ≡ ip'
  pub logs : LogsAtMost (6 * touched off n + 1) d.log d'.log

writei_past :
    (mem : ℕ → ℕ) (sb : Super) (inum src off n : ℕ) (ip : Dinode) (d : Disk)
    → ip.size < off
    → writei (from_kernel mem) sb inum src off n ip d ≡ some (2 ^ 32 - 1, (ip, d))
unfolding writei
writei_past mem sb inum src off n ip d h =
    let past : ltb ip.size off ≡ true = ground arith in rw past refl

writei_large :
    (mem : ℕ → ℕ) (sb : Super) (inum src off n : ℕ) (ip : Dinode) (d : Disk)
    → off ≤ max_size
    → n < 2 ^ 32
    → max_size < off + n
    → writei (from_kernel mem) sb inum src off n ip d ≡ some (2 ^ 32 - 1, (ip, d))
unfolding writei
writei_large mem sb inum src off n ip d ho hn h =
    elim (Bool-cases (ltb ip.size off || ltb (u32 (off + n)) off)) [
      | inl y ↦ rw y refl
      | inr no' ↦
          let large : ltb (maxfile * bsize) (u32 (off + n)) ≡ true = ground arith in
          rw (no', large) refl
    ]

writei_runs :
    (mem : ℕ → ℕ) (sb : Super) (inum src off n tot off' : ℕ) (ip ip' : Dinode) (d d' : Disk)
    → off ≤ ip.size
    → off + n ≤ max_size
    → writei_from (from_kernel mem) sb n src off 0 n ip d ≡ some (tot, (off', (ip', d')))
    → writei (from_kernel mem) sb inum src off n ip d
      ≡ some (
        tot,
        (
          record ip' { size = grown ip'.size off' },
          iupdate sb inum (record ip' { size = grown ip'.size off' }) d',
        ),
      )
unfolding writei
writei_runs mem sb inum src off n tot off' ip ip' d d' ho hn e =
    let ok : (ltb ip.size off || ltb (u32 (off + n)) off) ≡ false = ground arith in
    let fits : ltb (maxfile * bsize) (u32 (off + n)) ≡ false = ground arith in
    rw (ok, fits, e)
      (elim (Bool-cases (ltb ip'.size off')) [ inl y ↦ rw y refl | inr z ↦ rw z refl ])

wrote-IsWritten :
    (sb : Super) (inum : ℕ) (mem : ℕ → ℕ) (src off n : ℕ) (d : Disk) (ip : Dinode) (k : ℕ)
    (d1 : Disk) (ip1 : Dinode)
    → IsWrote sb mem src off n d ip k d1 ip1
    → IsWritten sb inum mem src off n d ip k
        (record ip1 { size = grown ip1.size (off + k) })
        (iupdate sb inum (record ip1 { size = grown ip1.size (off + k) }) d1)
unfolding iupdate
wrote-IsWritten sb inum mem src off n d ip k d1 ip1 w = record {
  logs =
      logs_then (6 * touched off n) 1 d.log d1.log (noted (iblock sb inum) d1.log) w.logs
        (noted_logs (iblock sb inum) d1.log);
  map = record { boot = w.map.boot; map = w.map.map; map_low = w.map.map_low };
  file = record {
    content = w.file.content;
    table = w.file.table;
    apart = w.file.apart;
    single = w.file.single;
  };
  count = w.count;
  short = w.short;
  bytes = w.bytes;
  present = w.present;
  size = ap (λ z. grown z (off + k)) w.size;
  saved = update_self d1.inode inum (record ip1 { size = grown ip1.size (off + k) });
}

-- `writei` from the kernel's memory, where the bitmap marks itself in use and the file uses no block twice. An
-- offset past the end of the file or an end past MAXFILE blocks (also one that wraps around) is refused with -1
-- and changes nothing. Otherwise `bmap` does not panic, and no `log_write` does where an operation is in and the
-- log has room for 6 blocks for each block of the file that the range lies in and one for the inode. It returns
-- the number k of bytes that it put into the file at `off`: n of them, or fewer when every block of the disk is in
-- use. Every other byte of the file is as it was, the size is the larger of the old one and off + k, the inode is
-- written to the disk, and the bitmap and the file stay well formed.
pub writei_writes :
    (mem : ℕ → ℕ) (sb : Super) (inum src off n : ℕ) (ip : Dinode) (d : Disk)
    → IsMap sb d
    → FileOn sb d ip
    → ip.size ≤ max_size
    → n < 2 ^ 32
    → (((ip.size < off) ⊎ (max_size < off + n))
        × (writei (from_kernel mem) sb inum src off n ip d ≡ some (2 ^ 32 - 1, (ip, d))))
      ⊎ ((off ≤ ip.size)
          × (off + n ≤ max_size)
          × (k : ℕ) × (ip' : Dinode) × (d' : Disk) × (writei
                (from_kernel mem)
                sb
                inum
                src
                off
                n
                ip
                d
              ≡ some (k, (ip', d')))
          × IsWritten sb inum mem src off n d ip k ip' d')
writei_writes mem sb inum src off n ip d m f small hn = elim (dec_lt ip.size off) [
  | yes past ↦ inl (inl past, writei_past mem sb inum src off n ip d past)
  | no ge ↦ elim (dec_lt max_size (off + n)) [
    | yes large ↦ inl (inr large, writei_large mem sb inum src off n ip d (omega arith) hn large)
    | no fits ↦
        let (k, ip1, d1, e, w) =
          writei_from-Wrote mem sb n src off 0 n ip d m f (omega arith) (omega arith) in
        let zero_add : 0 + k ≡ k = omega arith in
        let ip2 = record ip1 { size = grown ip1.size (off + k) } in
        inr (
          omega arith,
          omega arith,
          k,
          ip2,
          iupdate sb inum ip2 d1,
          writei_runs mem sb inum src off n k (off + k) ip ip1 d d1 (omega arith) (omega arith)
              (e ∙ ap (λ z. some (z, (off + k, (ip1, d1)))) zero_add),
          wrote-IsWritten sb inum mem src off n d ip k d1 ip1 w,
        )
  ]
]

-- The bytes that `readi` asks for: up to the end of the file.
abbrev pub asked : ℕ → ℕ → ℕ → ℕ
asked size off n = if ltb size (off + n) then size - off else n

readi_past :
    (sb : Super) (dst off n : ℕ) (ip : Dinode) (d : Disk) (mem : ℕ → ℕ)
    → ltb ip.size off || ltb (u32 (off + n)) off ≡ true
    → readi to_kernel sb dst off n ip d mem ≡ some (transfer 0 ip d mem)
unfolding readi
readi_past sb dst off n ip d mem h = rw h refl

readi_runs :
    (sb : Super) (dst off n : ℕ) (ip : Dinode) (d : Disk) (mem : ℕ → ℕ)
    → off ≤ ip.size
    → off + n < 2 ^ 32
    → readi to_kernel sb dst off n ip d mem
      ≡ readi_from to_kernel sb (asked ip.size off n) dst off 0 (asked ip.size off n) ip d mem
unfolding readi
readi_runs sb dst off n ip d mem ho hn =
    let ok : (ltb ip.size off || ltb (u32 (off + n)) off) ≡ false = ground arith in
    let wrap : u32 (off + n) ≡ off + n = omega arith in rw (ok, wrap) refl

-- `readi` into the kernel's memory, where the bitmap marks itself in use and the file uses no block twice. An
-- offset past the end of the file and a range that wraps around give 0 bytes and change nothing. Otherwise `bmap`
-- does not panic. Where no block of the range is a hole, nothing is logged, so that `readi` needs no transaction;
-- where there are holes, no `log_write` panics if an operation is in and the log has room for 5 blocks for each
-- block of the range. The result k is what it stored at `dst`: the bytes of the file from `off` on, all that were
-- asked for and the file has, or fewer when it met a hole and every block of the disk is in use. No other byte of
-- memory changes, nor does the content of the file.
pub readi_reads :
    (sb : Super) (dst off n : ℕ) (ip : Dinode) (d : Disk) (mem : ℕ → ℕ)
    → IsMap sb d
    → FileOn sb d ip
    → ip.size ≤ max_size
    → off < 2 ^ 32
    → n < 2 ^ 32
    → (((ip.size < off) ⊎ (2 ^ 32 ≤ off + n))
        × (readi to_kernel sb dst off n ip d mem ≡ some (transfer 0 ip d mem)))
      ⊎ ((k : ℕ) × (t : Transfer (ℕ → ℕ)) × (readi to_kernel sb dst off n ip d mem ≡ some t)
          × IsRead sb dst off (asked ip.size off n) 0 d ip mem k t)
readi_reads sb dst off n ip d mem m f small hf hn = elim (dec_lt ip.size off) [
  | yes past ↦ inl (inl past, readi_past sb dst off n ip d mem (ground arith))
  | no ge ↦ elim (dec_lt (off + n) (2 ^ 32)) [
    | no wraps ↦ inl (inr (omega arith), readi_past sb dst off n ip d mem (ground arith))
    | yes fits ↦
        let (k, t, e, r) =
          readi_from-Read sb (asked ip.size off n) dst off 0 (asked ip.size off n) ip d mem m f
            (asked_fit ip.size off n (omega arith) small) (omega arith) in
        inr (k, t, readi_runs sb dst off n ip d mem (omega arith) fits ∙ e, r)
  ]
]
  where
    asked_fit : (size off n : ℕ) → off ≤ size → size ≤ max_size → off + asked size off n ≤ max_size
    asked_fit size off n ge le = ground arith

reread :
    (mem buf : ℕ → ℕ) (sb : Super) (inum src dst off n : ℕ) (ip ip1 : Dinode) (d d1 : Disk)
    → ip.size ≤ max_size
    → off ≤ ip.size
    → off + n ≤ max_size
    → IsWritten sb inum mem src off n d ip n ip1 d1
    → (t : Transfer (ℕ → ℕ)) × (readi to_kernel sb dst off n ip1 d1 buf ≡ some t)
      × (t.result ≡ n)
      × ((j : ℕ) → j < n → t.user (dst + j) ≡ mem (src + j))
reread mem buf sb inum src dst off n ip ip1 d d1 small ge fits w =
    let size = w.size in
    let high : off + n ≤ ip1.size = ground arith in
    let bound : ip1.size ≤ max_size = ground arith in
    let all : asked ip1.size off n ≡ n = ground arith in
    elim (readi_reads sb dst off n ip1 d1 buf w.map w.file bound (omega arith) (omega arith)) [
      | inl (inl past, e) ↦ absurd (omega arith)
      | inl (inr wraps, e) ↦ absurd (omega arith)
      | inr (k, t, e, r) ↦
          let full : k ≡ n = elim (dec_lt k n) [
            | yes short ↦
                let (x, low, lt, z) = r.hole (omega arith) in
                absurd (w.present x low (omega arith) z)
            | no long ↦ let c = r.count in omega arith
          ] in
          let total = r.total in
          (
            t,
            e,
            omega arith,
            λ j lt.
                let index : src + (off + j - off) ≡ src + j = omega arith in
                let place : off + (dst + j - dst) ≡ off + j = omega arith in
                r.buffer (dst + j)
                ∙ put_in (file_byte d1 ip1) buf off dst k (dst + j) (omega arith) (omega arith)
                ∙ ap (file_byte d1 ip1) place
                ∙ w.bytes (off + j) (omega arith)
                ∙ put_in mem (file_byte d ip) src off n (off + j) (omega arith) (omega arith)
                ∙ ap mem index,
          )
    ]

-- What `writei` wrote `readi` reads: where the bitmap marks itself in use and the file uses no block twice, after
-- a `writei` of n > 0 bytes from the kernel's memory that returned n, a `readi` of the same n bytes returns n and
-- stores the same bytes.
pub readi-writei :
    (mem buf : ℕ → ℕ) (sb : Super) (inum src dst off n : ℕ) (ip ip' : Dinode) (d d' : Disk)
    → IsMap sb d
    → FileOn sb d ip
    → ip.size ≤ max_size
    → 0 < n
    → n < 2 ^ 31
    → writei (from_kernel mem) sb inum src off n ip d ≡ some (n, (ip', d'))
    → (t : Transfer (ℕ → ℕ)) × (readi to_kernel sb dst off n ip' d' buf ≡ some t)
      × (t.result ≡ n)
      × ((j : ℕ) → j < n → t.user (dst + j) ≡ mem (src + j))
readi-writei mem buf sb inum src dst off n ip ip' d d' m f small pos hn e =
    elim (writei_writes mem sb inum src off n ip d m f small (omega arith)) [
      | inl (refused, e1) ↦ absurd (ground (arith, sym e1 ∙ e))
      | inr (ho, fits, k, ip1, d1, e1, w) ↦
          let count : k ≡ n = ground (arith, sym e1 ∙ e) in
          let same_inode : ip1 ≡ ip' = ground (arith, sym e1 ∙ e) in
          let same_disk : d1 ≡ d' = ground (arith, sym e1 ∙ e) in
          let all = subst (λ z. IsWritten sb inum mem src off n d ip z ip1 d1) count w in
          let (t, er, result, bytes) =
            reread mem buf sb inum src dst off n ip ip1 d d1 small ho fits all in
          (t, rw (← same_inode, ← same_disk) er, result, bytes)
    ]
