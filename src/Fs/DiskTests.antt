-- ===== src/Fs/DiskTests.antt =====
-- A disk of 16 blocks with the bitmap in block 1, the inodes in block 2 and an empty file, with an empty log and
-- one operation in, and the theorems on blocks and content at it.
use intro2os_project.Prelude.{
  ℕ, ◌+◌, ◌-◌, ◌*◌, ◌^◌, ◌≤◌, ◌<◌, ◌≡◌, ◌⊎◌, inl, inr, sym, ◌∙◌, subst, refl, false, some, ◌==◌,
  if◌then◌else◌, update, arith,
}
use intro2os_project.Log
use intro2os_project.Log.{Log, Store, find_block, bpin}
use intro2os_project.Fs.{Dinode}
use intro2os_project.Fs.Logging.{LogsAtMost, HasRoom, touched}
use intro2os_project.Fs.Write.{with_block}
use intro2os_project.Fs.Disk.{
  Super, Disk, noted, log_write, iblock, bblock, bzero, find_bit, balloc_from, balloc, bfree,
  direct, bmap, iupdate,
}
use intro2os_project.Fs.Content.{
  Transfer, to_kernel, from_kernel, stored, readi, writei, writei_from,
}
use intro2os_project.Fs.Bitmap.{used}
use intro2os_project.Fs.Balloc.{IsMap, Allocated, taken, balloc_allocates}
use intro2os_project.Fs.Bfree.{bfree-balloc}
use intro2os_project.Fs.Blocks.{block_of, FileOn}
use intro2os_project.Fs.Reading.{IsRead, transfer}
use intro2os_project.Fs.Access.{
  IsWritten, max_size, asked, writei_writes, readi_reads, readi-writei,
}

abbrev sb0 : Super
sb0 = record { size = 16; ninodes = 8; inodestart = 2; bmapstart = 1 }

abbrev log0 : Log
log0 = record { start = 20; size = 40; outstanding = 1; committing = false; n = 0; block = λ i. 0 }

abbrev store0 : Store
store0 = record { disk = λ b i. 0; view = λ b i. 0; pins = λ b. 0; power = 100 }

-- Blocks 0, 1 and 2 are in use.
abbrev disk0 : Disk
disk0 = record {
  byte = λ b i. if b == 1 then (if i == 0 then 7 else 0) else 7;
  word = λ b i. 9;
  inode = λ i. record { ftype = 0; major = 0; minor = 0; nlink = 0; size = 0; addrs = λ n. 0 };
  log = some (log0, store0);
}

-- The log has room for 30 blocks, more than a write of 4 blocks logs.
room0 : HasRoom (6 * touched 100 3072 + 1) disk0.log
unfolding touched
room0 = record {
  log = log0;
  store = store0;
  is = refl;
  fits = omega arith;
  fits_region = omega arith;
  in_op = omega arith;
  few = omega arith;
}

abbrev file0 : Dinode
file0 = record { ftype = 2; major = 0; minor = 0; nlink = 1; size = 0; addrs = λ n. 0 }

map0 : IsMap sb0 disk0
map0 = record {
  boot = refl;
  map = λ b lt. let here : bblock sb0 b ≡ 1 = omega arith in rw here refl;
  map_low = λ b lt. omega arith;
}

no_block : (bn : ℕ) → block_of disk0 file0 bn ≡ 0
no_block bn = ground arith

fresh_file : FileOn sb0 disk0 file0
fresh_file = record {
  content = λ bn lt n. absurd (n (no_block bn));
  table = λ n. absurd (n refl);
  apart = λ bn lt n. absurd (n (no_block bn));
  single = λ bn bm l k n. absurd (n (no_block bn));
}

balloc_allocates_example :
    Allocated sb0 disk0 (balloc sb0 disk0) × LogsAtMost 2 disk0.log (balloc sb0 disk0).1.log
balloc_allocates_example = balloc_allocates sb0 disk0 map0

three : balloc sb0 disk0 ≡ (3, taken sb0 3 disk0)
unfolding balloc balloc_from find_bit bzero
three = refl

bfree-balloc_example :
    (d2 : Disk) × (bfree sb0 3 (taken sb0 3 disk0) ≡ some d2)
    × LogsAtMost 1 (taken sb0 3 disk0).log d2.log
    × ((b : ℕ) → b < 16 → used sb0 d2 b ≡ used sb0 disk0 b)
bfree-balloc_example = bfree-balloc sb0 disk0 (taken sb0 3 disk0) 3 map0 three (λ e. omega arith)

writei_writes_example :
    (((0 < 0) ⊎ (max_size < 0 + 2000))
      × (writei (from_kernel (λ i. i)) sb0 3 100 0 2000 file0 disk0
          ≡ some (2 ^ 32 - 1, (file0, disk0))))
    ⊎ ((0 ≤ 0)
        × (0 + 2000 ≤ max_size)
        × (k : ℕ) × (ip' : Dinode) × (d' : Disk) × (writei
              (from_kernel (λ i. i))
              sb0
              3
              100
              0
              2000
              file0
              disk0
            ≡ some (k, (ip', d')))
        × IsWritten sb0 3 (λ i. i) 100 0 2000 disk0 file0 k ip' d')
writei_writes_example =
    writei_writes (λ i. i) sb0 3 100 0 2000 file0 disk0 map0 fresh_file (omega arith) (omega arith)

-- Three bytes in the first block of the file, which is block 3.
abbrev file3 : Dinode
file3 = record { ftype = 2; major = 0; minor = 0; nlink = 1; size = 3; addrs = update (λ n. 0) 0 3 }

abbrev disk3 : Disk
disk3 =
    let d =
      with_block (taken sb0 3 disk0) 3
        (stored ((taken sb0 3 disk0).byte 3) 0 (from_kernel (λ i. i) 100 3)) in
    log_write (iblock sb0 3) (record d { inode = update d.inode 3 file3 })

wrote3 : writei (from_kernel (λ i. i)) sb0 3 100 0 3 file0 disk0 ≡ some (3, (file3, disk3))
unfolding writei writei_from bmap direct iupdate balloc balloc_from find_bit bzero noted
    Log.log_write find_block bpin
wrote3 = refl

file3_ok : IsMap sb0 disk3 × FileOn sb0 disk3 file3
file3_ok =
    elim (writei_writes (λ i. i) sb0 3 100 0 3 file0 disk0 map0 fresh_file (omega arith)
      (omega arith)) [
        | inl (refused, e) ↦ absurd (ground (arith, sym e ∙ wrote3))
        | inr (ho, fits, k, ip1, d1, e, w) ↦
            let inode : ip1 ≡ file3 = ground (arith, sym e ∙ wrote3) in
            let disk : d1 ≡ disk3 = ground (arith, sym e ∙ wrote3) in
            (
              subst (IsMap sb0) disk w.map,
              subst (λ d. FileOn sb0 d file3) disk (subst (FileOn sb0 d1) inode w.file),
            )
      ]

-- Two of its bytes.
readi_reads_example :
    (((3 < 1) ⊎ (2 ^ 32 ≤ 1 + 10))
      × (readi to_kernel sb0 500 1 10 file3 disk3 (λ i. i)
          ≡ some (transfer 0 file3 disk3 (λ i. i))))
    ⊎ ((k : ℕ) × (t : Transfer (ℕ → ℕ)) × (readi to_kernel sb0 500 1 10 file3 disk3 (λ i. i)
          ≡ some t)
        × IsRead sb0 500 1 (asked 3 1 10) 0 disk3 file3 (λ i. i) k t)
readi_reads_example =
    readi_reads sb0 500 1 10 file3 disk3 (λ i. i) file3_ok.0 file3_ok.1 (omega arith) (omega arith)
      (omega arith)

readi-writei_example :
    (t : Transfer (ℕ → ℕ)) × (readi to_kernel sb0 500 0 3 file3 disk3 (λ i. 0) ≡ some t)
    × (t.result ≡ 3)
    × ((j : ℕ) → j < 3 → t.user (500 + j) ≡ 100 + j)
readi-writei_example =
    readi-writei (λ i. i) (λ i. 0) sb0 3 100 500 0 3 file0 file3 disk0 disk3 map0 fresh_file
      (omega arith) (omega arith) (omega arith) wrote3
