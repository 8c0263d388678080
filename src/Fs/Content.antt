-- ===== src/Fs/Content.antt =====
-- kernel/fs.c: the content of an inode, read and written in pieces that lie in one block each. Where the bytes
-- come from and go to is `either_copyin` and `either_copyout` of kernel/proc.c, which are parameters here.
use intro2os_project.Prelude.{
  ℕ, zero, suc, ◌+◌, ◌-◌, ◌*◌, ◌/◌, ◌%◌, ◌^◌, Bool, true, false, ◌&&◌, ◌||◌, Option, none, some,
  ◌==◌, ltb, leb, if◌then◌else◌, update, u32,
}
use intro2os_project.Fs.{Dinode}
use intro2os_project.Fs.Disk.{Super, Disk, log_write, bmap, iupdate, bsize, maxfile}

-- `m`, the bytes up to the end of the block or of the transfer
abbrev pub piece : ℕ → ℕ → ℕ
piece off n = if ltb n (bsize - off % bsize) then n else bsize - off % bsize

-- What a read or a write leaves: the result, the inode, the disk and the user.
pub record Transfer (U : Type 0) : Type 0 where
  pub result : ℕ
  pub ip : Dinode
  pub disk : Disk
  pub user : U

-- `either_copyout(user_dst, dst, data, m)`: whether it succeeds.
module _ {U : Type 0} (copy_out : ℕ → (ℕ → ℕ) → ℕ → U → Bool × U) where
  -- The loop of `readi` with `left` bytes to go after `tot`, with fuel for its rounds; `none` is a panic.
  unfoldable pub readi_from : Super → ℕ → ℕ → ℕ → ℕ → ℕ → Dinode → Disk → U → Option (Transfer U)
  readi_from sb zero dst off tot left ip d u =
      some (record { result = tot; ip = ip; disk = d; user = u })
  readi_from sb (suc fuel) dst off tot left ip d u = elim (ltb 0 left) [
    | false ↦ some (record { result = tot; ip = ip; disk = d; user = u })
    | true ↦ elim (bmap sb (off / bsize) ip d) [
      | none ↦ none
      | some (addr, (ip', d')) ↦ elim (addr == 0) [
        | true ↦ some (record { result = tot; ip = ip'; disk = d'; user = u })
        | false ↦
            let m = piece off left in
            let (fine, u') = copy_out dst (λ i. d'.byte addr (off % bsize + i)) m u in
            elim fine [
              | false ↦ some (record { result = 2 ^ 32 - 1; ip = ip'; disk = d'; user = u' })
              | true ↦ readi_from sb fuel (dst + m) (off + m) (tot + m) (left - m) ip' d' u'
            ]
      ]
    ]
  ]

  -- `readi`
  unfoldable pub readi : Super → ℕ → ℕ → ℕ → Dinode → Disk → U → Option (Transfer U)
  readi sb dst off n ip d u =
      if ltb ip.size off || ltb (u32 (off + n)) off
      then some (record { result = 0; ip = ip; disk = d; user = u })
      else (let n' = if ltb ip.size (u32 (off + n)) then ip.size - off else n in
          readi_from sb n' dst off 0 n' ip d u)

-- A transfer into a block: whether it succeeds, and the bytes that it stored, all of them or some.
pub record Fetched : Type 0 where
  pub ok : Bool
  pub count : ℕ
  pub bytes : ℕ → ℕ

-- The block with the bytes stored from an offset on
abbrev pub stored : (ℕ → ℕ) → ℕ → Fetched → ℕ → ℕ
stored old at f i = if leb at i && ltb i (at + f.count) then f.bytes (i - at) else old i

-- `memmove(dst, data, m)` and `memmove(data, src, m)`, which the two are for addresses of the kernel
abbrev pub to_kernel : ℕ → (ℕ → ℕ) → ℕ → (ℕ → ℕ) → Bool × (ℕ → ℕ)
to_kernel dst old m mem = (true, λ j. if leb dst j && ltb j (dst + m) then old (j - dst) else mem j)

abbrev pub from_kernel : (ℕ → ℕ) → ℕ → ℕ → Fetched
from_kernel mem src m = record { ok = true; count = m; bytes = λ i. mem (src + i) }

-- `either_copyin(data, user_src, src, m)`
module _ (copy_in : ℕ → ℕ → Fetched) where
  -- The loop of `writei`, likewise: `tot`, `off`, the inode and the disk at its end.
  unfoldable pub writei_from :
      Super → ℕ → ℕ → ℕ → ℕ → ℕ → Dinode → Disk → Option (ℕ × (ℕ × (Dinode × Disk)))
  writei_from sb zero src off tot left ip d = some (tot, (off, (ip, d)))
  writei_from sb (suc fuel) src off tot left ip d = elim (ltb 0 left) [
    | false ↦ some (tot, (off, (ip, d)))
    | true ↦ elim (bmap sb (off / bsize) ip d) [
      | none ↦ none
      | some (addr, (ip', d')) ↦ elim (addr == 0) [
        | true ↦ some (tot, (off, (ip', d')))
        | false ↦
            let m = piece off left in
            let f = copy_in src m in
            let d2 = record d' {
              byte = update d'.byte addr (stored (d'.byte addr) (off % bsize) f);
            } in
            elim f.ok [
              | false ↦ some (tot, (off, (ip', d2)))
              | true ↦
                  writei_from sb fuel (src + m) (off + m) (tot + m) (left - m) ip'
                    (log_write addr d2)
            ]
      ]
    ]
  ]

  -- `writei` of the inode number `inum`: its result, the inode and the disk.
  unfoldable pub writei : Super → ℕ → ℕ → ℕ → ℕ → Dinode → Disk → Option (ℕ × (Dinode × Disk))
  writei sb inum src off n ip d =
      if ltb ip.size off || ltb (u32 (off + n)) off
      then some (2 ^ 32 - 1, (ip, d))
      else if ltb (maxfile * bsize) (u32 (off + n))
      then some (2 ^ 32 - 1, (ip, d))
      else elim (writei_from sb n src off 0 n ip d) [
        | none ↦ none
        | some (tot, (off', (ip', d'))) ↦
            let ip2 = if ltb ip'.size off' then record ip' { size = off' } else ip' in
            some (tot, (ip2, iupdate sb inum ip2 d'))
      ]
