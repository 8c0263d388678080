-- ===== src/Fs/Write.antt =====
-- One block of `writei` of kernel/fs.c, as a change of the bytes of the file.
use intro2os_project.Prelude.{
  ℕ, ◌+◌, ◌-◌, ◌*◌, ◌/◌, ◌%◌, ◌≤◌, ◌<◌, ◌≡◌, ◌≢◌, ◌⊎◌, inl, inr, refl, sym, ap, ◌∙◌, subst, true,
  false, ◌&&◌, ◌==◌, ltb, leb, if◌then◌else◌, update, update_self, update_ne, arith, ℕ_discrete,
  dec_lt,
}
use intro2os_project.Fs.{Dinode}
use intro2os_project.Fs.Disk.{Super, Disk, log_write, bblock, bpb, bit, bsize, maxfile}
use intro2os_project.Fs.Content.{from_kernel, stored}
use intro2os_project.Fs.Bitmap.{used}
use intro2os_project.Fs.Balloc.{IsMap}
use intro2os_project.Fs.Blocks.{block_of, block_byte, IsData, FileOn, IsFile-stays}

-- The byte `x` of a file.
abbrev pub file_byte : Disk → Dinode → ℕ → ℕ
file_byte d ip x = block_byte d ip (x / bsize) (x % bsize)

-- The disk after a write to block `a`.
abbrev pub with_block : Disk → ℕ → (ℕ → ℕ) → Disk
with_block d a new = log_write a (record d { byte = update d.byte a new })

module _ (sb : Super) (d : Disk) (ip : Dinode) (a bn : ℕ) (m : IsMap sb d) (f : FileOn sb d ip)
    (lt : bn < maxfile) (here : block_of d ip bn ≡ a) (pos : a ≢ 0) where
  a_data : IsData sb (used sb d) a
  a_data = subst (IsData sb (used sb d)) here (f.content bn lt (λ z. pos (sym here ∙ z)))

  pub used_kept : (new : ℕ → ℕ) (b : ℕ) → b < sb.size → used sb (with_block d a new) b ≡ used sb d b
  used_kept new b h =
      ap (λ z. bit z (b % bpb)) (update_ne d.byte a new (bblock sb b) (λ e. a_data.2 b h (sym e)))

  pub written-IsMap : (new : ℕ → ℕ) → IsMap sb (with_block d a new)
  written-IsMap new =
      let low = a_data.1 in
      record {
        boot = used_kept new 0 (omega arith) ∙ m.boot;
        map = λ b h. used_kept new (bblock sb b) (m.map_low b h) ∙ m.map b h;
        map_low = m.map_low;
      }

  pub written-FileOn : (new : ℕ → ℕ) → FileOn sb (with_block d a new) ip
  written-FileOn new =
      IsFile-stays sb (used sb d) (used sb (with_block d a new)) (block_of d ip) (ip.addrs 12)
        (λ b h y. used_kept new b h ∙ y) f

  -- The bytes of block `bn` are the new ones, and the others stay.
  pub written_here : (new : ℕ → ℕ) (i : ℕ) → block_byte (with_block d a new) ip bn i ≡ new i
  written_here new i =
      let there : (a == 0) ≡ false = ground arith in
      rw (here, there) (ap (λ z. z i) (update_self d.byte a new))

  pub old_here : (i : ℕ) → block_byte d ip bn i ≡ d.byte a i
  old_here i = let there : (a == 0) ≡ false = ground arith in rw (here, there) refl

  pub written_other :
      (new : ℕ → ℕ) (bm i : ℕ)
      → bm < maxfile
      → bm ≢ bn
      → block_byte (with_block d a new) ip bm i ≡ block_byte d ip bm i
  written_other new bm i l n = elim (ℕ_discrete (block_of d ip bm) 0) [
    | yes z ↦ rw z refl
    | no nz ↦
        let there : (block_of d ip bm == 0) ≡ false = ground arith in
        let apart : a ≢ block_of d ip bm = λ e. n (f.single bm bn l lt nz (sym e ∙ sym here)) in
        rw there (ap (λ z. z i) (update_ne d.byte a new (block_of d ip bm) apart))
  ]

-- The bytes of a file after `k` bytes of `mem` from `src` on were put at `off`.
abbrev pub put_at : (ℕ → ℕ) → ℕ → ℕ → ℕ → (ℕ → ℕ) → ℕ → ℕ
put_at mem src off k old x = if leb off x && ltb x (off + k) then mem (src + (x - off)) else old x

stored_in :
    (old mem : ℕ → ℕ) (src at k i : ℕ)
    → at ≤ i
    → i < at + k
    → stored old at (from_kernel mem src k) i ≡ mem (src + (i - at))
stored_in old mem src at k i ge lt =
    let low : leb at i ≡ true = ground arith in
    let high : ltb i (at + k) ≡ true = ground arith in rw (low, high) refl

stored_out :
    (old mem : ℕ → ℕ) (src at k i : ℕ)
    → (i < at) ⊎ (at + k ≤ i)
    → stored old at (from_kernel mem src k) i ≡ old i
stored_out old mem src at k i (inl h) = let low : leb at i ≡ false = ground arith in rw low refl
stored_out old mem src at k i (inr h) =
    let high : ltb i (at + k) ≡ false = ground arith in rw high (ground arith)

pub put_in :
    (mem old : ℕ → ℕ) (src off k x : ℕ)
    → off ≤ x
    → x < off + k
    → put_at mem src off k old x ≡ mem (src + (x - off))
put_in mem old src off k x ge lt =
    let low : leb off x ≡ true = ground arith in
    let high : ltb x (off + k) ≡ true = ground arith in rw (low, high) refl

pub put_out :
    (mem old : ℕ → ℕ) (src off k x : ℕ)
    → (x < off) ⊎ (off + k ≤ x)
    → put_at mem src off k old x ≡ old x
put_out mem old src off k x (inl h) = let low : leb off x ≡ false = ground arith in rw low refl
put_out mem old src off k x (inr h) =
    let high : ltb x (off + k) ≡ false = ground arith in rw high (ground arith)

-- A piece of `k` bytes within block `off / bsize`.
pub piece_written :
    (sb : Super) (d : Disk) (ip : Dinode) (a off k src x : ℕ) (mem : ℕ → ℕ)
    → IsMap sb d
    → FileOn sb d ip
    → off / bsize < maxfile
    → block_of d ip (off / bsize) ≡ a
    → a ≢ 0
    → off % bsize + k ≤ bsize
    → x < maxfile * bsize
    → file_byte (with_block d a (stored (d.byte a) (off % bsize) (from_kernel mem src k))) ip x
      ≡ put_at mem src off k (file_byte d ip) x
piece_written sb d ip a off k src x mem m f lt here pos fit lx =
    elim (ℕ_discrete (x / bsize) (off / bsize)) [
      | no n ↦
          written_other sb d ip a (off / bsize) m f lt here pos
            (stored (d.byte a) (off % bsize) (from_kernel mem src k)) (x / bsize) (x % bsize)
            (omega arith) n
          ∙ sym (
              put_out mem (file_byte d ip) src off k x
                (elim (dec_lt x off) [ yes h ↦ inl h | no h ↦ inr (omega arith) ]))
      | yes e ↦
          ap
            (λ z.
              block_byte (with_block d a (stored (d.byte a) (off % bsize) (from_kernel mem src k)))
                ip z (x % bsize))
            e
          ∙ written_here sb d ip a (off / bsize) m f lt here pos
              (stored (d.byte a) (off % bsize) (from_kernel mem src k)) (x % bsize)
          ∙ within (dec_lt x off) (dec_lt x (off + k)) e
    ]
  where
    -- A byte of the block that is not written.
    same : x / bsize ≡ off / bsize → d.byte a (x % bsize) ≡ file_byte d ip x
    same e =
        sym (old_here sb d ip a (off / bsize) m f lt here pos (x % bsize))
        ∙ sym (ap (λ z. block_byte d ip z (x % bsize)) e)

    within :
        Dec (x < off)
        → Dec (x < off + k)
        → x / bsize ≡ off / bsize
        → stored (d.byte a) (off % bsize) (from_kernel mem src k) (x % bsize)
          ≡ put_at mem src off k (file_byte d ip) x
    within (yes h) c e =
        stored_out (d.byte a) mem src (off % bsize) k (x % bsize) (inl (omega arith))
        ∙ same e
        ∙ sym (put_out mem (file_byte d ip) src off k x (inl h))
    within (no h) (no c) e =
        stored_out (d.byte a) mem src (off % bsize) k (x % bsize) (inr (omega arith))
        ∙ same e
        ∙ sym (put_out mem (file_byte d ip) src off k x (inr (omega arith)))
    within (no h) (yes c) e =
        let index : x % bsize - off % bsize ≡ x - off = omega arith in
        stored_in (d.byte a) mem src (off % bsize) k (x % bsize) (omega arith) (omega arith)
        ∙ ap (λ z. mem (src + z)) index
        ∙ sym (put_in mem (file_byte d ip) src off k x (omega arith) c)
