-- ===== src/Fs.antt =====
-- kernel/fs.c: the table of inodes in use, and the elements of path names.
-- The functions on the table run with `itable.lock` held; `iput` gives it up where it frees an inode on the
-- disk, and is two steps here. A pointer to `itable.inode[i]` is `i`.
pub mod Itable
pub mod Path
pub mod Disk
pub mod Logging
pub mod Bits
pub mod Bitmap
pub mod Balloc
pub mod Bfree
pub mod Blocks
pub mod Extend
pub mod Index
pub mod Bmap
pub mod Write
pub mod Writing
pub mod Reading
pub mod Access
pub mod Content
mod Tests
mod DiskTests
use intro2os_project.Prelude.{
  ℕ, zero, suc, ◌+◌, ◌-◌, ◌^◌, Bool, true, false, not, ◌&&◌, ◌||◌, Option, none, some, ◌==◌, ltb,
  leb, if◌then◌else◌, update, u32, sub32,
}

-- NINODE and DIRSIZ
abbrev pub ninode : ℕ
ninode = 50

abbrev pub dirsiz : ℕ
dirsiz = 14

-- `struct dinode`, and the copy of it in `struct inode`
pub record Dinode : Type 0 where
  pub ftype : ℕ
  pub major : ℕ
  pub minor : ℕ
  pub nlink : ℕ
  pub size : ℕ
  pub addrs : ℕ → ℕ

-- `struct inode`, less its lock. The `int` of `ref` is its bits.
pub record Inode : Type 0 where
  pub dev : ℕ
  pub inum : ℕ
  pub ref : ℕ
  pub valid : Bool
  pub copy : Dinode

abbrev pub Table : Type 0
Table = ℕ → Inode

-- `ip->ref > 0` on `int`
abbrev pub referenced : Inode → Bool
referenced ip = ltb 0 ip.ref && ltb ip.ref (2 ^ 31)

-- The test of `iget` for the inode that it looks for.
abbrev pub matches : ℕ → ℕ → Inode → Bool
matches dev inum ip = referenced ip && (ip.dev == dev && ip.inum == inum)

-- What the loop of `iget` finds: the inode, or perhaps an empty slot.
pub data Slot : Type 0 where
  found : ℕ → Slot
  spare : Option ℕ → Slot

abbrev pub first_empty : Option ℕ → ℕ → Inode → Option ℕ
first_empty none i ip = if ip.ref == 0 then some i else none
first_empty (some e) i ip = some e

-- The loop of `iget` from slot `i` on, with `k` to go.
unfoldable pub scan : ℕ → ℕ → Table → ℕ → ℕ → Option ℕ → Slot
scan dev inum t i zero empty = spare empty
scan dev inum t i (suc k) empty =
    let rest = scan dev inum t (i + 1) k (first_empty empty i (t i)) in
    if matches dev inum (t i) then found i else rest

-- What `iget` does with the slot; `none` is a panic.
unfoldable pub take_slot : ℕ → ℕ → Table → Slot → Option (ℕ × Table)
take_slot dev inum t (found i) = some (i, update t i (record (t i) { ref = u32 ((t i).ref + 1) }))
take_slot dev inum t (spare none) = none
take_slot dev inum t (spare (some i)) =
    some (i, update t i (record (t i) { dev = dev; inum = inum; ref = 1; valid = false }))

-- `iget`
unfoldable pub iget : ℕ → ℕ → Table → Option (ℕ × Table)
unfolding take_slot
iget dev inum t = take_slot dev inum t (scan dev inum t 0 ninode none)

-- `idup`
unfoldable pub idup : ℕ → Table → Table
idup i t = update t i (record (t i) { ref = u32 ((t i).ref + 1) })

-- `ilock` on the inode that the disk holds; `none` is a panic.
unfoldable pub ilock : Dinode → ℕ → Table → Option Table
ilock on_disk i t =
    if (t i).ref == 0 || leb (2 ^ 31) (t i).ref
    then none
    else if (t i).valid
    then some t
    else if on_disk.ftype == 0
    then none
    else some (update t i (record (t i) { copy = on_disk; valid = true }))

-- The first critical section of `iput`: whether the inode is freed on the disk.
unfoldable pub iput_frees : ℕ → Table → Bool
iput_frees i t = (t i).ref == 1 && ((t i).valid && (t i).copy.nlink == 0)

-- What is left in memory of a freed inode: `itrunc`, `ip->type = 0`, `ip->valid = 0`.
unfoldable pub iput_free : ℕ → Table → Table
iput_free i t = update t i (record (t i) {
  copy = record (t i).copy {
    ftype = 0;
    size = 0;
    addrs = λ n. if leb n 12 then 0 else (t i).copy.addrs n;
  };
  valid = false;
})

-- The end of `iput`.
unfoldable pub iput_end : ℕ → Table → Table
iput_end i t = update t i (record (t i) { ref = sub32 (t i).ref 1 })

-- The two kinds of loops of `skipelem`, with fuel for their rounds. 47 is the slash.
abbrev pub slash : ℕ
slash = 47

unfoldable pub skip_slashes : (ℕ → ℕ) → ℕ → ℕ → ℕ
skip_slashes path zero p = p
skip_slashes path (suc fuel) p =
    let rest = skip_slashes path fuel (p + 1) in if path p == slash then rest else p

unfoldable pub skip_name : (ℕ → ℕ) → ℕ → ℕ → ℕ
skip_name path zero p = p
skip_name path (suc fuel) p =
    let rest = skip_name path fuel (p + 1) in
    if not (path p == slash) && not (path p == 0) then rest else p

-- `memmove(name, s, len)`, of a path outside `name`
abbrev pub copied : (ℕ → ℕ) → ℕ → ℕ → (ℕ → ℕ) → ℕ → ℕ
copied path s len name j = if ltb j len then path (s + j) else name j

-- `skipelem` at position `p` of a path whose end lies within the fuel: the position of the rest, and `name`.
unfoldable pub skipelem : ℕ → (ℕ → ℕ) → ℕ → (ℕ → ℕ) → Option (ℕ × (ℕ → ℕ))
skipelem fuel path p name =
    let s = skip_slashes path fuel p in
    let e = skip_name path fuel s in
    let len = e - s in
    if path s == 0
    then none
    else some (
      skip_slashes path fuel e,
      if leb dirsiz len then copied path s dirsiz name else update (copied path s len name) len 0,
    )
