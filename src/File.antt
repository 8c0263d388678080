-- ===== src/File.antt =====
-- kernel/file.c: the table of open files, with what it asks of pipes, inodes and devices.
-- Each function runs with `ftable.lock` held where it changes reference counts. Pointers are numbers, and
-- a pointer to `ftable.file[i]` is `i + 1`.
pub mod Refs
pub mod Chunks
mod Tests
use intro2os_project.Prelude.{
  ℕ, zero, suc, ◌+◌, ◌-◌, ◌*◌, ◌/◌, ◌^◌, Bool, true, false, not, ◌&&◌, ◌||◌, Option, none, some,
  List, [], ◌∷◌, ◌==◌, ltb, leb, if◌then◌else◌, update, u32, sub32, u64,
}
use intro2os_project.Log.{maxopblocks}

-- NFILE, NDEV and BSIZE
abbrev pub nfile : ℕ
nfile = 100

abbrev pub ndev : ℕ
ndev = 10

abbrev pub bsize : ℕ
bsize = 1024

-- The `type` of a file.
pub data Kind : Type 0 where
  fd_none fd_pipe fd_inode fd_device : Kind

-- `struct file`. The `int` of `ref` and the `short` of `major` are their bits.
pub record File : Type 0 where
  pub kind : Kind
  pub ref : ℕ
  pub readable : Bool
  pub writable : Bool
  pub pipe : ℕ
  pub ip : ℕ
  pub off : ℕ
  pub major : ℕ

abbrev pub Table : Type 0
Table = ℕ → File

-- The loop of `filealloc` from file `i` on, with `k` to go.
unfoldable pub filealloc_from : ℕ → ℕ → Table → ℕ × Table
filealloc_from i zero t = (0, t)
filealloc_from i (suc k) t =
    let rest = filealloc_from (i + 1) k t in
    if (t i).ref == 0 then (suc i, update t i (record (t i) { ref = 1 })) else rest

-- `filealloc`: a pointer to the file, or 0.
unfoldable pub filealloc : Table → ℕ × Table
filealloc t = filealloc_from 0 nfile t

-- `f->ref < 1` on `int`
abbrev pub unreferenced : File → Bool
unreferenced f = f.ref == 0 || leb (2 ^ 31) f.ref

-- `filedup` of file `i`; `none` is a panic.
unfoldable pub filedup : ℕ → Table → Option Table
filedup i t =
    if unreferenced (t i)
    then none
    else some (update t i (record (t i) { ref = u32 ((t i).ref + 1) }))

-- What `fileclose` does behind the table's lock.
pub data After : Type 0 where
  nothing : After
  pipeclose : ℕ → Bool → After
  iput_op : ℕ → After

abbrev pub after : File → After
after f = elim f.kind [
  | Kind.fd_none ↦ nothing
  | Kind.fd_pipe ↦ pipeclose f.pipe f.writable
  | Kind.fd_inode ↦ iput_op f.ip
  | Kind.fd_device ↦ iput_op f.ip
]

-- `fileclose` of file `i`; `none` is a panic. The answer also tells whether this was the last reference.
unfoldable pub fileclose : ℕ → Table → Option ((Bool × After) × Table)
fileclose i t =
    let f = t i in
    let left = sub32 f.ref 1 in
    if unreferenced f
    then none
    else if ltb 0 left && ltb left (2 ^ 31)
    then some ((false, nothing), update t i (record f { ref = left }))
    else some ((true, after f), update t i (record f { ref = 0; kind = Kind.fd_none }))

-- The largest piece of one transaction: `max` of `filewrite`.
abbrev pub max_piece : ℕ
max_piece = (maxopblocks - 1 - 1 - 2) / 2 * bsize

-- `n1`, the piece at byte `i` of `n`
abbrev pub piece : ℕ → ℕ → ℕ
piece i n = if ltb max_piece (n - i) then max_piece else n - i

-- The rest of the kernel. `none` inside is -1, and outside a panic; `readi_op` and `write_op` stand with the
-- locks, and `write_op` with the transaction, that the code puts around `readi` and `writei`.
pub record Services : Type 1 where
  pub Rest : Type 0
  pub piperead : ℕ → ℕ → ℕ → Rest → Option ℕ × Rest
  pub pipewrite : ℕ → ℕ → ℕ → Rest → Option ℕ × Rest
  -- `devsw`: `none` is a null pointer.
  pub dev_read : ℕ → Option (ℕ → ℕ → Rest → Option ℕ × Rest)
  pub dev_write : ℕ → Option (ℕ → ℕ → Rest → Option ℕ × Rest)
  -- of inode, user address, offset and number of bytes
  pub readi_op : ℕ → ℕ → ℕ → ℕ → Rest → Option ℕ × Rest
  pub write_op : ℕ → ℕ → ℕ → ℕ → Rest → Option ℕ × Rest
  -- `ilock`, `stati`, `iunlock`, and the `copyout` of the result to an address
  pub stati_op : ℕ → ℕ → Rest → Bool × Rest

module _ (sv : Services) where
  open sv use {Rest, piperead, pipewrite, dev_read, dev_write, readi_op, write_op, stati_op}

  -- `filestat`: whether it returns 0.
  unfoldable pub filestat : File → ℕ → Rest → Bool × Rest
  filestat f addr r = elim f.kind [
    | Kind.fd_inode ↦ stati_op f.ip addr r
    | Kind.fd_device ↦ stati_op f.ip addr r
    | Kind.fd_none ↦ (false, r)
    | Kind.fd_pipe ↦ (false, r)
  ]

  -- `f->off += r` where `r > 0`
  abbrev pub advance : File → Option ℕ → File
  advance f none = f
  advance f (some n) = record f { off = u32 (f.off + n) }

  -- A call through `devsw` of the device `major`.
  abbrev pub through : Option (ℕ → ℕ → Rest → Option ℕ × Rest) → ℕ → ℕ → ℕ → Rest → Option ℕ × Rest
  through none major addr n r = (none, r)
  through (some f) major addr n r = if leb ndev major then (none, r) else f addr n r

  -- `fileread`; the outer `none` is a panic.
  unfoldable pub fileread : File → ℕ → ℕ → Rest → Option (Option ℕ × (File × Rest))
  fileread f addr n r =
      let piped = piperead f.pipe addr n r in
      let driven = through (dev_read f.major) f.major addr n r in
      let got = readi_op f.ip addr f.off n r in
      if not f.readable then some (none, (f, r)) else elim f.kind [
        | Kind.fd_pipe ↦ some (piped.0, (f, piped.1))
        | Kind.fd_device ↦ some (driven.0, (f, driven.1))
        | Kind.fd_inode ↦ some (got.0, (advance f got.0, got.1))
        | Kind.fd_none ↦ none
      ]

  -- The loop of `filewrite` at byte `i` of `n`, with fuel for its rounds: how far it comes, the file, the
  -- rest, and its calls of `write_op` (first byte, offset in the file, number of bytes).
  pub record Wrote : Type 0 where
    pub i : ℕ
    pub file : File
    pub rest : Rest
    pub pieces : List (ℕ × (ℕ × ℕ))

  unfoldable pub write_pieces : ℕ → File → ℕ → ℕ → ℕ → Rest → Wrote
  write_pieces zero f addr i n r = record { i = i; file = f; rest = r; pieces = [] }
  write_pieces (suc fuel) f addr i n r =
      let n1 = piece i n in
      let put = write_op f.ip (u64 (addr + i)) f.off n1 r in
      elim (ltb i n) [
        | false ↦ record { i = i; file = f; rest = r; pieces = [] }
        | true ↦ elim put.0 [
          | none ↦ record { i = i; file = f; rest = put.1; pieces = (i, (f.off, n1)) ∷ [] }
          | some m ↦ elim (m == n1) [
            | false ↦ record {
              i = i;
              file = advance f (some m);
              rest = put.1;
              pieces = (i, (f.off, n1)) ∷ [];
            }
            | true ↦
                let on = write_pieces fuel (advance f (some m)) addr (i + m) n put.1 in
                record on { pieces = (i, (f.off, n1)) ∷ on.pieces }
          ]
        ]
      ]

  -- The FD_INODE case of `filewrite`; an `n` from `2 ^ 31` on is a negative `int`. Each round but the last
  -- writes at least one byte, so `n` rounds are enough.
  unfoldable pub write_inode : File → ℕ → ℕ → Rest → Option ℕ × Wrote
  write_inode f addr n r =
      let w = write_pieces (if leb (2 ^ 31) n then 0 else n) f addr 0 n r in
      (if w.i == n then some n else none, w)

  -- `filewrite`; the outer `none` is a panic.
  unfoldable pub filewrite : File → ℕ → ℕ → Rest → Option (Option ℕ × (File × Rest))
  unfolding write_inode
  filewrite f addr n r =
      let piped = pipewrite f.pipe addr n r in
      let driven = through (dev_write f.major) f.major addr n r in
      let put = write_inode f addr n r in
      if not f.writable then some (none, (f, r)) else elim f.kind [
        | Kind.fd_pipe ↦ some (piped.0, (f, piped.1))
        | Kind.fd_device ↦ some (driven.0, (f, driven.1))
        | Kind.fd_inode ↦ some (put.0, (put.1.file, put.1.rest))
        | Kind.fd_none ↦ none
      ]
