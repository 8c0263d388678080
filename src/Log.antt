-- ===== src/Log.antt =====
-- kernel/log.c: the redo log of the file system.
-- A block is its 256 `int` words: the log copies whole blocks, and the header is a block of ints.
-- The buffer cache is seen through what `bread` returns for each block of the log's device, and
-- the disk through its content and the number of writes that it will still take before the machine
-- stops; the list of buffers in `kernel/bio.c` is not modelled.
pub mod Disk
pub mod Recovery
pub mod Boot
pub mod Commit
pub mod Reserve
pub mod Full
pub mod Absorb
mod Tests
use intro2os_project.Prelude.{
  ℕ, zero, suc, ◌+◌, ◌-◌, ◌*◌, ◌^◌, Bool, true, false, ◌&&◌, ◌||◌, Option, none, some, ◌==◌, ltb,
  leb, if◌then◌else◌, update, u32, sub32,
}

-- MAXOPBLOCKS and LOGSIZE
abbrev pub maxopblocks : ℕ
maxopblocks = 10

abbrev pub logsize : ℕ
logsize = maxopblocks * 3

abbrev pub Block : Type 0
Block = ℕ → ℕ

-- The blocks on the disk, the blocks as the buffer cache shows them, the reference counts by which
-- the log pins buffers, and the disk writes left before the machine stops.
pub record Store : Type 0 where
  pub disk : ℕ → Block
  pub view : ℕ → Block
  pub pins : ℕ → ℕ
  pub power : ℕ

-- `struct log`, with the fields of its header; `int`s are 32-bit patterns.
pub record Log : Type 0 where
  pub start : ℕ
  pub size : ℕ
  pub outstanding : ℕ
  pub committing : Bool
  pub n : ℕ
  pub block : ℕ → ℕ

-- `bwrite` of the buffer of block `b`.
unfoldable pub bwrite : ℕ → Store → Store
bwrite b s =
    if s.power == 0 then s else record s { disk = update s.disk b (s.view b); power = s.power - 1 }

-- Buffer `b` filled in memory.
abbrev pub fill : ℕ → Block → Store → Store
fill b d s = record s { view = update s.view b d }

unfoldable pub bpin : ℕ → Store → Store
bpin b s = record s { pins = update s.pins b (u32 (s.pins b + 1)) }

unfoldable pub bunpin : ℕ → Store → Store
bunpin b s = record s { pins = update s.pins b (sub32 (s.pins b) 1) }

-- One round of the loop of `install_trans`.
unfoldable pub install_one : Bool → Log → ℕ → Store → Store
install_one recovering l tail s =
    let b = l.block tail in
    let s' = bwrite b (fill b (s.view (l.start + tail + 1)) s) in
    if recovering then s' else bunpin b s'

unfoldable pub install_from : Bool → Log → ℕ → ℕ → Store → Store
install_from recovering l tail zero s = s
install_from recovering l tail (suc k) s =
    install_from recovering l (tail + 1) k (install_one recovering l tail s)

-- `install_trans`
unfoldable pub install_trans : Bool → Log → Store → Store
install_trans recovering l s = install_from recovering l 0 l.n s

-- The words of the header block: `n`, then `block[0..n)`.
unfoldable pub read_words : Block → (ℕ → ℕ) → ℕ → ℕ → ℕ → ℕ
read_words lh block i zero = block
read_words lh block i (suc k) = read_words lh (update block i (lh (i + 1))) (i + 1) k

unfoldable pub write_words : Block → (ℕ → ℕ) → ℕ → ℕ → Block
write_words hb block i zero = hb
write_words hb block i (suc k) = write_words (update hb (i + 1) (block i)) block (i + 1) k

-- `read_head`
unfoldable pub read_head : Log → Store → Log
read_head l s =
    let lh = s.view l.start in record l { n = lh 0; block = read_words lh l.block 0 (lh 0) }

-- `write_head`
unfoldable pub write_head : Log → Store → Store
write_head l s =
    bwrite l.start (fill l.start (write_words (update (s.view l.start) 0 l.n) l.block 0 l.n) s)

-- `recover_from_log`
unfoldable pub recover_from_log : Log → Store → Log × Store
recover_from_log l s =
    let l1 = read_head l s in
    let s1 = install_trans true l1 s in let l2 = record l1 { n = 0 } in (l2, write_head l2 s1)

-- `initlog`, on the `log` that the loader zeroed. The header fits a block: 4 * (1 + LOGSIZE) < BSIZE.
unfoldable pub initlog : ℕ → ℕ → Store → Log × Store
initlog logstart nlog s =
    recover_from_log
      (record {
        start = logstart;
        size = nlog;
        outstanding = 0;
        committing = false;
        n = 0;
        block = λ _. 0;
      })
      s

-- One round of the loop of `write_log`.
unfoldable pub log_one : Log → ℕ → Store → Store
log_one l tail s = let to = l.start + tail + 1 in bwrite to (fill to (s.view (l.block tail)) s)

unfoldable pub write_log_from : Log → ℕ → ℕ → Store → Store
write_log_from l tail zero s = s
write_log_from l tail (suc k) s = write_log_from l (tail + 1) k (log_one l tail s)

-- `write_log`
unfoldable pub write_log : Log → Store → Store
write_log l s = write_log_from l 0 l.n s

-- `commit`
unfoldable pub commit : Log → Store → Log × Store
commit l s =
    if ltb 0 l.n
    then (let s1 = install_trans false l (write_head l (write_log l s)) in
        let l1 = record l { n = 0 } in (l1, write_head l1 s1))
    else (l, s)

-- One look of `begin_op` at the log: `none` is `sleep(&log, &log.lock)`.
unfoldable pub begin_op : Log → Option Log
begin_op l =
    let need = u32 (l.n + u32 (l.outstanding + 1) * maxopblocks) in
    if l.committing
    then none
    else if ltb logsize need && ltb need (2 ^ 31)
    then none
    else some (record l { outstanding = u32 (l.outstanding + 1) })

-- `end_op` up to its first `release`: whether to commit. The outer `none` is the panic.
-- Where it does not commit it wakes the sleepers of `begin_op`.
unfoldable pub end_op_first : Log → Option (Bool × Log)
end_op_first l =
    let left = sub32 l.outstanding 1 in
    if l.committing
    then none
    else if left == 0
    then some (true, record l { outstanding = left; committing = true })
    else some (false, record l { outstanding = left })

-- `end_op`. While `committing` is set no other call changes the log.
unfoldable pub end_op : Log → Store → Option (Log × Store)
end_op l s = elim (end_op_first l) [
  | none ↦ none
  | some (do_commit, l1) ↦
      if do_commit
      then (let (l2, s2) = commit l1 s in some (record l2 { committing = false }, s2))
      else some (l1, s)
]

-- The search of `log_write` for the block at index `i`, with `k` entries to go.
unfoldable pub find_block : (ℕ → ℕ) → ℕ → ℕ → ℕ → ℕ
find_block block b i zero = i
find_block block b i (suc k) = elim (block i == b) [
  | true ↦ i
  | false ↦ find_block block b (i + 1) k
]

-- `log_write` of the buffer of block `b`; `none` is a panic.
unfoldable pub log_write : ℕ → Log → Store → Option (Log × Store)
log_write b l s =
    let i = find_block l.block b 0 l.n in
    let l1 = record l { block = update l.block i b } in
    if leb logsize l.n || leb (l.size - 1) l.n
    then none
    else if ltb l.outstanding 1 || leb (2 ^ 31) l.outstanding
    then none
    else if i == l.n
    then some (record l1 { n = l.n + 1 }, bpin b s)
    else some (l1, s)
