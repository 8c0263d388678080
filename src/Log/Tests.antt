-- ===== src/Log/Tests.antt =====
-- A small transaction, its crashes, and the reservation with the log region that mkfs makes.
use intro2os_project.Prelude.{
  ℕ, zero, suc, ◌+◌, ◌≡◌, ◌≢◌, ◌⊎◌, inr, refl, true, false, Bool, [], ◌∷◌, some, none, Option,
  arith, ◌==◌, if◌then◌else◌, update,
}
use intro2os_project.Log.{
  Log, Store, Block, begin_op, log_write, commit, initlog, find_block, bpin, bunpin, bwrite,
  recover_from_log, read_head, read_words, write_log, write_log_from, log_one, write_head,
  write_words, install_trans, install_from, install_one,
}
use intro2os_project.Log.Disk.{IsLaidOut}
use intro2os_project.Log.Recovery.{IsOld, IsNew}
use intro2os_project.Log.Boot.{after_boot, boots}
use intro2os_project.Log.Commit.{crash_atomic, commit_installs}
use intro2os_project.Log.Reserve.{
  Running, sum, IsReserved, Reach, enters, here, later, reservation_suffices,
}
use intro2os_project.Log.Full.{mkfs_log_panics}
use intro2os_project.Log.Absorb.{Logged, log_write-Logged}

-- Blocks 100 and 101 are logged in the region of 30 blocks from block 2 on.
abbrev two_blocks : Log
two_blocks = record {
  start = 2;
  size = 30;
  outstanding = 0;
  committing = true;
  n = 2;
  block = λ j. j + 100;
}

abbrev two_blocks_open : Log
two_blocks_open = record two_blocks { outstanding = 1; committing = false }

abbrev disk : ℕ → Block
disk b w = 0

-- The cache shows the block number in the changed blocks.
abbrev changed : ℕ → Store
changed power = record {
  disk = disk;
  view = λ b w. if b == 100 then 7 else if b == 101 then 8 else 0;
  pins = λ _. 1;
  power = power;
}

laid_out : IsLaidOut two_blocks
laid_out = record { room = omega arith; homes = λ j h. inr (omega arith) }

crash_atomic_example :
    IsOld two_blocks (changed 4).view disk (
      after_boot two_blocks 9
        (boots two_blocks (1 ∷ 0 ∷ []) (commit two_blocks (changed 4)).1.disk))
    ⊎ IsNew two_blocks (changed 4).view disk (
        after_boot two_blocks 9
          (boots two_blocks (1 ∷ 0 ∷ []) (commit two_blocks (changed 4)).1.disk))
crash_atomic_example =
    crash_atomic two_blocks (changed 4) (1 ∷ 0 ∷ []) 9 laid_out refl (omega arith)

commit_installs_example :
    IsNew two_blocks (changed 6).view disk (commit two_blocks (changed 6)).1.disk
    × ((commit two_blocks (changed 6)).0.n ≡ 0)
commit_installs_example =
    commit_installs two_blocks (changed 6) laid_out refl (omega arith) (omega arith)

-- Stopped after the log is written and before the header: nothing of the transaction survives.
stopped_before_header : after_boot two_blocks 9 (commit two_blocks (changed 2)).1.disk 100 0 ≡ 0
unfolding after_boot initlog recover_from_log read_head read_words commit write_log write_log_from
    log_one bwrite bunpin write_head write_words install_trans install_from install_one
stopped_before_header = refl

-- Stopped behind the header: all of it survives.
stopped_after_header : after_boot two_blocks 9 (commit two_blocks (changed 3)).1.disk 101 0 ≡ 8
unfolding after_boot initlog recover_from_log read_head read_words commit write_log write_log_from
    log_one bwrite bunpin write_head write_words install_trans install_from install_one
stopped_after_header = refl

abbrev empty_log : ℕ → Log
empty_log size = record {
  start = 2;
  size = size;
  outstanding = 0;
  committing = false;
  n = 0;
  block = λ _. 0;
}

abbrev quiet : ℕ → Running
quiet size = record { log = empty_log size; store = changed 100; credits = [] }

abbrev one_in : Running
one_in = record (quiet 31) { log = record (empty_log 31) { outstanding = 1 }; credits = 10 ∷ [] }

quiet-IsReserved : (size : ℕ) → IsReserved (quiet size)
unfolding sum
quiet-IsReserved size = record {
  counted = refl;
  few = omega arith;
  idle = refl;
  capped = tt;
  fits = omega arith;
}

reservation_suffices_example : log_write 77 one_in.log one_in.store ≢ none
unfolding begin_op
reservation_suffices_example =
    reservation_suffices {r = quiet 31} {t = one_in} 77 9 [] [] (quiet-IsReserved 31)
      (later here (enters refl)) (omega arith) refl

mkfs_log_panics_example :
    (t : Running) × Reach (quiet 30) t
    × (t.credits ≡ 0 ∷ 0 ∷ 1 ∷ [])
    × ((b : ℕ) → log_write b t.log t.store ≡ none)
mkfs_log_panics_example = mkfs_log_panics (quiet 30) refl refl refl refl refl

-- `begin_op` three times, then `log_write` of the blocks from 100 on.
write_blocks : ℕ → ℕ → Log × Store → Option (Log × Store)
write_blocks b zero s = some s
write_blocks b (suc k) (l, s) = elim (log_write b l s) [
  | none ↦ none
  | some next ↦ write_blocks (b + 1) k next
]

three_in : Option Log
three_in = elim (begin_op (empty_log 30)) [
  | none ↦ none
  | some l ↦ elim (begin_op l) [ none ↦ none | some m ↦ begin_op m ]
]

fill_log : ℕ → Option (Log × Store)
unfolding three_in
fill_log k = elim three_in [ none ↦ none | some l ↦ write_blocks 100 k (l, changed 100) ]

is_panic : Option (Log × Store) → Bool
is_panic none = true
is_panic (some _) = false

-- 29 of the 30 reserved blocks can be written, and the last one panics.
last_block_panics : (is_panic (fill_log 29) ≡ false) × (is_panic (fill_log 30) ≡ true)
unfolding fill_log write_blocks begin_op log_write find_block bpin is_panic
last_block_panics = (refl, refl)

-- Block 100 is logged already: it is absorbed.
log_write-Logged_example :
    Logged 100 two_blocks_open
      (changed 9)
      (record two_blocks_open { block = update two_blocks.block 0 100 })
      (changed 9)
unfolding log_write find_block
log_write-Logged_example =
    log_write-Logged 100 two_blocks_open (changed 9) (λ i j lt h e. omega arith) refl
