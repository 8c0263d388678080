-- ===== src/Fs/Tests.antt =====
-- An inode that two users get, and the elements of "a//bb".
use intro2os_project.Prelude.{
  ℕ, ◌+◌, ◌≡◌, refl, false, ◌||◌, Option, none, some, ◌==◌, if◌then◌else◌, update, u32, arith,
}
use intro2os_project.Fs.{Dinode, Table, iget, take_slot, scan, skipelem, skip_slashes, skip_name}
use intro2os_project.Fs.Itable.{Reach, here, later, gets, iget_shares}
use intro2os_project.Fs.Path.{Skipped, skipelem-Skipped}

abbrev no_file : Dinode
no_file = record { ftype = 0; major = 0; minor = 0; nlink = 0; size = 0; addrs = λ i. 0 }

abbrev boot : Table
boot i = record { dev = 0; inum = 0; ref = 0; valid = false; copy = no_file }

-- Slot 0 holds the root directory.
abbrev rooted : Table
rooted = update boot 0 (record (boot 0) { dev = 1; inum = 1; ref = 1 })

rooted_reached : Reach boot rooted
unfolding iget take_slot scan
rooted_reached = later here (gets 1 1 0 refl (omega arith))

iget_shares_example :
    iget 1 1 rooted
    ≡ some (0, update rooted 0 (record (rooted 0) { ref = u32 ((rooted 0).ref + 1) }))
iget_shares_example = iget_shares 1 1 0 (λ i. refl) rooted_reached (omega arith) refl

-- "a//bb"
abbrev path : ℕ → ℕ
path j = if j == 0 then 97 else if j == 1 || j == 2 then 47 else if j == 3 || j == 4 then 98 else 0

position : Option (ℕ × (ℕ → ℕ)) → ℕ
position none = 99
position (some (q, name)) = q

-- The rest behind "a" is "bb", behind that the end, and there no name is left.
positions :
    (position (skipelem 9 path 0 (λ j. 63)) ≡ 3)
    × (position (skipelem 9 path 3 (λ j. 63)) ≡ 5)
    × (position (skipelem 9 path 5 (λ j. 63)) ≡ 99)
unfolding skipelem skip_slashes skip_name position
positions = (refl, refl, refl)

skipelem-Skipped_example : Skipped path 0 5 (skipelem 9 path 0 (λ j. 63))
skipelem-Skipped_example = skipelem-Skipped path 5 9 0 (λ j. 63) refl (omega arith) (omega arith)
