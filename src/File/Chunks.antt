-- ===== src/File/Chunks.antt =====
-- How `filewrite` cuts a long write into transactions.
use intro2os_project.Prelude.{ℕ, ◌+◌, ◌≤◌, ◌<◌, ◌≡◌, some, List, [], ◌∷◌, ◌≢◌, ◌⊎◌, u32, u64}
use intro2os_project.File.{File, Services, Wrote, max_piece, piece}

-- The pieces follow each other in the user's buffer from byte `i` on and in the file from `off` on, none is
-- empty or larger than one transaction takes, and they end at byte `stop`.
unfoldable pub Covers : ℕ → ℕ → ℕ → List (ℕ × (ℕ × ℕ)) → Type 0
Covers i off stop [] = i ≡ stop
Covers i off stop (p ∷ ps) =
    (p.0 ≡ i)
    × (p.1.0 ≡ off)
    × (0 < p.1.1)
    × (p.1.1 ≤ max_piece)
    × Covers (i + p.1.1) (u32 (off + p.1.1)) stop ps

module _ (sv : Services) where
  open sv use {Rest, write_op}

  -- The inode layer did not write the piece of `n` bytes at byte `i` whole.
  abbrev pub FellShort : ℕ → ℕ → ℕ → ℕ → Type 0
  FellShort ip addr i n =
      (off : ℕ) × (r : Rest) × ((write_op ip (u64 (addr + i)) off (piece i n) r).0
        ≢ some (piece i n))

  -- A write from byte `i` on that came to the end, or to a piece that was not written whole.
  abbrev pub Written : File → ℕ → ℕ → ℕ → Wrote sv → Type 0
  Written f addr i n w =
      ((w.i ≡ n) × Covers i f.off n w.pieces)
      ⊎ ((w.i < n) × Covers i f.off (w.i + piece w.i n) w.pieces × FellShort f.ip addr w.i n)
