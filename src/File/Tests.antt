-- ===== src/File/Tests.antt =====
-- A file opened, duplicated and closed, and a write of two pieces.
use intro2os_project.Prelude.{
  ℕ, ◌+◌, ◌≡◌, ◌≢◌, refl, true, false, some, none, [], ◌∷◌, ◌==◌, if◌then◌else◌, update, arith,
}
use intro2os_project.File.{
  File, Kind, Table, nothing, after, filealloc, filealloc_from, filedup, fileclose, Services,
  write_pieces, write_inode,
}
use intro2os_project.File.Refs.{
  IsFresh, System, Reach, here, later, allocates, dups, count, refs_sound,
}

abbrev blank : File
blank = record {
  kind = Kind.fd_none;
  ref = 0;
  readable = true;
  writable = true;
  pipe = 0;
  ip = 7;
  off = 5;
  major = 0;
}

abbrev boot : Table
boot f = blank

boot-IsFresh : IsFresh boot
boot-IsFresh = record { free = λ f. refl }

-- File 0 is open, with two references.
abbrev opened : System
opened = record {
  table = update (update boot 0 (record blank { ref = 1 })) 0 (record blank { ref = 2 });
  held = 0 ∷ 0 ∷ [];
}

opened_reached : Reach (record { table = boot; held = [] }) opened
unfolding filealloc filealloc_from filedup
opened_reached =
    later (later here (allocates 0 refl (omega arith))) (dups 0 [] [] refl refl (omega arith))

refs_sound_example :
    (filedup 0 opened.table ≢ none)
    × ((t : Table) × (fileclose 0 opened.table
          ≡ some (
            (
              count 0 (0 ∷ []) == 0,
              if count 0 (0 ∷ []) == 0 then after (opened.table 0) else nothing,
            ),
            t,
          )))
    × ((filealloc opened.table).0 ≢ 1)
refs_sound_example = refs_sound 0 [] (0 ∷ []) boot-IsFresh opened_reached refl

-- The rest of the kernel counts the bytes that it writes.
abbrev counting : Services
counting = record {
  Rest = ℕ;
  piperead = λ pi addr n r. (none, r);
  pipewrite = λ pi addr n r. (none, r);
  dev_read = λ major. none;
  dev_write = λ major. none;
  readi_op = λ ip addr off n r. (none, r);
  write_op = λ ip src off n r. (some n, r + n);
  stati_op = λ ip addr r. (false, r);
}

abbrev inode_file : File
inode_file = record blank { kind = Kind.fd_inode; ref = 1 }

two_pieces :
    (write_inode counting inode_file 0 4000 0).1.pieces ≡ (0, (5, 3072)) ∷ (3072, (3077, 928)) ∷ []
unfolding write_inode write_pieces
two_pieces = refl
