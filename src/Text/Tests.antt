-- ===== src/Text/Tests.antt =====
-- The byte loops on small arrays, and their theorems there.
use intro2os_project.Prelude.{ℕ, ◌+◌, ◌<◌, ◌≡◌, refl, arith, ◌==◌, if◌then◌else◌}
use intro2os_project.Prelude.Int.{pos}
use intro2os_project.Text.{
  Bytes, memmove, move_up, move_down, strncmp, strncmp_from, strncpy, safestrcpy, safestrcpy_from,
  strlen_from,
}
use intro2os_project.Text.Move.{Moved, memmove-Moved}
use intro2os_project.Text.Copy.{Spells, safestrcpy_terminates}
use intro2os_project.Text.Compare.{strncmp-strncpy}

abbrev letters : Bytes
letters i = if i == 5 then 0 else i + 97

abbrev blank : Bytes
blank i = 63

overlap_up : memmove letters 2 0 3 4 ≡ 99
unfolding memmove move_down move_up
overlap_up = refl

cut : safestrcpy blank letters 4 3 ≡ 0
unfolding safestrcpy safestrcpy_from
cut = refl

length_five : strlen_from 9 letters 0 ≡ 5
unfolding strlen_from
length_five = refl

less : strncmp letters blank 3 ≡ pos 34
unfolding strncmp strncmp_from
less = refl

memmove-Moved_example : Moved letters 2 0 3 (memmove letters 2 0 3)
memmove-Moved_example = memmove-Moved letters 2 0 3

safestrcpy_terminates_example :
    (len : ℕ) × (len < 4)
    × Spells (safestrcpy blank letters 4) len
    × ((j : ℕ) → j < len → safestrcpy blank letters 4 j ≡ letters j)
    × (len + 1 < 4 → letters len ≡ 0)
safestrcpy_terminates_example = safestrcpy_terminates blank letters 4 (omega arith)

strncmp-strncpy_example : strncmp letters (strncpy blank letters 14) 14 ≡ pos 0
strncmp-strncpy_example = strncmp-strncpy blank letters 14
