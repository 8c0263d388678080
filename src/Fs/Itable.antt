-- ===== src/Fs/Itable.antt =====
-- The table of inodes in use holds every inode once.
use intro2os_project.Prelude.{
  ℕ, zero, suc, ◌+◌, ◌^◌, ◌≤◌, ◌<◌, ◌≡◌, ◌⊎◌, inl, inr, refl, ap, subst, true, false, Option, none,
  some, ◌==◌, update, u32, arith, Bool-cases, ℕ_discrete,
}
use intro2os_project.Fs.{
  Dinode, Table, Slot, found, spare, referenced, matches, first_empty, scan, iget, take_slot, idup,
  ilock, iput_frees, iput_free, iput_end, ninode,
}

-- What the loop of `iget` tells: the inode is there, or it is nowhere and the slot is empty.
Scanned : ℕ → ℕ → Table → ℕ → ℕ → Option ℕ → Slot → Type 0
Scanned dev inum t i k empty (found j) = (i ≤ j) × (j < i + k) × (matches dev inum (t j) ≡ true)
Scanned dev inum t i k empty (spare e) =
    ((j : ℕ) → i ≤ j → j < i + k → matches dev inum (t j) ≡ false)
    × ((m : ℕ) → e ≡ some m → (empty ≡ some m) ⊎ ((i ≤ m) × (m < i + k) × ((t m).ref ≡ 0)))

remembered :
    (t : Table) (i k m : ℕ) (empty : Option ℕ)
    → first_empty empty i (t i) ≡ some m
    → (empty ≡ some m) ⊎ ((i ≤ m) × (m < i + suc k) × ((t m).ref ≡ 0))
remembered t i k m (some x) e = inl e
remembered t i k m none e = elim (Bool-cases ((t i).ref == 0)) [
  | inl z ↦
      let same : i ≡ m = ground arith in
      inr (omega arith, omega arith, subst (λ j. (t j).ref ≡ 0) same (ground arith))
  | inr z ↦ absurd (ground arith)
]

wider :
    (dev inum : ℕ) (t : Table) (i k : ℕ) (empty : Option ℕ) (s : Slot)
    → matches dev inum (t i) ≡ false
    → Scanned dev inum t (i + 1) k (first_empty empty i (t i)) s
    → Scanned dev inum t i (suc k) empty s
unfolding Scanned
wider dev inum t i k empty (found j) missed h = (omega (arith, h.0), omega (arith, h.1), h.2)
wider dev inum t i k empty (spare e) missed h = (
  λ j lo hi. elim (ℕ_discrete i j) [
    | yes s ↦ subst (λ m. matches dev inum (t m) ≡ false) s missed
    | no ne ↦ h.0 j (omega arith) (omega arith)
  ],
  λ m eq. elim (h.1 m eq) [
    | inl first ↦ remembered t i k m empty first
    | inr later ↦ inr (omega (arith, later.0), omega (arith, later.1), later.2)
  ],
)

scan-Scanned :
    (dev inum : ℕ) (t : Table) (i k : ℕ) (empty : Option ℕ)
    → Scanned dev inum t i k empty (scan dev inum t i k empty)
unfolding scan Scanned
scan-Scanned dev inum t i zero empty = (λ j lo hi. absurd (omega arith), λ m e. inl e)
scan-Scanned dev inum t i (suc k) empty = elim (Bool-cases (matches dev inum (t i))) [
  | inl here ↦ rw (here, scan) (omega arith, omega arith, here)
  | inr there ↦
      let empty' = first_empty empty i (t i) in
      rw (there, scan)
        (wider dev inum t i k empty (scan dev inum t (i + 1) k empty') there
          (scan-Scanned dev inum t (i + 1) k empty'))
]

-- No two slots in use hold the same inode.
pub IsUnique : Table → Type 0
IsUnique t =
    (i j : ℕ)
    → i < ninode
    → j < ninode
    → referenced (t i) ≡ true
    → referenced (t j) ≡ true
    → (t i).dev ≡ (t j).dev
    → (t i).inum ≡ (t j).inum
    → i ≡ j

-- Fewer than 2 ^ 31 places hold a reference to one inode.
pub data Step (t : Table) : Table → Type 0 where
  gets :
      (dev inum i : ℕ) {u : Table}
      → iget dev inum t ≡ some (i, u)
      → (t i).ref + 1 < 2 ^ 31
      → Step t u
  dups : (i : ℕ) → referenced (t i) ≡ true → (t i).ref + 1 < 2 ^ 31 → Step t (idup i t)
  locks : (d : Dinode) (i : ℕ) {u : Table} → ilock d i t ≡ some u → Step t u
  frees : (i : ℕ) → iput_frees i t ≡ true → Step t (iput_free i t)
  puts : (i : ℕ) → referenced (t i) ≡ true → Step t (iput_end i t)

pub data Reach (t : Table) : Table → Type 0 where
  here : Reach t t
  later : {u v : Table} → Reach t u → Step u v → Reach t v

-- How `iget` answers: with the slot that holds the inode, or with an empty one where none does.
data Got (dev inum : ℕ) (t : Table) (i : ℕ) (u : Table) : Type 0 where
  shared :
      i < ninode
      → matches dev inum (t i) ≡ true
      → u ≡ update t i (record (t i) { ref = u32 ((t i).ref + 1) })
      → Got dev inum t i u
  fresh :
      i < ninode
      → (t i).ref ≡ 0
      → ((j : ℕ) → j < ninode → matches dev inum (t j) ≡ false)
      → u ≡ update t i (record (t i) { dev = dev; inum = inum; ref = 1; valid = false })
      → Got dev inum t i u

take_slot-Got :
    (dev inum i : ℕ) (t : Table) (s : Slot) {u : Table}
    → Scanned dev inum t 0 ninode none s
    → take_slot dev inum t s ≡ some (i, u)
    → Got dev inum t i u
unfolding take_slot Scanned
take_slot-Got dev inum i t (found j) h e =
    let same : j ≡ i = ground arith in
    shared (subst (λ m. m < ninode) same h.1) (subst (λ m. matches dev inum (t m) ≡ true) same h.2)
      (ground (arith, same))
take_slot-Got dev inum i t (spare none) h e = absurd (cc)
take_slot-Got dev inum i t (spare (some j)) h e =
    let same : j ≡ i = ground arith in
    elim (h.1 j refl) [
      | inl x ↦ absurd (cc)
      | inr x ↦
          fresh (omega (arith, x.1, same)) (subst (λ m. (t m).ref ≡ 0) same x.2)
            (λ m lt. h.0 m (omega arith) lt) (ground (arith, same))
    ]

iget-Got :
    (dev inum i : ℕ) (t : Table) {u : Table} → iget dev inum t ≡ some (i, u) → Got dev inum t i u
unfolding iget
iget-Got dev inum i t e =
    take_slot-Got dev inum i t (scan dev inum t 0 ninode none)
      (scan-Scanned dev inum t 0 ninode none) e

Got-IsUnique :
    (dev inum i : ℕ) (t : Table) {u : Table}
    → Got dev inum t i u
    → (t i).ref + 1 < 2 ^ 31
    → IsUnique t
    → IsUnique u
unfolding IsUnique
Got-IsUnique dev inum i t (shared lt m e) few v j k hj hk rj rk ed ei =
    ground (arith, v j k hj hk, e)
Got-IsUnique dev inum i t (fresh lt z no_other e) few v j k hj hk rj rk ed ei =
    ground (arith, v j k hj hk, e, no_other j hj, no_other k hk)

Step-IsUnique : {t u : Table} → Step t u → IsUnique t → IsUnique u
unfolding IsUnique idup ilock iput_free iput_end
Step-IsUnique {t} (gets dev inum i e few) v j k hj hk rj rk ed ei =
    Got-IsUnique dev inum i t (iget-Got dev inum i t e) few v j k hj hk rj rk ed ei
Step-IsUnique {t} (dups i r few) v j k hj hk rj rk ed ei = ground (arith, v j k hj hk)
Step-IsUnique {t} (locks d i e) v j k hj hk rj rk ed ei = ground (arith, v j k hj hk)
Step-IsUnique {t} (frees i e) v j k hj hk rj rk ed ei = ground (arith, v j k hj hk)
Step-IsUnique {t} (puts i r) v j k hj hk rj rk ed ei = ground (arith, v j k hj hk)

Reach-IsUnique : {t u : Table} → Reach t u → IsUnique t → IsUnique u
Reach-IsUnique here v = v
Reach-IsUnique (later r s) v = Step-IsUnique s (Reach-IsUnique r v)

take_slot-shares :
    (dev inum j : ℕ) (t : Table) (s : Slot)
    → IsUnique t
    → j < ninode
    → matches dev inum (t j) ≡ true
    → Scanned dev inum t 0 ninode none s
    → take_slot dev inum t s ≡ some (j, update t j (record (t j) { ref = u32 ((t j).ref + 1) }))
unfolding take_slot Scanned IsUnique
take_slot-shares dev inum j t (found i) v lt m h =
    let same : i ≡ j = ground (arith, v i j h.1 lt, h.2, m) in
    ap (λ k. some (k, update t k (record (t k) { ref = u32 ((t k).ref + 1) }))) same
take_slot-shares dev inum j t (spare e) v lt m h =
    absurd (ground (arith, h.0 j (omega arith) lt, m))

-- In every state of the table that is reached from one with no slot in use, with fewer than 2 ^ 31
-- references to an inode, an `iget` of an inode that slot `j` holds in use answers `j`, with one
-- reference more and nothing else changed.
pub iget_shares :
    {boot t : Table} (dev inum j : ℕ)
    → ((i : ℕ) → (boot i).ref ≡ 0)
    → Reach boot t
    → j < ninode
    → matches dev inum (t j) ≡ true
    → iget dev inum t ≡ some (j, update t j (record (t j) { ref = u32 ((t j).ref + 1) }))
unfolding iget IsUnique
iget_shares {boot} {t} dev inum j fresh_boot r lt m =
    take_slot-shares dev inum j t (scan dev inum t 0 ninode none)
      (Reach-IsUnique r (λ i k hi hk ri. absurd (ground (arith, fresh_boot i)))) lt m
      (scan-Scanned dev inum t 0 ninode none)
