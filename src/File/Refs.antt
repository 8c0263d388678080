-- ===== src/File/Refs.antt =====
-- The reference counts of the file table.
use intro2os_project.Prelude.{
  ℕ, zero, suc, ◌+◌, ◌*◌, ◌^◌, ◌≤◌, ◌<◌, ◌≡◌, ◌≢◌, inl, inr, ap, subst, Bool, some, none, List, [],
  ◌∷◌, ◌++◌, ◌==◌, if◌then◌else◌, update, sub32, arith, Bool-cases, length, All, length-append,
  All-left, All-right, All-append,
}
use intro2os_project.File.{
  File, Kind, Table, After, nothing, after, filealloc, filealloc_from, filedup, fileclose, nfile,
}

-- How often file `f` stands in a list of references.
abbrev pub count : ℕ → List ℕ → ℕ
count f [] = 0
count f (x ∷ xs) = (if x == f then 1 else 0) + count f xs

count-append : (f : ℕ) (xs ys : List ℕ) → count f (xs ++ ys) ≡ count f xs + count f ys
count-append f [] ys = omega arith
count-append f (x ∷ xs) ys = omega (arith, count-append f xs ys)

count_le : (f : ℕ) (xs : List ℕ) → count f xs ≤ length xs
count_le f [] = omega arith
count_le f (x ∷ xs) = ground (arith, count_le f xs)

-- The table, and the files that the processes hold references to.
pub record System : Type 0 where
  pub table : Table
  pub held : List ℕ

-- A process has NOFILE descriptors and at most two references in flight.
abbrev pub max_held : ℕ
max_held = 64 * (16 + 2)

pub data Step (s : System) : System → Type 0 where
  allocates :
      (i : ℕ)
      → (filealloc s.table).0 ≡ suc i
      → length s.held < max_held
      → Step s (record { table = (filealloc s.table).1; held = i ∷ s.held })
  dups :
      (i : ℕ) (xs ys : List ℕ) {t : Table}
      → s.held ≡ xs ++ (i ∷ ys)
      → filedup i s.table ≡ some t
      → length s.held < max_held
      → Step s (record { table = t; held = i ∷ s.held })
  closes :
      (i : ℕ) (xs ys : List ℕ) {last : Bool × After} {t : Table}
      → s.held ≡ xs ++ (i ∷ ys)
      → fileclose i s.table ≡ some (last, t)
      → Step s (record { table = t; held = xs ++ ys })
  -- The fields other than the count change while a file is in use.
  uses :
      (i : ℕ) (f : File)
      → f.ref ≡ (s.table i).ref
      → Step s (record s { table = update s.table i f })

pub data Reach (s : System) : System → Type 0 where
  here : Reach s s
  later : {t u : System} → Reach s t → Step t u → Reach s u

pub record IsCounted (s : System) : Type 0 where
  pub counted : (f : ℕ) → f < nfile → (s.table f).ref ≡ count f s.held
  pub known : All (λ f. f < nfile) s.held
  pub few : length s.held ≤ max_held

-- The file that `filealloc` takes had no reference, and has one.
record Took (i k j : ℕ) (t u : Table) : Type 0 where
  low : i ≤ j
  high : j < i + k
  free : (t j).ref ≡ 0
  one : (u j).ref ≡ 1
  others : (m : ℕ) → m ≢ j → u m ≡ t m

filealloc_from-Took :
    (i k j : ℕ) (t : Table)
    → (filealloc_from i k t).0 ≡ suc j
    → Took i k j t (filealloc_from i k t).1
unfolding filealloc_from
filealloc_from-Took i zero j t e = absurd (omega arith)
filealloc_from-Took i (suc k) j t e = elim (Bool-cases ((t i).ref == 0)) [
  | inl z ↦ rw z (record {
    low = ground arith;
    high = ground arith;
    free = ground arith;
    one = ground arith;
    others = λ m ne. ground arith;
  })
  | inr z ↦
      let r = filealloc_from-Took (i + 1) k j t (ground arith) in
      rw z (record {
        low = omega (arith, r.low);
        high = omega (arith, r.high);
        free = r.free;
        one = r.one;
        others = r.others;
      })
]

filealloc-Took : (j : ℕ) (t : Table) → (filealloc t).0 ≡ suc j → Took 0 nfile j t (filealloc t).1
unfolding filealloc
filealloc-Took j t e = filealloc_from-Took 0 nfile j t e

-- The counts behind `filedup` and `fileclose`.
filedup-ref :
    (i f : ℕ) (t : Table) {u : Table}
    → filedup i t ≡ some u
    → (t i).ref < 2 ^ 31
    → (u f).ref ≡ (if i == f then 1 else 0) + (t f).ref
unfolding filedup
filedup-ref i f t e lt = ground arith

fileclose-ref :
    (i f : ℕ) (t : Table) {last : Bool × After} {u : Table}
    → fileclose i t ≡ some (last, u)
    → (t i).ref < 2 ^ 31
    → (if i == f then 1 else 0) + (u f).ref ≡ (t f).ref
unfolding fileclose
fileclose-ref i f t e lt = ground arith

-- A reference that a process holds is counted.
held-counted :
    (s : System) (i : ℕ) (xs ys : List ℕ)
    → IsCounted s
    → s.held ≡ xs ++ (i ∷ ys)
    → (i < nfile) × ((s.table i).ref ≡ suc (count i (xs ++ ys))) × ((s.table i).ref < 2 ^ 31)
held-counted s i xs ys v e =
    let k = All-right (λ f. f < nfile) xs (i ∷ ys) (subst (All (λ f. f < nfile)) e v.known) in
    (
      k.0,
      ground (
        arith,
        v.counted i k.0,
        ap (count i) e,
        count-append i xs (i ∷ ys),
        count-append i xs ys,
      ),
      omega (arith, v.counted i k.0, count_le i s.held, v.few),
    )

Step-IsCounted : {s t : System} → Step s t → IsCounted s → IsCounted t
Step-IsCounted {s} (allocates i e few) v =
    let k = filealloc-Took i s.table e in
    record {
      counted = λ f lt. ground (arith, v.counted f, k.free, k.one, k.others f);
      known = (k.high, v.known);
      few = omega arith;
    }
Step-IsCounted {s} (dups i xs ys e d few) v = record {
  counted = λ f lt.
      omega (arith, filedup-ref i f s.table d (held-counted s i xs ys v e).2, v.counted f lt);
  known = ((held-counted s i xs ys v e).0, v.known);
  few = omega arith;
}
Step-IsCounted {s} (closes i xs ys e c) v = record {
  counted = λ f lt. omega (
    arith,
    fileclose-ref i f s.table c (held-counted s i xs ys v e).2,
    v.counted f lt,
    ap (count f) e,
    count-append f xs (i ∷ ys),
    count-append f xs ys,
  );
  known =
      let k = subst (All (λ f. f < nfile)) e v.known in
      All-append (λ f. f < nfile) xs ys (All-left (λ f. f < nfile) xs (i ∷ ys) k)
        (All-right (λ f. f < nfile) xs (i ∷ ys) k).1;
  few = omega (arith, v.few, ap length e, length-append xs (i ∷ ys), length-append xs ys);
}
Step-IsCounted {s} (uses i f e) v = record {
  counted = λ g lt. ground (arith, v.counted g);
  known = v.known;
  few = v.few;
}

fileclose_result :
    (i n : ℕ) (t : Table)
    → (t i).ref ≡ suc n
    → (t i).ref < 2 ^ 31
    → (u : Table) × (fileclose i t ≡ some ((n == 0, if n == 0 then after (t i) else nothing), u))
unfolding fileclose
fileclose_result i n t e lt = elim (Bool-cases (n == 0)) [
  | inl z ↦ (update t i (record (t i) { ref = 0; kind = Kind.fd_none }), ground (arith, z, e))
  | inr z ↦ (update t i (record (t i) { ref = sub32 (t i).ref 1 }), ground (arith, z, e))
]

-- No file is in use at boot.
pub record IsFresh (t : Table) : Type 0 where
  pub free : (f : ℕ) → (t f).ref ≡ 0

Reach-IsCounted : {s t : System} → Reach s t → IsCounted s → IsCounted t
Reach-IsCounted here v = v
Reach-IsCounted (later r st) v = Step-IsCounted st (Reach-IsCounted r v)

-- In every state that opens, duplications and closes reach from boot, with at most NOFILE + 2
-- references for each process, take any reference `i` that a process holds. Neither `filedup` nor
-- `fileclose` of it panics, `fileclose` gives the pipe or the inode behind the file up exactly if
-- no other reference to that file is held, and `filealloc` does not hand out that file.
pub refs_sound :
    {boot : Table} {s : System} (i : ℕ) (xs ys : List ℕ)
    → IsFresh boot
    → Reach (record { table = boot; held = [] }) s
    → s.held ≡ xs ++ (i ∷ ys)
    → (filedup i s.table ≢ none)
      × ((t : Table) × (fileclose i s.table
            ≡ some (
              (
                count i (xs ++ ys) == 0,
                if count i (xs ++ ys) == 0 then after (s.table i) else nothing,
              ),
              t,
            )))
      × ((filealloc s.table).0 ≢ suc i)
unfolding filedup fileclose
refs_sound {boot} {s} i xs ys z r e =
    let v =
      Reach-IsCounted r (record { counted = λ f lt. z.free f; known = tt; few = omega arith }) in
    let h = held-counted s i xs ys v e in
    (
      λ n. ground (arith, h.1, h.2),
      fileclose_result i (count i (xs ++ ys)) s.table h.1 h.2,
      λ a. omega (arith, (filealloc-Took i s.table a).free, h.1),
    )
