-- ===== src/Proc/Count.antt =====
-- What the numbers of `sysinfo` count: `kcollect_nproc` and `kcollect_load`.
use intro2os_project.Prelude.{
  ℕ, zero, suc, ◌+◌, ◌-◌, ◌^◌, ◌<◌, ◌≡◌, inl, inr, ◌∙◌, Bool, not, ◌||◌, if◌then◌else◌, arith,
  Bool-cases, ◌%◌,
}
use intro2os_project.Proc.{
  Proc, State, Table, count_from, kcollect_nproc, kcollect_load, nproc, ncpu, is_unused, is_running,
  is_runnable,
}

-- How many of the `k` processes from `i` on pass a test.
unfoldable pub tally : (State → Bool) → (ℕ → Proc) → ℕ → ℕ → ℕ
tally test procs i zero = 0
tally test procs i (suc k) = (if test (procs i).state then 1 else 0) + tally test procs (i + 1) k

pub used : State → Bool
used s = not (is_unused s)

pub ready : State → Bool
ready s = is_running s || is_runnable s

count_from-tally :
    (test : State → Bool) (procs : ℕ → Proc) (i k count : ℕ)
    → count + k < 2 ^ 64
    → count_from test procs i k count ≡ count + tally test procs i k
unfolding count_from tally
count_from-tally test procs i zero count h = omega arith
count_from-tally test procs i (suc k) count h = elim (Bool-cases (test (procs i).state)) [
  | inl e ↦
      rw e
        (omega (arith, count_from-tally test procs (i + 1) k ((count + 1) % 2 ^ 64) (omega arith)))
  | inr e ↦ rw e (omega (arith, count_from-tally test procs (i + 1) k count (omega arith)))
]

tally-split :
    (test : State → Bool) (procs : ℕ → Proc) (i k m n j : ℕ)
    → n ≡ k + m
    → j ≡ i + k
    → tally test procs i n ≡ tally test procs i k + tally test procs j m
unfolding tally
tally-split test procs i zero m n j e f =
    let en : n ≡ m = omega arith in let ej : j ≡ i = omega arith in rw (en, ej) (omega arith)
tally-split test procs i (suc k) m zero j e f = absurd (omega arith)
tally-split test procs i (suc k) m (suc n) j e f =
    omega (arith, tally-split test procs (i + 1) k m n j (omega arith) (omega arith))

-- `kcollect_load` counts the processes of the whole table that run or are ready to run.
pub kcollect_load-tally : (t : Table) → kcollect_load t ≡ tally ready t.procs 0 nproc
unfolding kcollect_load ready
kcollect_load-tally t =
    count_from-tally (λ s. is_running s || is_runnable s) t.procs 0 nproc 0 (omega arith)
    ∙ omega arith

-- `kcollect_nproc` misses every process from slot NCPU on: what it counts and what stands in those slots
-- add up to the processes of the table.
pub kcollect_nproc_misses :
    (t : Table)
    → kcollect_nproc t + tally used t.procs ncpu (nproc - ncpu) ≡ tally used t.procs 0 nproc
unfolding kcollect_nproc used
kcollect_nproc_misses t = omega (
  arith,
  count_from-tally (λ s. not (is_unused s)) t.procs 0 ncpu 0 (omega arith),
  tally-split (λ s. not (is_unused s)) t.procs 0 ncpu (nproc - ncpu) nproc ncpu (omega arith)
      (omega arith),
)
