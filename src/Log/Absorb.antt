-- ===== src/Log/Absorb.antt =====
-- `log_write`: one log entry for each block, however often it is written.
use intro2os_project.Prelude.{
  ℕ, zero, suc, ◌+◌, ◌≤◌, ◌<◌, ◌≡◌, ◌≢◌, ◌⊎◌, inl, inr, ◌∙◌, sym, subst, ◌==◌, update, update_self,
  update_ne, arith, dec_lt, ℕ_discrete, some, if◌then◌else◌,
}
use intro2os_project.Log.{Log, Store, find_block, log_write, bpin}

-- What the search of `log_write` finds: the first index that holds `b`, or the end.
pub record Found (block : ℕ → ℕ) (b from n i : ℕ) : Type 0 where
  pub low : from ≤ i
  pub high : i ≤ n
  pub first : (j : ℕ) → from ≤ j → j < i → block j ≢ b
  pub hit : i < n → block i ≡ b

pub find_block-Found :
    (block : ℕ → ℕ) (b i k n : ℕ) → i + k ≡ n → Found block b i n (find_block block b i k)
unfolding find_block
find_block-Found block b i zero n e = record {
  low = omega arith;
  high = omega arith;
  first = λ j lo hi. absurd (omega arith);
  hit = λ h. absurd (omega arith);
}
find_block-Found block b i (suc k) n e = elim (ℕ_discrete (block i) b) [
  | yes h ↦ rw (found h) (record {
    low = omega arith;
    high = omega arith;
    first = λ j lo hi. absurd (omega arith);
    hit = λ _. h;
  })
  | no h ↦ rw (next h) (later h (find_block-Found block b (i + 1) k n (omega arith)))
]
  where
    found : block i ≡ b → find_block block b i (suc k) ≡ i
    found h = ground arith

    next : block i ≢ b → find_block block b i (suc k) ≡ find_block block b (i + 1) k
    next h = ground arith

    later : block i ≢ b → {m : ℕ} → Found block b (i + 1) n m → Found block b i n m
    later h {m} f = record {
      low = omega (arith, f.low);
      high = f.high;
      first = λ j lo hi. elim (ℕ_discrete i j) [
        | yes same ↦ subst (λ x. block x ≢ b) same h
        | no other ↦ f.first j (omega arith) hi
      ];
      hit = f.hit;
    }

-- Each logged block has one entry.
abbrev pub NoRepeats : Log → Type 0
NoRepeats l = (i j : ℕ) → i < j → j < l.n → l.block i ≢ l.block j

-- What `log_write` of block `b` makes of a log and its store.
pub record Logged (b : ℕ) (l : Log) (s : Store) (l' : Log) (s' : Store) : Type 0 where
  pub entry : (j : ℕ) × (j < l'.n) × (l'.block j ≡ b)
  pub kept : (j : ℕ) → j < l.n → l'.block j ≡ l.block j
  pub once : NoRepeats l'
  pub grown : ((l'.n ≡ l.n) × (s' ≡ s)) ⊎ ((l'.n ≡ l.n + 1) × (s' ≡ bpin b s))

-- The new log, whether the block was found or not.
abbrev entered : ℕ → ℕ → Log → Log
entered b i l = record l { block = update l.block i b; n = if i == l.n then l.n + 1 else l.n }

log_write-inv :
    (b : ℕ) (l : Log) (s : Store) {l' : Log} {s' : Store}
    → log_write b l s ≡ some (l', s')
    → (l' ≡ entered b (find_block l.block b 0 l.n) l)
      × (s' ≡ (if find_block l.block b 0 l.n == l.n then bpin b s else s))
unfolding log_write
log_write-inv b l s e = ground arith

module _ (b i : ℕ) (l : Log) (f : Found l.block b 0 l.n i) where
  entered_kept : (j : ℕ) → j < l.n → (entered b i l).block j ≡ l.block j
  entered_kept j h = elim (ℕ_discrete i j) [
    | yes e ↦
        let hit : l.block i ≡ b = f.hit (omega arith) in
        subst (λ k. update l.block i b k ≡ l.block k) e (update_self l.block i b ∙ sym hit)
    | no e ↦ update_ne l.block i b j e
  ]

  entered_once : NoRepeats l → NoRepeats (entered b i l)
  entered_once once j k lt hi eq = elim (dec_lt k l.n) [
    | yes old ↦ once j k lt old (sym (entered_kept j (omega arith)) ∙ eq ∙ entered_kept k old)
    | no new ↦ ground (arith, f.high, f.first j, entered_kept j, update_self l.block i b)
  ]

-- On a log with no block twice, a successful `log_write` of block `b` leaves one entry for `b`,
-- keeps every other entry and its place, logs no block twice, and adds an entry, and pins the
-- buffer, only for a block that had none.
pub log_write-Logged :
    (b : ℕ) (l : Log) (s : Store) {l' : Log} {s' : Store}
    → NoRepeats l
    → log_write b l s ≡ some (l', s')
    → Logged b l s l' s'
log_write-Logged b l s once e =
    let (el, es) = log_write-inv b l s e in
    rw (el, es) (made (find_block-Found l.block b 0 l.n l.n (omega arith)))
  where
    made :
        {i : ℕ}
        → Found l.block b 0 l.n i
        → Logged b l s (entered b i l) (if i == l.n then bpin b s else s)
    made {i} f = record {
      entry = (i, ground (arith, f.high), update_self l.block i b);
      kept = entered_kept b i l f;
      once = entered_once b i l f once;
      grown = elim (ℕ_discrete i l.n) [
        | yes new ↦ inr (ground arith, ground arith)
        | no old ↦ inl (ground arith, ground arith)
      ];
    }
