-- ===== src/Log/Reserve.antt =====
-- The reservation of log space: `begin_op` lets an operation in only if every operation that is in
-- can still write MAXOPBLOCKS blocks.
use intro2os_project.Prelude.{
  ℕ, suc, ◌+◌, ◌-◌, ◌*◌, ◌%◌, ◌^◌, ◌≤◌, ◌<◌, ◌≡◌, ◌≢◌, ap, ◌∙◌, subst, true, false, arith, some,
  none, List, [], ◌∷◌, ◌++◌, length, length-append, All,
}
use intro2os_project.Log.{
  Log, Store, log_write, begin_op, end_op, end_op_first, commit, logsize, maxopblocks,
}

-- The log with the operations that are in, each by the number of blocks that it may still write.
pub record Running : Type 0 where
  pub log : Log
  pub store : Store
  pub credits : List ℕ

unfoldable pub sum : List ℕ → ℕ
sum [] = 0
sum (x ∷ xs) = x + sum xs

sum-append : (xs ys : List ℕ) → sum (xs ++ ys) ≡ sum xs + sum ys
unfolding sum
sum-append [] ys = omega arith
sum-append (x ∷ xs) ys = omega (arith, sum-append xs ys)

sum-le : (xs : List ℕ) → All (λ x. x ≤ maxopblocks) xs → sum xs ≤ length xs * maxopblocks
unfolding sum
sum-le [] h = omega arith
sum-le (x ∷ xs) h = omega (arith, sum-le xs h.1, h.0)

-- One call of an operation: it enters, writes one of its blocks, or leaves.
pub data Step (r : Running) : Running → Type 0 where
  enters :
      {l : Log}
      → begin_op r.log ≡ some l
      → Step r (record r { log = l; credits = maxopblocks ∷ r.credits })
  writes :
      (b c : ℕ) (xs ys : List ℕ) {l : Log} {s : Store}
      → r.credits ≡ xs ++ (suc c ∷ ys)
      → log_write b r.log r.store ≡ some (l, s)
      → Step r (record { log = l; store = s; credits = xs ++ (c ∷ ys) })
  leaves :
      (c : ℕ) (xs ys : List ℕ) {l : Log} {s : Store}
      → r.credits ≡ xs ++ (c ∷ ys)
      → end_op r.log r.store ≡ some (l, s)
      → Step r (record { log = l; store = s; credits = xs ++ ys })

pub data Reach (r : Running) : Running → Type 0 where
  here : Reach r r
  later : {s t : Running} → Reach r s → Step s t → Reach r t

-- The entries of the log and those that the operations may still make fit LOGSIZE.
pub record IsReserved (r : Running) : Type 0 where
  pub counted : r.log.outstanding ≡ length r.credits
  pub few : length r.credits ≤ 3
  pub idle : r.log.committing ≡ false
  pub capped : All (λ c. c ≤ maxopblocks) r.credits
  pub fits : r.log.n + sum r.credits ≤ logsize

begin_op-inv :
    (l : Log) {l' : Log}
    → l.outstanding ≤ 3
    → l.n ≤ logsize
    → begin_op l ≡ some l'
    → (l' ≡ record l { outstanding = l.outstanding + 1 })
      × (l.n + (l.outstanding + 1) * maxopblocks ≤ logsize)
unfolding begin_op
begin_op-inv l few small e = ground arith

log_write-inv :
    (b : ℕ) (l : Log) (s : Store) {l' : Log} {s' : Store}
    → log_write b l s ≡ some (l', s')
    → (l'.n ≤ l.n + 1)
      × (l'.outstanding ≡ l.outstanding)
      × (l'.committing ≡ l.committing)
      × (l'.size ≡ l.size)
unfolding log_write
log_write-inv b l s e = ground arith

-- Shrinking one credit.
All-shrink :
    (xs ys : List ℕ) (c : ℕ)
    → All (λ x. x ≤ maxopblocks) (xs ++ (suc c ∷ ys))
    → All (λ x. x ≤ maxopblocks) (xs ++ (c ∷ ys))
All-shrink [] ys c h = (omega arith, h.1)
All-shrink (x ∷ xs) ys c h = (h.0, All-shrink xs ys c h.1)

All-drop :
    (xs ys : List ℕ) (c : ℕ)
    → All (λ x. x ≤ maxopblocks) (xs ++ (c ∷ ys))
    → All (λ x. x ≤ maxopblocks) (xs ++ ys)
All-drop [] ys c h = h.1
All-drop (x ∷ xs) ys c h = (h.0, All-drop xs ys c h.1)

commit-fields :
    (l : Log) (s : Store)
    → ((commit l s).0.n ≤ l.n)
      × ((commit l s).0.outstanding ≡ l.outstanding)
      × ((commit l s).0.size ≡ l.size)
unfolding commit
commit-fields l s = ground arith

end_op-inv :
    (l : Log) (s : Store) {l' : Log} {s' : Store}
    → 0 < l.outstanding
    → l.outstanding ≤ 3
    → end_op l s ≡ some (l', s')
    → (l'.n ≤ l.n)
      × (l'.outstanding + 1 ≡ l.outstanding)
      × (l'.committing ≡ false)
      × (l'.size ≡ l.size)
unfolding end_op end_op_first
end_op-inv l s pos few e = ground (
  arith,
  commit-fields
      (record l { outstanding = (l.outstanding + 2 ^ 32 - 1) % 2 ^ 32; committing = true }) s,
)

middle-length : (c d : ℕ) (xs ys : List ℕ) → length (xs ++ (c ∷ ys)) ≡ length (xs ++ (d ∷ ys))
middle-length c d xs ys = omega (arith, length-append xs (c ∷ ys), length-append xs (d ∷ ys))

Step-IsReserved : {r t : Running} → Step r t → IsReserved r → IsReserved t
unfolding sum
Step-IsReserved {r} (enters e) v =
    let (same, room) =
      begin_op-inv r.log (omega (arith, v.counted, v.few)) (omega (arith, v.fits)) e in
    rw same (record {
      counted = omega (arith, v.counted);
      few = omega (arith, v.counted, room);
      idle = v.idle;
      capped = (omega arith, v.capped);
      fits = omega (arith, v.counted, room, sum-le r.credits v.capped);
    })
Step-IsReserved {r} (writes b c xs ys e w) v =
    let (n, o, k, _) = log_write-inv b r.log r.store w in
    let len : length r.credits ≡ length (xs ++ (c ∷ ys)) =
      ap length e ∙ middle-length (suc c) c xs ys in
    record {
      counted = o ∙ v.counted ∙ len;
      few = omega (arith, len, v.few);
      idle = k ∙ v.idle;
      capped = All-shrink xs ys c (subst (All (λ x. x ≤ maxopblocks)) e v.capped);
      fits = omega (arith, n, v.fits, ap sum e, sum-append xs (suc c ∷ ys), sum-append xs (c ∷ ys));
    }
Step-IsReserved {r} (leaves c xs ys e w) v =
    let len : length r.credits ≡ suc (length (xs ++ ys)) =
      ap length e ∙ omega (arith, length-append xs (c ∷ ys), length-append xs ys) in
    let (n, o, k, _) =
      end_op-inv r.log r.store (omega (arith, v.counted, len)) (omega (arith, v.counted, v.few))
        w in
    record {
      counted = omega (arith, o, v.counted, len);
      few = omega (arith, len, v.few);
      idle = k;
      capped = All-drop xs ys c (subst (All (λ x. x ≤ maxopblocks)) e v.capped);
      fits = omega (arith, n, v.fits, ap sum e, sum-append xs (c ∷ ys), sum-append xs ys);
    }

pub Reach-IsReserved : {r t : Running} → IsReserved r → Reach r t → IsReserved t
Reach-IsReserved h here = h
Reach-IsReserved h (later p st) = Step-IsReserved st (Reach-IsReserved h p)

log_write-room :
    (b : ℕ) (l : Log) (s : Store)
    → l.n < logsize
    → l.n + 1 < l.size
    → 0 < l.outstanding
    → l.outstanding ≤ 3
    → log_write b l s ≢ none
unfolding log_write
log_write-room b l s n room pos few = ground arith

-- Take any state that operations reach from one where the reservations are kept, in any
-- interleaving, with a log region of more than LOGSIZE blocks. While an operation has a reserved
-- block left, `log_write` of any block does not panic.
pub reservation_suffices :
    {r t : Running} (b c : ℕ) (xs ys : List ℕ)
    → IsReserved r
    → Reach r t
    → logsize < t.log.size
    → t.credits ≡ xs ++ (suc c ∷ ys)
    → log_write b t.log t.store ≢ none
unfolding sum
reservation_suffices {t} b c xs ys h p room e =
    let v = Reach-IsReserved h p in
    let len : length t.credits ≡ suc (length xs + length ys) =
      ap length e ∙ omega (arith, length-append xs (suc c ∷ ys)) in
    log_write-room b t.log t.store (omega (arith, v.fits, ap sum e, sum-append xs (suc c ∷ ys)))
      (omega (arith, v.fits, ap sum e, sum-append xs (suc c ∷ ys))) (omega (arith, v.counted, len))
      (omega (arith, v.counted, v.few))
