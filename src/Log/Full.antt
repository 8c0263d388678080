-- ===== src/Log/Full.antt =====
-- The log region that mkfs makes, filled by operations that keep to their reservations.
use intro2os_project.Prelude.{
  ℕ, zero, suc, ◌+◌, ◌-◌, ◌^◌, ◌<◌, ◌≡◌, ◌≢◌, refl, sym, ap, ◌∙◌, subst, true, false, some, none,
  List, [], ◌∷◌, ◌++◌, ◌==◌, ◌||◌, ltb, leb, update, update_self, update_ne, arith, ℕ_discrete,
  dec_lt,
}
use intro2os_project.Log.{Log, Store, find_block, bpin, log_write, begin_op, logsize, maxopblocks}
use intro2os_project.Log.Absorb.{find_block-Found}
use intro2os_project.Log.Reserve.{Running, Reach, enters, writes, here, later}

-- The log with block `b` at its end.
abbrev with_entry : ℕ → Log → Log
with_entry b l = record l { block = update l.block l.n b; n = l.n + 1 }

not_found :
    (b : ℕ) (l : Log) → ((j : ℕ) → j < l.n → l.block j ≢ b) → find_block l.block b 0 l.n ≡ l.n
not_found b l new =
    let f = find_block-Found l.block b 0 l.n l.n (omega arith) in
    elim (dec_lt (find_block l.block b 0 l.n) l.n) [
      | yes h ↦ absurd (new (find_block l.block b 0 l.n) h (f.hit h))
      | no h ↦ let high = f.high in omega arith
    ]

log_write_new :
    (b : ℕ) (l : Log) (s : Store)
    → ((j : ℕ) → j < l.n → l.block j ≢ b)
    → l.n < logsize
    → l.n + 1 < l.size
    → l.outstanding ≡ 3
    → log_write b l s ≡ some (with_entry b l, bpin b s)
unfolding log_write
log_write_new b l s new room region three =
    let e = not_found b l new in
    let low : (leb logsize l.n || leb (l.size - 1) l.n) ≡ false = ground arith in
    let inside : (ltb l.outstanding 1 || leb (2 ^ 31) l.outstanding) ≡ false = ground arith in
    let last : (l.n == l.n) ≡ true = ground arith in rw (low, inside, e, last) refl

-- A state that is reached with the blocks 0 to `m - 1` logged.
record Filled (r : Running) (m : ℕ) (t : Running) : Type 0 where
  reached : Reach r t
  size : t.log.size ≡ logsize
  three : t.log.outstanding ≡ 3
  count : t.log.n ≡ m
  entries : (j : ℕ) → j < m → t.log.block j ≡ j

-- An operation uses `k` blocks of its reservation.
fill_up :
    (r t : Running) (k m c : ℕ) (xs ys : List ℕ)
    → Filled r m t
    → m + k < logsize
    → t.credits ≡ xs ++ ((k + c) ∷ ys)
    → (u : Running) × Filled r (m + k) u × (u.credits ≡ xs ++ (c ∷ ys))
fill_up r t zero m c xs ys f small e =
    let z : m + 0 ≡ m = omega arith in
    let y : 0 + c ≡ c = omega arith in
    (t, subst (λ q. Filled r q t) (sym z) f, subst (λ q. t.credits ≡ xs ++ (q ∷ ys)) y e)
fill_up r t (suc k) m c xs ys f small e =
    let z : m + suc k ≡ m + 1 + k = omega arith in
    let y : suc k + c ≡ suc (k + c) = omega arith in
    let w =
      log_write_new m t.log t.store
        (λ j lt q.
          let count = f.count in
          let low : j < m = omega arith in let same = sym (f.entries j low) ∙ q in omega arith)
        (omega (arith, f.count)) (omega (arith, f.count, f.size)) f.three in
    let next : Running = record {
      log = with_entry m t.log;
      store = bpin m t.store;
      credits = xs ++ ((k + c) ∷ ys);
    } in
    let more : Filled r (m + 1) next = record {
      reached =
          later f.reached (writes m (k + c) xs ys (subst (λ q. t.credits ≡ xs ++ (q ∷ ys)) y e) w);
      size = f.size;
      three = f.three;
      count = ap (λ q. q + 1) f.count;
      entries = λ j lt. elim (ℕ_discrete t.log.n j) [
        | yes q ↦
            subst (λ x. update t.log.block t.log.n m x ≡ x) q
              (update_self t.log.block t.log.n m ∙ sym f.count)
        | no n ↦
            update_ne t.log.block t.log.n m j n ∙ f.entries j (let count = f.count in omega arith)
      ];
    } in
    let (u, g, q) = fill_up r next k (m + 1) c xs ys more (omega arith) refl in
    (u, subst (λ x. Filled r x u) (sym z) g, q)

empty_enters :
    (l : Log)
    → l.n ≡ 0
    → l.outstanding < 3
    → l.committing ≡ false
    → begin_op l ≡ some (record l { outstanding = l.outstanding + 1 })
unfolding begin_op
empty_enters l z few idle = ground (arith, z, idle)

-- Three operations are in.
three_in :
    (r : Running)
    → r.log.size ≡ logsize
    → r.log.n ≡ 0
    → r.log.outstanding ≡ 0
    → r.log.committing ≡ false
    → r.credits ≡ []
    → (t : Running) × Filled r 0 t × (t.credits ≡ maxopblocks ∷ maxopblocks ∷ maxopblocks ∷ [])
three_in r size empty none' idle start =
    let l1 = record r.log { outstanding = r.log.outstanding + 1 } in
    let l2 = record r.log { outstanding = r.log.outstanding + 1 + 1 } in
    let l3 = record r.log { outstanding = r.log.outstanding + 1 + 1 + 1 } in
    let c = maxopblocks in
    (
      record r { log = l3; credits = c ∷ c ∷ c ∷ r.credits },
      record {
        reached =
            later
              (later (later here (enters (empty_enters r.log empty (omega arith) idle)))
                (enters (empty_enters l1 empty (omega arith) idle)))
              (enters (empty_enters l2 empty (omega arith) idle));
        size = size;
        three = omega arith;
        count = empty;
        entries = λ j lt. absurd (omega arith);
      },
      ap (λ q. c ∷ c ∷ c ∷ q) start,
    )

full_panics : (b : ℕ) (l : Log) (s : Store) → l.size ≡ logsize → l.n ≡ 29 → log_write b l s ≡ none
unfolding log_write
full_panics b l s size n = ground arith

-- From an empty log in a region of LOGSIZE blocks, which is what mkfs makes, operations that keep to their
-- reservations reach a state where one of them has a reserved block left, and `log_write` of any block panics.
pub mkfs_log_panics :
    (r : Running)
    → r.log.size ≡ logsize
    → r.log.n ≡ 0
    → r.log.outstanding ≡ 0
    → r.log.committing ≡ false
    → r.credits ≡ []
    → (t : Running) × Reach r t
      × (t.credits ≡ 0 ∷ 0 ∷ 1 ∷ [])
      × ((b : ℕ) → log_write b t.log t.store ≡ none)
mkfs_log_panics r size empty none' idle start =
    let (t, f, e) = three_in r size empty none' idle start in
    let (t1, f1, e1) = fill_up r t 10 0 0 [] (10 ∷ 10 ∷ []) f (omega arith) e in
    let (t2, f2, e2) = fill_up r t1 10 10 0 (0 ∷ []) (10 ∷ []) f1 (omega arith) e1 in
    let (t3, f3, e3) = fill_up r t2 9 20 1 (0 ∷ 0 ∷ []) [] f2 (omega arith) e2 in
    (t3, f3.reached, e3, λ b. full_panics b t3.log t3.store f3.size f3.count)
