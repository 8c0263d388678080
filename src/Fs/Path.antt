-- ===== src/Fs/Path.antt =====
-- What `skipelem` finds in a path.
use intro2os_project.Prelude.{
  ℕ, zero, suc, ◌+◌, ◌-◌, ◌≤◌, ◌<◌, ◌≡◌, ◌≢◌, ◌⊎◌, inl, inr, sym, subst, not, ◌&&◌, Option, none,
  some, ◌==◌, leb, if◌then◌else◌, update, arith, Bool-cases, ℕ_discrete, min, ==_iff,
}
use intro2os_project.Fs.{skipelem, skip_slashes, skip_name, copied, slash, dirsiz}

-- The end of a run of slashes, and of a run of other characters.
record IsSkipped (path : ℕ → ℕ) (p q n : ℕ) : Type 0 where
  low : p ≤ q
  high : q ≤ n
  run : (j : ℕ) → p ≤ j → j < q → path j ≡ slash
  stop : path q ≢ slash

at_end : (path : ℕ → ℕ) (n p : ℕ) → path n ≡ 0 → p ≡ n → path p ≡ 0
at_end path n p z e = subst (λ m. path m ≡ 0) (sym e) z

-- A character that is not the end stands before it.
before_end : (path : ℕ → ℕ) (n p : ℕ) → path n ≡ 0 → p ≤ n → path p ≢ 0 → p + 1 ≤ n
before_end path n p z le more = elim (ℕ_discrete p n) [
  | yes e ↦ absurd (more (at_end path n p z e))
  | no ne ↦ omega arith
]

skip_slashes-IsSkipped :
    (path : ℕ → ℕ) (n fuel p : ℕ)
    → path n ≡ 0
    → p ≤ n
    → n - p ≤ fuel
    → IsSkipped path p (skip_slashes path fuel p) n
unfolding skip_slashes
skip_slashes-IsSkipped path n zero p z le enough = record {
  low = omega arith;
  high = le;
  run = λ j lo hi. absurd (omega arith);
  stop = λ e. ground (arith, at_end path n p z (omega arith));
}
skip_slashes-IsSkipped path n (suc fuel) p z le enough = elim (Bool-cases (path p == slash)) [
  | inl here ↦
      let e : path p ≡ slash = (==_iff (path p) slash).0 here in
      let r =
        skip_slashes-IsSkipped path n fuel (p + 1) z (before_end path n p z le (ground arith))
          (omega arith) in
      rw (here, skip_slashes)
        (record {
          low = omega (arith, r.low);
          high = r.high;
          run = λ j lo hi. elim (ℕ_discrete p j) [
            | yes s ↦ subst (λ m. path m ≡ slash) s e
            | no ne ↦ r.run j (omega arith) hi
          ];
          stop = r.stop;
        })
  | inr there ↦
      rw (there, skip_slashes)
        (record {
          low = omega arith;
          high = le;
          run = λ j lo hi. absurd (omega arith);
          stop = λ e. absurd (ground arith);
        })
]

record IsName (path : ℕ → ℕ) (p q n : ℕ) : Type 0 where
  low : p ≤ q
  high : q ≤ n
  run : (j : ℕ) → p ≤ j → j < q → (path j ≢ slash) × (path j ≢ 0)
  stop : (path q ≡ slash) ⊎ (path q ≡ 0)

skip_name-IsName :
    (path : ℕ → ℕ) (n fuel p : ℕ)
    → path n ≡ 0
    → p ≤ n
    → n - p ≤ fuel
    → IsName path p (skip_name path fuel p) n
unfolding skip_name
skip_name-IsName path n zero p z le enough = record {
  low = omega arith;
  high = le;
  run = λ j lo hi. absurd (omega arith);
  stop = inr (at_end path n p z (omega arith));
}
skip_name-IsName path n (suc fuel) p z le enough =
    elim (Bool-cases (not (path p == slash) && not (path p == 0))) [
      | inl here ↦
          let e : (path p ≢ slash) × (path p ≢ 0) = ground arith in
          let r =
            skip_name-IsName path n fuel (p + 1) z (before_end path n p z le e.1) (omega arith) in
          rw (here, skip_name)
            (record {
              low = omega (arith, r.low);
              high = r.high;
              run = λ j lo hi. elim (ℕ_discrete p j) [
                | yes s ↦ subst (λ m. (path m ≢ slash) × (path m ≢ 0)) s e
                | no ne ↦ r.run j (omega arith) hi
              ];
              stop = r.stop;
            })
      | inr there ↦
          rw (there, skip_name)
            (record {
              low = omega arith;
              high = le;
              run = λ j lo hi. absurd (omega arith);
              stop = ground arith;
            })
    ]

moved :
    (path : ℕ → ℕ) (s e : ℕ)
    → s ≤ e
    → (path e ≡ slash) ⊎ (path e ≡ 0)
    → path s ≢ slash
    → path s ≢ 0
    → s < e
moved path s e le stop a b = elim (ℕ_discrete s e) [
  | yes same ↦ absurd (elim (subst (λ m. (path m ≡ slash) ⊎ (path m ≡ 0)) (sym same) stop) [
    | inl x ↦ a x
    | inr y ↦ b y
  ])
  | no ne ↦ omega arith
]

-- The buffer `name` for an element of `len` characters.
abbrev stored : (ℕ → ℕ) → ℕ → ℕ → (ℕ → ℕ) → ℕ → ℕ
stored path s len name =
    if leb dirsiz len then copied path s dirsiz name else update (copied path s len name) len 0

stored-chars :
    (path : ℕ → ℕ) (s len : ℕ) (name : ℕ → ℕ) (j : ℕ)
    → j < min len dirsiz
    → stored path s len name j ≡ path (s + j)
stored-chars path s len name j lt = ground arith

stored-end :
    (path : ℕ → ℕ) (s len : ℕ) (name : ℕ → ℕ) → len < dirsiz → stored path s len name len ≡ 0
stored-end path s len name lt = ground arith

-- The path from `p` on: slashes up to `s`, a name up to `e`, slashes up to `q`, where no slash stands.
pub record Split (path : ℕ → ℕ) (p q n : ℕ) (name : ℕ → ℕ) : Type 0 where
  pub s : ℕ
  pub e : ℕ
  pub order : (p ≤ s) × (s < e) × (e ≤ q) × (q ≤ n)
  pub leading : (j : ℕ) → p ≤ j → j < s → path j ≡ slash
  pub element : (j : ℕ) → s ≤ j → j < e → (path j ≢ slash) × (path j ≢ 0)
  pub closing : (j : ℕ) → e ≤ j → j < q → path j ≡ slash
  pub rest : path q ≢ slash
  pub ended : (path e ≡ slash) ⊎ (path e ≡ 0)
  -- At most DIRSIZ characters of the element, with a terminator where there is room.
  pub chars : (j : ℕ) → j < min (e - s) dirsiz → name j ≡ path (s + j)
  pub end : e - s < dirsiz → name (e - s) ≡ 0

-- What `skipelem` may answer.
pub Skipped : (ℕ → ℕ) → ℕ → ℕ → Option (ℕ × (ℕ → ℕ)) → Type 0
Skipped path p n none =
    (s : ℕ) × (p ≤ s) × ((j : ℕ) → p ≤ j → j < s → path j ≡ slash) × (path s ≡ 0)
Skipped path p n (some (q, name)) = Split path p q n name

-- `skipelem` on a path that ends within its fuel: it returns no name only where nothing but slashes
-- comes before the end; otherwise it skips the slashes and the whole name behind them, and the
-- slashes behind that, and `name` holds the name, cut to DIRSIZ characters.
pub skipelem-Skipped :
    (path : ℕ → ℕ) (n fuel p : ℕ) (name : ℕ → ℕ)
    → path n ≡ 0
    → p ≤ n
    → n - p ≤ fuel
    → Skipped path p n (skipelem fuel path p name)
unfolding skipelem Skipped
skipelem-Skipped path n fuel p name z le enough =
    let a = skip_slashes-IsSkipped path n fuel p z le enough in
    let s = skip_slashes path fuel p in
    let b = skip_name-IsName path n fuel s z a.high (omega (arith, a.low)) in
    let e = skip_name path fuel s in
    let c = skip_slashes-IsSkipped path n fuel e z b.high (omega (arith, a.low, b.low)) in
    elim (Bool-cases (path s == 0)) [
      | inl none_left ↦ rw none_left (s, a.low, a.run, ground arith)
      | inr more ↦ rw more (record {
        s = s;
        e = e;
        order = (a.low, moved path s e b.low b.stop a.stop (ground arith), c.low, c.high);
        leading = a.run;
        element = b.run;
        closing = c.run;
        rest = c.stop;
        ended = b.stop;
        chars = stored-chars path s (e - s) name;
        end = stored-end path s (e - s) name;
      })
    ]
