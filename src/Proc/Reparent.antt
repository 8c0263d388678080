-- ===== src/Proc/Reparent.antt =====
-- What `reparent` and the two wakeups of `exit` do.
use intro2os_project.Prelude.{
  ℕ, zero, suc, ◌+◌, ◌≤◌, ◌<◌, ◌≡◌, ◌≢◌, ◌⊎◌, inl, inr, refl, ap, ◌∙◌, sym, subst, true, false,
  ◌==◌, update, update_self, update_ne, arith, Bool-cases, ==_iff, ℕ_discrete, dec_lt,
}
use intro2os_project.Proc.{
  Proc, Table, ptr, put, woken, wakeup, reparent, reparent_from, reparent_one, nproc,
}
use intro2os_project.Proc.Wakeup.{wakeup_in, wakeup_ne}
use intro2os_project.Proc.Tame.{
  IsTame, IsTameAt, IsTame-refl, IsTame-trans, IsTame-of, same-IsTameAt, wakeup-IsTame, Quiet,
  Quiet-IsTame, wakeup-Quiet,
}

pub wakeup-parent :
    (me chan j : ℕ) (t : Table) → ((wakeup me chan t).procs j).parent ≡ (t.procs j).parent
wakeup-parent me chan j t = elim (dec_lt j nproc) [
  | yes h ↦ elim (ℕ_discrete j me) [
    | yes e ↦ ap (λ p. p.parent) (wakeup_ne me chan j t (inr e))
    | no ne ↦ ap (λ p. p.parent) (wakeup_in me chan j t h ne) ∙ kept (t.procs j)
  ]
  | no h ↦ ap (λ p. p.parent) (wakeup_ne me chan j t (inl (omega arith)))
]
  where
    kept : (p : Proc) → (woken chan p).parent ≡ p.parent
    kept p = ground arith

-- What `reparent` does to the parent of process `j`: nothing unless it is a child of `me`; a child goes to
-- init, which then does not sleep in `wait`.
abbrev pub Moved : ℕ → Table → Table → ℕ → Type 0
Moved me t u j =
    (((t.procs j).parent ≢ ptr me) × ((u.procs j).parent ≡ (t.procs j).parent))
    ⊎ (((t.procs j).parent ≡ ptr me) × ((u.procs j).parent ≡ t.initproc) × Quiet me t.initproc u)

pub record IsReparented (me i k : ℕ) (t u : Table) : Type 0 where
  pub tame : IsTame t u
  pub inside : (j : ℕ) → i ≤ j → j < i + k → Moved me t u j
  pub outside : (j : ℕ) → (j < i) ⊎ (i + k ≤ j) → (u.procs j).parent ≡ (t.procs j).parent

adopted : ℕ → Table → Table
adopted i t = let p = t.procs i in put i (record p { parent = t.initproc }) t

adopted-parent_ne :
    (i j : ℕ) (t : Table) → i ≢ j → ((adopted i t).procs j).parent ≡ (t.procs j).parent
unfolding adopted
adopted-parent_ne i j t h = ap (λ p. p.parent) (update_ne t.procs i _ j h)

adopted-parent : (i : ℕ) (t : Table) → ((adopted i t).procs i).parent ≡ t.initproc
unfolding adopted
adopted-parent i t = ap (λ p. p.parent) (update_self t.procs i _)

adopted-IsTame : (i : ℕ) (t : Table) → IsTame t (adopted i t)
unfolding adopted
adopted-IsTame i t = IsTame-of at refl
  where
    child : Proc
    child = let p = t.procs i in record p { parent = t.initproc }

    at : (j : ℕ) → IsTameAt (t.procs j) (update t.procs i child j)
    at j = elim (ℕ_discrete i j) [
      | yes e ↦
          subst (λ m. IsTameAt (t.procs m) (update t.procs i child m)) e
            (rw (update_self t.procs i child)
              (record { chan = refl; asleep = λ h. h; dead = λ h. h }))
      | no ne ↦ same-IsTameAt (update_ne t.procs i child j ne)
    ]

reparent_one_child :
    (me i : ℕ) (t : Table)
    → ((t.procs i).parent == ptr me) ≡ true
    → reparent_one me i t ≡ wakeup me t.initproc (adopted i t)
unfolding reparent_one adopted
reparent_one_child me i t e = rw e refl

reparent_one_other :
    (me i : ℕ) (t : Table) → ((t.procs i).parent == ptr me) ≡ false → reparent_one me i t ≡ t
unfolding reparent_one
reparent_one_other me i t e = rw e refl

-- One round of the loop.
reparent_one-IsReparented : (me i : ℕ) (t : Table) → IsReparented me i 1 t (reparent_one me i t)
reparent_one-IsReparented me i t = elim (Bool-cases ((t.procs i).parent == ptr me)) [
  | inl e ↦ rw (reparent_one_child me i t e) (record {
    tame = IsTame-trans (adopted-IsTame i t) (wakeup-IsTame me t.initproc (adopted i t));
    inside = λ j lo hi.
        let s : i ≡ j = omega arith in
        subst (Moved me t (wakeup me t.initproc (adopted i t))) s (
          inr (
            (==_iff _ (ptr me)).0 e,
            wakeup-parent me t.initproc i (adopted i t) ∙ adopted-parent i t,
            wakeup-Quiet me t.initproc (adopted i t),
          ));
    outside =
        λ j o. wakeup-parent me t.initproc j (adopted i t) ∙ adopted-parent_ne i j t (apart j o);
  })
  | inr e ↦ rw (reparent_one_other me i t e) (record {
    tame = IsTame-refl t;
    inside = λ j lo hi.
        let s : i ≡ j = omega arith in subst (Moved me t t) s (inl ((λ h. ground arith), refl));
    outside = λ j o. refl;
  })
]
  where
    apart : (j : ℕ) → (j < i) ⊎ (i + 1 ≤ j) → i ≢ j
    apart j (inl h) s = omega arith
    apart j (inr h) s = omega arith

IsReparented-next :
    {me i k : ℕ} {t u v : Table}
    → IsReparented me i 1 t u
    → IsReparented me (i + 1) k u v
    → IsReparented me i (suc k) t v
IsReparented-next {me} {i} {k} {t} {u} {v} one rest = record {
  tame = IsTame-trans one.tame rest.tame;
  inside = λ j lo hi. elim (ℕ_discrete i j) [
    | yes e ↦ subst (Moved me t v) e (first (one.inside i (omega arith) (omega arith)))
    | no ne ↦
        later j (one.outside j (inr (omega arith))) (rest.inside j (omega arith) (omega arith))
  ];
  outside = λ j o. rest.outside j (out1 j o) ∙ one.outside j (out2 j o);
}
  where
    out1 : (j : ℕ) → (j < i) ⊎ (i + suc k ≤ j) → (j < i + 1) ⊎ (i + 1 + k ≤ j)
    out1 j (inl h) = inl (omega arith)
    out1 j (inr h) = inr (omega arith)

    out2 : (j : ℕ) → (j < i) ⊎ (i + suc k ≤ j) → (j < i) ⊎ (i + 1 ≤ j)
    out2 j (inl h) = inl h
    out2 j (inr h) = inr (omega arith)

    kept : (v.procs i).parent ≡ (u.procs i).parent
    kept = rest.outside i (inl (omega arith))

    first : Moved me t u i → Moved me t v i
    first (inl m) = inl (m.0, kept ∙ m.1)
    first (inr m) = inr (m.0, kept ∙ m.1, Quiet-IsTame rest.tame m.2)

    later : (j : ℕ) → (u.procs j).parent ≡ (t.procs j).parent → Moved me u v j → Moved me t v j
    later j e (inl m) = inl ((λ h. m.0 (e ∙ h)), m.1 ∙ e)
    later j e (inr m) =
        inr (sym e ∙ m.0, m.1 ∙ one.tame.init, subst (λ c. Quiet me c v) one.tame.init m.2)

reparent_from-IsReparented :
    (me i k : ℕ) (t : Table) → IsReparented me i k t (reparent_from me i k t)
unfolding reparent_from
reparent_from-IsReparented me i zero t = record {
  tame = IsTame-refl t;
  inside = λ j lo hi. absurd (omega arith);
  outside = λ j o. refl;
}
reparent_from-IsReparented me i (suc k) t =
    IsReparented-next (reparent_one-IsReparented me i t)
      (reparent_from-IsReparented me (i + 1) k (reparent_one me i t))

pub reparent-IsReparented : (me : ℕ) (t : Table) → IsReparented me 0 nproc t (reparent me t)
unfolding reparent
reparent-IsReparented me t = reparent_from-IsReparented me 0 nproc t

-- The table behind the two wakeups of `exit`, and the process itself.
pub record IsLeft (me : ℕ) (t u : Table) : Type 0 where
  pub tame : IsTame t u
  pub moved : (j : ℕ) → j < nproc → Moved me t u j
  pub parent : Quiet me (u.procs me).parent u

pub exit_wakes :
    (me : ℕ) (t : Table) → IsLeft me t (wakeup me ((reparent me t).procs me).parent (reparent me t))
exit_wakes me t = record {
  tame = IsTame-trans r.tame (w);
  moved = λ j h. move j (r.inside j (omega arith) (omega arith));
  parent =
      subst (λ c. Quiet me c (wakeup me ((reparent me t).procs me).parent (reparent me t)))
        (sym (wakeup-parent me ((reparent me t).procs me).parent me (reparent me t)))
        (wakeup-Quiet me ((reparent me t).procs me).parent (reparent me t));
}
  where
    r : IsReparented me 0 nproc t (reparent me t)
    r = reparent-IsReparented me t

    w : IsTame (reparent me t) (wakeup me ((reparent me t).procs me).parent (reparent me t))
    w = wakeup-IsTame me ((reparent me t).procs me).parent (reparent me t)

    same :
        (j : ℕ)
        → ((wakeup me ((reparent me t).procs me).parent (reparent me t)).procs j).parent
          ≡ ((reparent me t).procs j).parent
    same j = wakeup-parent me ((reparent me t).procs me).parent j (reparent me t)

    move :
        (j : ℕ)
        → Moved me t (reparent me t) j
        → Moved me t (wakeup me ((reparent me t).procs me).parent (reparent me t)) j
    move j (inl m) = inl (m.0, same j ∙ m.1)
    move j (inr m) = inr (m.0, same j ∙ m.1, Quiet-IsTame w m.2)
