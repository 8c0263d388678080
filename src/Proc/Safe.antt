-- ===== src/Proc/Safe.antt =====
-- What each critical section does to the promise of `wait`.
use intro2os_project.Prelude.{
  ℕ, zero, suc, ◌+◌, ◌≤◌, ◌<◌, ◌≡◌, ◌≢◌, ◌⊎◌, inl, inr, refl, ap, ◌∙◌, sym, subst, Bool, true,
  false, ◌==◌, update, update_self, update_ne, arith, Bool-cases, ℕ_discrete,
}
use intro2os_project.Proc.{
  Proc, State, Table, ptr, put, struck, wakeup, reparent, kill, nproc, exit_final, scan_children,
  no_zombie, sleep_on, is_runnable, scheduled,
}
use intro2os_project.Proc.Wakeup.{Killing, missed, hit, kill-Killing}
use intro2os_project.Proc.Tame.{Sleeping, Zombie, IsTame, wakeup-IsTame}
use intro2os_project.Proc.Reparent.{IsLeft, exit_wakes, wakeup-parent}

-- `wait` in process `p` does not sleep while a child of `p` is a zombie.
abbrev pub NoMissedExit : Table → Type 0
NoMissedExit t =
    (p c : ℕ)
    → p < nproc
    → c < nproc
    → Sleeping t p
    → (t.procs p).chan ≡ ptr p
    → (t.procs c).parent ≡ ptr p
    → (t.procs c).state ≢ State.zombie

-- A change of one process that neither puts it to sleep nor makes it a zombie, and moves neither a
-- sleeper's channel nor a zombie's parent.
pub record IsHarmless (p q : Proc) : Type 0 where
  pub asleep : q.state ≡ State.sleeping → (p.state ≡ State.sleeping) × (q.chan ≡ p.chan)
  pub dead : q.state ≡ State.zombie → (p.state ≡ State.zombie) × (q.parent ≡ p.parent)

harmless_safe :
    (t u : Table) → ((j : ℕ) → IsHarmless (t.procs j) (u.procs j)) → NoMissedExit t → NoMissedExit u
harmless_safe t u f safe p c hp hc s ch par z =
    let (s', ec) = (f p).asleep s in
    let (z', ep) = (f c).dead z in safe p c hp hc s' (sym ec ∙ ch) (sym ep ∙ par) z'

pub put_safe :
    (t : Table) (i : ℕ) (q : Proc)
    → IsHarmless (t.procs i) q
    → NoMissedExit t
    → NoMissedExit (put i q t)
put_safe t i q h = harmless_safe t (put i q t) at
  where
    at : (j : ℕ) → IsHarmless (t.procs j) (update t.procs i q j)
    at j = elim (ℕ_discrete i j) [
      | yes e ↦
          subst (λ m. IsHarmless (t.procs m) (update t.procs i q m)) e
            (subst (IsHarmless (t.procs i)) (sym (update_self t.procs i q)) h)
      | no ne ↦
          subst (IsHarmless (t.procs j)) (sym (update_ne t.procs i q j ne))
            (record { asleep = λ s. (s, refl); dead = λ z. (z, refl) })
    ]

pub exit_safe : (t : Table) (me status : ℕ) → NoMissedExit t → NoMissedExit (exit_final me status t)
unfolding exit_final
exit_safe t me status safe p c hp hc s ch par z = elim (ℕ_discrete me p) [
  | yes e ↦ absurd (not_sleeping (sym (ap (λ q. q.state) (at_me p e)) ∙ s))
  | no ne ↦
      let s' : Sleeping u p = sym (ap (λ q. q.state) (at p ne)) ∙ s in
      let ch' : (u.procs p).chan ≡ ptr p = sym (ap (λ q. q.chan) (at p ne)) ∙ ch in
      elim (ℕ_discrete me c) [
        | yes e ↦
            left.parent p hp (λ k. ne (sym k)) s' (ch' ∙ sym par ∙ ap (λ q. q.parent) (at_me c e))
        | no nc ↦
            let z' : Zombie u c = sym (ap (λ q. q.state) (at c nc)) ∙ z in
            let par' : (u.procs c).parent ≡ ptr p = sym (ap (λ q. q.parent) (at c nc)) ∙ par in
            elim (left.moved c hc) [
              | inl m ↦
                  safe p c hp hc (left.tame.asleep p s') (sym (left.tame.chan p) ∙ ch')
                    (sym m.1 ∙ par') (left.tame.dead c z')
              | inr m ↦ m.2 p hp (λ k. ne (sym k)) s' (ch' ∙ sym par' ∙ m.1)
            ]
      ]
]
  where
    u : Table
    u = wakeup me ((reparent me t).procs me).parent (reparent me t)

    left : IsLeft me t u
    left = exit_wakes me t

    gone : Proc
    gone = let q = u.procs me in record q { xstate = status; state = State.zombie }

    at_me : (j : ℕ) → me ≡ j → update u.procs me gone j ≡ gone
    at_me j e = subst (λ m. update u.procs me gone m ≡ gone) e (update_self u.procs me gone)

    at : (j : ℕ) → (me ≡ j → ⊥) → update u.procs me gone j ≡ u.procs j
    at j ne = update_ne u.procs me gone j ne

    not_sleeping : gone.state ≢ State.sleeping
    not_sleeping h = cc

-- What the scan of `wait` has seen when it finds no zombie.
pub scan_none :
    (procs : ℕ → Proc) (me i k : ℕ) (b r : Bool)
    → scan_children procs me i k b ≡ no_zombie r
    → (c : ℕ) → i ≤ c
    → c < i + k
    → (procs c).parent ≡ ptr me
    → (procs c).state ≢ State.zombie
unfolding scan_children
scan_none procs me i zero b r e c lo hi par z = omega arith
scan_none procs me i (suc k) b r e c lo hi par z = elim (ℕ_discrete i c) [
  | yes s ↦
      first (subst (λ m. (procs m).parent ≡ ptr me) (sym s) par)
        (subst (λ m. (procs m).state ≡ State.zombie) (sym s) z)
  | no ne ↦ elim (Bool-cases ((procs i).parent == ptr me)) [
    | inl m ↦ scan_none procs me (i + 1) k true r (ground arith) c (omega arith) (omega arith) par z
    | inr m ↦ scan_none procs me (i + 1) k b r (ground arith) c (omega arith) (omega arith) par z
  ]
]
  where
    first : (procs i).parent ≡ ptr me → (procs i).state ≡ State.zombie → ⊥
    first q y = ground arith

pub sleep_safe :
    (t : Table) (me chan : ℕ)
    → ((chan ≡ ptr me)
        × ((c : ℕ) → c < nproc → (t.procs c).parent ≡ ptr me → (t.procs c).state ≢ State.zombie))
      ⊎ (nproc < chan)
    → NoMissedExit t
    → NoMissedExit (sleep_on me chan t)
unfolding sleep_on
sleep_safe t me chan why safe p c hp hc s ch par z = elim (ℕ_discrete me c) [
  | yes e ↦ absurd (awake (sym (ap (λ q. q.state) (at_me c e)) ∙ z))
  | no nc ↦
      let z' : Zombie t c = sym (ap (λ q. q.state) (at c nc)) ∙ z in
      let par' : (t.procs c).parent ≡ ptr p = sym (ap (λ q. q.parent) (at c nc)) ∙ par in
      elim (ℕ_discrete me p) [
        | yes e ↦ mine e (sym (ap (λ q. q.chan) (at_me p e)) ∙ ch) par' z' why
        | no ne ↦
            safe p c hp hc (sym (ap (λ q. q.state) (at p ne)) ∙ s)
              (sym (ap (λ q. q.chan) (at p ne)) ∙ ch) par' z'
      ]
]
  where
    tired : Proc
    tired = let q = t.procs me in record q { chan = chan; state = State.sleeping }

    at_me : (j : ℕ) → me ≡ j → update t.procs me tired j ≡ tired
    at_me j e = subst (λ m. update t.procs me tired m ≡ tired) e (update_self t.procs me tired)

    at : (j : ℕ) → (me ≡ j → ⊥) → update t.procs me tired j ≡ t.procs j
    at j ne = update_ne t.procs me tired j ne

    awake : tired.state ≢ State.zombie
    awake h = cc

    mine :
        me ≡ p
        → chan ≡ ptr p
        → (t.procs c).parent ≡ ptr p
        → Zombie t c
        → ((chan ≡ ptr me)
            × ((c : ℕ)
                → c < nproc
                → (t.procs c).parent ≡ ptr me
                → (t.procs c).state ≢ State.zombie))
          ⊎ (nproc < chan)
        → ⊥
    mine e k q y (inl w) = w.1 c hc (q ∙ ap suc (sym e)) y
    mine e k q y (inr w) = omega arith

pub wakeup_safe : (t : Table) (me chan : ℕ) → NoMissedExit t → NoMissedExit (wakeup me chan t)
wakeup_safe t me chan = harmless_safe t (wakeup me chan t) (λ j. record {
  asleep = λ s. (w.asleep j s, w.chan j);
  dead = λ z. (w.dead j z, wakeup-parent me chan j t);
})
  where
    w : IsTame t (wakeup me chan t)
    w = wakeup-IsTame me chan t

pub kill_safe : (t : Table) (pid : ℕ) → NoMissedExit t → NoMissedExit (kill pid t).1
kill_safe t pid safe = go (kill-Killing pid t)
  where
    struck_harmless : (p : Proc) → IsHarmless p (struck p)
    struck_harmless p = record { asleep = λ s. ground arith; dead = λ z. ground arith }

    go : {out : Bool × Table} → Killing pid t 0 out → NoMissedExit out.1
    go (missed _ e) = subst (λ o. NoMissedExit o.1) (sym e) safe
    go (hit j _ _ _ _ e) =
        subst (λ o. NoMissedExit o.1) (sym e)
          (put_safe t j (struck (t.procs j)) (struck_harmless (t.procs j)) safe)

pub scan_none_all :
    (t : Table) (me : ℕ) {r : Bool}
    → scan_children t.procs me 0 nproc false ≡ no_zombie r
    → (c : ℕ) → c < nproc
    → (t.procs c).parent ≡ ptr me
    → (t.procs c).state ≢ State.zombie
scan_none_all t me {r} e c h = scan_none t.procs me 0 nproc false r e c (omega arith) (omega arith)

pub scheduled_safe : (t : Table) (i : ℕ) → NoMissedExit t → NoMissedExit (scheduled i t)
unfolding scheduled
scheduled_safe t i safe = elim (Bool-cases (is_runnable (t.procs i).state)) [
  | inl e ↦ rw e (
      put_safe t i (let p = t.procs i in record p { state = State.running })
        (record { asleep = λ s. cc; dead = λ z. cc }) safe)
  | inr e ↦ rw e safe
]
