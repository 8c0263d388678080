-- ===== src/Proc/Tame.antt =====
-- Changes of the process table that put no process to sleep and make no zombie.
use intro2os_project.Prelude.{
  ℕ, ◌<◌, ◌≡◌, ◌≢◌, inl, inr, refl, ap, ◌∙◌, sym, subst, arith, ℕ_discrete, dec_lt,
}
use intro2os_project.Proc.{Proc, State, Table, woken, wakeup, nproc}
use intro2os_project.Proc.Wakeup.{wakeup_in, wakeup_ne, wakeup-globals}

abbrev pub Sleeping : Table → ℕ → Type 0
Sleeping t j = (t.procs j).state ≡ State.sleeping

abbrev pub Zombie : Table → ℕ → Type 0
Zombie t j = (t.procs j).state ≡ State.zombie

-- A change of the table that puts no process to sleep, makes no zombie, and moves no channel.
pub record IsTame (t u : Table) : Type 0 where
  pub chan : (j : ℕ) → (u.procs j).chan ≡ (t.procs j).chan
  pub asleep : (j : ℕ) → Sleeping u j → Sleeping t j
  pub dead : (j : ℕ) → Zombie u j → Zombie t j
  pub init : u.initproc ≡ t.initproc

pub IsTame-refl : (t : Table) → IsTame t t
IsTame-refl t = record { chan = λ j. refl; asleep = λ j h. h; dead = λ j h. h; init = refl }

pub IsTame-trans : {t u v : Table} → IsTame t u → IsTame u v → IsTame t v
IsTame-trans a b = record {
  chan = λ j. b.chan j ∙ a.chan j;
  asleep = λ j h. a.asleep j (b.asleep j h);
  dead = λ j h. a.dead j (b.dead j h);
  init = b.init ∙ a.init;
}

-- One process, changed tamely.
pub record IsTameAt (p q : Proc) : Type 0 where
  pub chan : q.chan ≡ p.chan
  pub asleep : q.state ≡ State.sleeping → p.state ≡ State.sleeping
  pub dead : q.state ≡ State.zombie → p.state ≡ State.zombie

woken-IsTameAt : (chan : ℕ) (p : Proc) → IsTameAt p (woken chan p)
woken-IsTameAt chan p = record {
  chan = ground arith;
  asleep = λ h. ground arith;
  dead = λ h. ground arith;
}

pub IsTame-of :
    {t u : Table}
    → ((j : ℕ) → IsTameAt (t.procs j) (u.procs j))
    → u.initproc ≡ t.initproc
    → IsTame t u
IsTame-of f e = record {
  chan = λ j. (f j).chan;
  asleep = λ j h. (f j).asleep h;
  dead = λ j h. (f j).dead h;
  init = e;
}

pub same-IsTameAt : {p q : Proc} → q ≡ p → IsTameAt p q
same-IsTameAt e = record {
  chan = ap (λ p. p.chan) e;
  asleep = λ h. sym (ap (λ p. p.state) e) ∙ h;
  dead = λ h. sym (ap (λ p. p.state) e) ∙ h;
}

pub wakeup-IsTame : (me chan : ℕ) (t : Table) → IsTame t (wakeup me chan t)
wakeup-IsTame me chan t = IsTame-of at (wakeup-globals me chan t).0
  where
    at : (j : ℕ) → IsTameAt (t.procs j) ((wakeup me chan t).procs j)
    at j = elim (dec_lt j nproc) [
      | yes h ↦ elim (ℕ_discrete j me) [
        | yes e ↦ same-IsTameAt (wakeup_ne me chan j t (inr e))
        | no ne ↦ rw (wakeup_in me chan j t h ne) (woken-IsTameAt chan (t.procs j))
      ]
      | no h ↦ same-IsTameAt (wakeup_ne me chan j t (inl (omega arith)))
    ]

-- No process but `me` sleeps on the channel.
abbrev pub Quiet : ℕ → ℕ → Table → Type 0
Quiet me chan t = (p : ℕ) → p < nproc → p ≢ me → Sleeping t p → (t.procs p).chan ≢ chan

pub Quiet-IsTame : {me chan : ℕ} {t u : Table} → IsTame t u → Quiet me chan t → Quiet me chan u
Quiet-IsTame a q p h ne s e = q p h ne (a.asleep p s) (sym (a.chan p) ∙ e)

pub wakeup-Quiet : (me chan : ℕ) (t : Table) → Quiet me chan (wakeup me chan t)
wakeup-Quiet me chan t p h ne s e =
    gone (t.procs p) (
      subst (λ q. (q.state ≡ State.sleeping) × (q.chan ≡ chan)) (wakeup_in me chan p t h ne) (s, e))
  where
    gone : (q : Proc) → ((woken chan q).state ≡ State.sleeping) × ((woken chan q).chan ≡ chan) → ⊥
    gone q h = ground arith
