-- ===== src/Log/Recovery.antt =====
-- What the disk may look like when the machine stops, and what `recover_from_log` makes of it.
pub mod Header
use intro2os_project.Prelude.{
  ℕ, zero, suc, ◌+◌, ◌-◌, ◌≤◌, ◌<◌, ◌≡◌, ◌≢◌, ◌⊎◌, inl, inr, refl, ap, ◌∙◌, sym, subst, true, false,
  Bool, ◌==◌, update, update_self, update_ne, arith, Bool-cases, dec_lt, ℕ_discrete, if◌then◌else◌,
  List, [], ◌∷◌,
}
use Header.{header_count, read_head_names, write_head_ne, write_head_dead, write_head_at}
use intro2os_project.Log.{
  Log, Store, Block, bwrite, bunpin, install_one, install_from, install_trans, read_head,
  write_head, recover_from_log, initlog, write_words,
}
use intro2os_project.Log.Disk.{
  Outside, IsLaidOut, view-bwrite, disk-bwrite, disk-bwrite_ne, bwrite-dead, Progress,
  install_trans-Progress,
}

-- The machine after a reboot: the buffer cache is empty, so it shows the disk.
abbrev pub reboot : (ℕ → Block) → ℕ → Store
reboot d power = record { disk = d; view = d; pins = λ _. 0; power = power }

-- A transaction of the log `l`: `want` are the logged contents, `old` the disk before it.
module _ (l : Log) (want old : ℕ → Block) where
  -- The log is empty and no home block has changed.
  pub record IsOld (d : ℕ → Block) : Type 0 where
    pub empty : d l.start 0 ≡ 0
    pub same : (c : ℕ) → Outside l c → d c ≡ old c

  -- The header names the entries, which are in the log; home blocks may have changed already.
  pub record IsPending (d : ℕ → Block) : Type 0 where
    pub count : d l.start 0 ≡ l.n
    pub names : (j : ℕ) → j < l.n → d l.start (j + 1) ≡ l.block j
    pub logs : (j : ℕ) → j < l.n → d (l.start + j + 1) ≡ want (l.block j)
    pub same : (c : ℕ) → Outside l c → ((j : ℕ) → j < l.n → l.block j ≢ c) → d c ≡ old c

  -- The log is empty, the logged blocks are home, and no other block outside the log has changed.
  pub record IsNew (d : ℕ → Block) : Type 0 where
    pub empty : d l.start 0 ≡ 0
    pub home : (j : ℕ) → j < l.n → d (l.block j) ≡ want (l.block j)
    pub same : (c : ℕ) → Outside l c → ((j : ℕ) → j < l.n → l.block j ≢ c) → d c ≡ old c

-- Two logs with the same transaction: `read_head` finds the names of the entries only.
pub record Agree (l m : Log) : Type 0 where
  pub start : m.start ≡ l.start
  pub size : m.size ≡ l.size
  pub count : m.n ≡ l.n
  pub names : (j : ℕ) → j < l.n → m.block j ≡ l.block j

pub Agree-symm : {l m : Log} → Agree l m → Agree m l
Agree-symm {l} {m} a = record {
  start = sym a.start;
  size = sym a.size;
  count = sym a.count;
  names = λ j h. sym (a.names j (omega (arith, a.count)));
}

module _ {l m : Log} (a : Agree l m) (want old : ℕ → Block) where
  away_from : {c : ℕ} → ((j : ℕ) → j < m.n → m.block j ≢ c) → (j : ℕ) → j < l.n → l.block j ≢ c
  away_from h j hj e = h j (omega (arith, a.count)) (a.names j hj ∙ e)

  pub Agree-IsLaidOut : IsLaidOut l → IsLaidOut m
  Agree-IsLaidOut h = record {
    room = omega (arith, h.room, a.count, a.size);
    homes = λ j hj.
        let hl : j < l.n = omega (arith, a.count) in
        subst (Outside m) (sym (a.names j hl)) (outside (l.block j) (h.homes j hl));
  }
    where
      outside : (c : ℕ) → Outside l c → Outside m c
      outside c (inl o) = inl (omega (arith, a.start))
      outside c (inr o) = inr (omega (arith, a.start, a.size))

  Outside-back : (c : ℕ) → Outside m c → Outside l c
  Outside-back c (inl o) = inl (omega (arith, a.start))
  Outside-back c (inr o) = inr (omega (arith, a.start, a.size))

  pub Agree-IsPending : (d : ℕ → Block) → IsPending l want old d → IsPending m want old d
  Agree-IsPending d p = record {
    count = ap (λ k. d k 0) a.start ∙ p.count ∙ sym a.count;
    names = λ j hj.
        let hl : j < l.n = omega (arith, a.count) in
        ap (λ k. d k (j + 1)) a.start ∙ p.names j hl ∙ sym (a.names j hl);
    logs = λ j hj.
        let hl : j < l.n = omega (arith, a.count) in
        ap (λ k. d (k + j + 1)) a.start ∙ p.logs j hl ∙ sym (ap want (a.names j hl));
    same = λ c o away. p.same c (Outside-back c o) (away_from away);
  }

  pub Agree-IsNew : (d : ℕ → Block) → IsNew l want old d → IsNew m want old d
  Agree-IsNew d p = record {
    empty = ap (λ k. d k 0) a.start ∙ p.empty;
    home = λ j hj.
        let hl : j < l.n = omega (arith, a.count) in
        ap d (a.names j hl) ∙ p.home j hl ∙ sym (ap want (a.names j hl));
    same = λ c o away. p.same c (Outside-back c o) (away_from away);
  }

pub head-Outside : (l : Log) (c : ℕ) → 0 < l.size → Outside l c → l.start ≢ c
head-Outside l c h (inl o) e = omega arith
head-Outside l c h (inr o) e = omega arith

module _ (r : Bool) (l : Log) (laid : IsLaidOut l) (want old : ℕ → Block) where
  abbrev erased : Log
  erased = record l { n = 0 }

  -- Installing a pending transaction leaves it pending.
  installed_IsPending :
      (s t : Store)
      → IsPending l want old s.disk
      → Progress want l l.n s t
      → IsPending l want old t.disk
  installed_IsPending s t p g = record {
    count = ap (λ b. b 0) (in_log l.start (omega arith) (omega (arith, laid.room))) ∙ p.count;
    names = λ j h.
        ap (λ b. b (j + 1)) (in_log l.start (omega arith) (omega (arith, laid.room))) ∙ p.names j h;
    logs = λ j h. in_log (l.start + j + 1) (omega arith) (omega (arith, laid.room)) ∙ p.logs j h;
    same = λ c o away. g.kept c away ∙ p.same c o away;
  }
    where
      in_log : (c : ℕ) → l.start ≤ c → c < l.start + l.size → t.disk c ≡ s.disk c
      in_log c lo hi = g.kept c (λ j h e. ground (arith, laid.homes j h))

  -- The write of the empty header ends the transaction, unless the machine has stopped.
  erase_ends :
      (s t : Store)
      → IsPending l want old s.disk
      → Progress want l l.n s t
      → (IsPending l want old (write_head erased t).disk × (t.power ≡ 0))
        ⊎ IsNew l want old (write_head erased t).disk
  erase_ends s t p g = elim (ℕ_discrete t.power 0) [
    | yes dead ↦ inl (rw (write_head_dead erased t dead) (installed_IsPending s t p g), dead)
    | no alive ↦ elim g.done [
      | inl dead ↦ absurd (alive dead)
      | inr home ↦ inr (record {
        empty = ap (λ b. b 0) (write_head_at erased t alive) ∙ header_count (t.view l.start) erased;
        home = λ j h.
            write_head_ne erased t (l.block j)
              (head-Outside l _ (omega (arith, laid.room)) (laid.homes j h))
            ∙ home j h;
        same = λ c o away.
            write_head_ne erased t c (head-Outside l c (omega (arith, laid.room)) o)
            ∙ g.kept c away
            ∙ p.same c o away;
      })
    ]
  ]

  -- So `install_trans` and the last write of the header take a pending transaction to its end.
  pub finish_ends :
      (s : Store)
      → IsPending l want old s.disk
      → ((j : ℕ) → j < l.n → s.view (l.start + j + 1) ≡ want (l.block j))
      → (IsPending l want old (write_head erased (install_trans r l s)).disk
          × ((install_trans r l s).power ≡ 0))
        ⊎ IsNew l want old (write_head erased (install_trans r l s)).disk
  finish_ends s p h =
      erase_ends s (install_trans r l s) p (install_trans-Progress r want l laid s h)
