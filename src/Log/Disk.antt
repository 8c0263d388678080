-- ===== src/Log/Disk.antt =====
-- What one disk write does, and the part of the disk that belongs to the log.
use intro2os_project.Prelude.{
  ℕ, zero, suc, ◌+◌, ◌≤◌, ◌<◌, ◌≡◌, ◌≢◌, ◌⊎◌, inl, inr, refl, ◌∙◌, subst, ℕ_discrete, Bool, ◌==◌,
  arith, Bool-cases, dec_lt,
}
use intro2os_project.Log.{
  Log, Store, Block, bwrite, bunpin, fill, install_one, install_from, install_trans,
}

-- The blocks of the disk that do not belong to the log.
abbrev pub Outside : Log → ℕ → Type 0
Outside l b = (b < l.start) ⊎ (l.start + l.size ≤ b)

-- The log has room for its header and its entries, which stand for blocks outside it.
pub record IsLaidOut (l : Log) : Type 0 where
  pub room : l.n < l.size
  pub homes : (j : ℕ) → j < l.n → Outside l (l.block j)

pub view-bwrite : (b : ℕ) (s : Store) → (bwrite b s).view ≡ s.view
unfolding bwrite
view-bwrite b s = ground arith

-- A write changes no other block.
pub disk-bwrite_ne : (b c : ℕ) (s : Store) → b ≢ c → (bwrite b s).disk c ≡ s.disk c
unfolding bwrite
disk-bwrite_ne b c s h = ground arith

-- While the machine runs, a write puts the buffer on the disk.
pub disk-bwrite : (b : ℕ) (s : Store) → s.power ≢ 0 → (bwrite b s).disk b ≡ s.view b
unfolding bwrite
disk-bwrite b s h = ground arith

-- A stopped machine writes nothing.
pub bwrite-dead : (b : ℕ) (s : Store) → s.power ≡ 0 → bwrite b s ≡ s
unfolding bwrite
bwrite-dead b s h = ground arith

-- How far an installation has come: `i` entries are home, or the machine has stopped.
pub record Progress (want : ℕ → Block) (l : Log) (i : ℕ) (before after : Store) : Type 0 where
  pub logs : (j : ℕ) → j < l.n → after.view (l.start + j + 1) ≡ want (l.block j)
  pub head : after.view l.start ≡ before.view l.start
  pub kept : (c : ℕ) → ((j : ℕ) → j < l.n → l.block j ≢ c) → after.disk c ≡ before.disk c
  pub done : (after.power ≡ 0) ⊎ ((j : ℕ) → j < i → after.disk (l.block j) ≡ want (l.block j))

module _ (r : Bool) (want : ℕ → Block) (l : Log) (laid : IsLaidOut l) where
  view-install_one_area :
      (i c : ℕ) (s : Store)
      → i < l.n
      → l.start ≤ c
      → c < l.start + l.size
      → (install_one r l i s).view c ≡ s.view c
  unfolding install_one bunpin
  view-install_one_area i c s h lo hi = ground (
    arith,
    laid.homes i h,
    view-bwrite (l.block i) (fill (l.block i) (s.view (l.start + i + 1)) s),
  )

  disk-install_one_ne :
      (i c : ℕ) (s : Store) → l.block i ≢ c → (install_one r l i s).disk c ≡ s.disk c
  unfolding install_one bunpin
  disk-install_one_ne i c s h =
      ground (arith, disk-bwrite_ne (l.block i) c (fill (l.block i) (s.view (l.start + i + 1)) s))

  install_one_done :
      (i : ℕ) (s : Store)
      → s.view (l.start + i + 1) ≡ want (l.block i)
      → ((install_one r l i s).power ≡ 0)
        ⊎ ((install_one r l i s).disk (l.block i) ≡ want (l.block i))
  unfolding install_one bunpin bwrite
  install_one_done i s h = elim (Bool-cases (s.power == 0)) [
    | inl e ↦ inl (ground arith)
    | inr e ↦ inr (ground arith)
  ]

  install_one-dead :
      (i : ℕ) (s : Store)
      → s.power ≡ 0
      → ((install_one r l i s).power ≡ 0) × ((install_one r l i s).disk ≡ s.disk)
  unfolding install_one bunpin bwrite
  install_one-dead i s h = ground arith

  -- A later round leaves the entries that are home at home.
  install_one_keeps :
      (i j : ℕ) (s : Store)
      → s.view (l.start + i + 1) ≡ want (l.block i)
      → s.disk (l.block j) ≡ want (l.block j)
      → (install_one r l i s).disk (l.block j) ≡ want (l.block j)
  unfolding install_one bunpin bwrite
  install_one_keeps i j s h d = elim (ℕ_discrete (l.block i) (l.block j)) [
    | yes e ↦ ground arith
    | no e ↦ ground arith
  ]

  install_one-Progress :
      (i : ℕ) (b s : Store)
      → i < l.n
      → Progress want l i b s
      → Progress want l (i + 1) b (install_one r l i s)
  install_one-Progress i b s h p = record {
    logs = λ j hj.
        view-install_one_area i (l.start + j + 1) s h (omega arith) (omega (arith, laid.room))
        ∙ p.logs j hj;
    head = view-install_one_area i l.start s h (omega arith) (omega (arith, laid.room)) ∙ p.head;
    kept = λ c away. disk-install_one_ne i c s (away i h) ∙ p.kept c away;
    done = elim p.done [
      | inl dead ↦ inl (install_one-dead i s dead).0
      | inr home ↦ elim (install_one_done i s (p.logs i h)) [
        | inl dead ↦ inl dead
        | inr now ↦ inr (λ j hj. last home now j (dec_lt j i) hj)
      ]
    ];
  }
    where
      last :
          ((j : ℕ) → j < i → s.disk (l.block j) ≡ want (l.block j))
          → (install_one r l i s).disk (l.block i) ≡ want (l.block i)
          → (j : ℕ) → Dec (j < i)
          → j < i + 1
          → (install_one r l i s).disk (l.block j) ≡ want (l.block j)
      last home now j (yes old) hj = install_one_keeps i j s (p.logs i h) (home j old)
      last home now j (no new) hj =
          let e : i ≡ j = omega arith in
          subst (λ k. (install_one r l i s).disk (l.block k) ≡ want (l.block k)) e now

  install_from-Progress :
      (i k : ℕ) (b s : Store)
      → i + k ≡ l.n
      → Progress want l i b s
      → Progress want l l.n b (install_from r l i k s)
  unfolding install_from
  install_from-Progress i zero b s e p =
      let e' : i ≡ l.n = omega arith in subst (λ m. Progress want l m b s) e' p
  install_from-Progress i (suc k) b s e p =
      install_from-Progress (i + 1) k b (install_one r l i s) (omega arith)
        (install_one-Progress i b s (omega arith) p)

  -- `install_trans` copies every logged block home, touches no other block of the disk, and can be
  -- stopped at any write.
  pub install_trans-Progress :
      (s : Store)
      → ((j : ℕ) → j < l.n → s.view (l.start + j + 1) ≡ want (l.block j))
      → Progress want l l.n s (install_trans r l s)
  unfolding install_trans
  install_trans-Progress s h = install_from-Progress 0 l.n s s (omega arith) (record {
    logs = h;
    head = refl;
    kept = λ c away. refl;
    done = inr (λ j hj. absurd (omega arith));
  })

  install_from_dead :
      (i k : ℕ) (s : Store)
      → s.power ≡ 0
      → ((install_from r l i k s).power ≡ 0) × ((install_from r l i k s).disk ≡ s.disk)
  unfolding install_from
  install_from_dead i zero s h = (h, refl)
  install_from_dead i (suc k) s h =
      let rest = install_from_dead (i + 1) k (install_one r l i s) (install_one-dead i s h).0 in
      (rest.0, rest.1 ∙ (install_one-dead i s h).1)

  pub install_trans_dead :
      (s : Store)
      → s.power ≡ 0
      → ((install_trans r l s).power ≡ 0) × ((install_trans r l s).disk ≡ s.disk)
  unfolding install_trans
  install_trans_dead s h = install_from_dead 0 l.n s h
