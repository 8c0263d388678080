-- ===== src/Log/Recovery/Header.antt =====
-- The header block: what `write_head` writes and `read_head` reads.
use intro2os_project.Prelude.{
  ℕ, zero, suc, ◌+◌, ◌-◌, ◌≤◌, ◌<◌, ◌≡◌, ◌≢◌, refl, ◌∙◌, subst, update, update_self, update_ne,
  arith, ℕ_discrete,
}
use intro2os_project.Log.{Log, Store, Block, read_words, write_words, read_head, write_head, bwrite}
use intro2os_project.Log.Disk.{disk-bwrite_ne}

write_words_before :
    (hb : Block) (block : ℕ → ℕ) (i k c : ℕ) → c ≤ i → write_words hb block i k c ≡ hb c
unfolding write_words
write_words_before hb block i zero c h = refl
write_words_before hb block i (suc k) c h =
    write_words_before (update hb (i + 1) (block i)) block (i + 1) k c (omega arith)
    ∙ update_ne hb (i + 1) (block i) c (omega arith)

write_words_at :
    (hb : Block) (block : ℕ → ℕ) (i k j : ℕ)
    → i ≤ j
    → j < i + k
    → write_words hb block i k (j + 1) ≡ block j
unfolding write_words
write_words_at hb block i zero j lo hi = absurd (omega arith)
write_words_at hb block i (suc k) j lo hi = elim (ℕ_discrete i j) [
  | yes e ↦
      subst (λ m. write_words (update hb (i + 1) (block i)) block (i + 1) k (m + 1) ≡ block m) e
        (write_words_before (update hb (i + 1) (block i)) block (i + 1) k (i + 1) (omega arith)
          ∙ update_self hb (i + 1) (block i))
  | no e ↦
      write_words_at (update hb (i + 1) (block i)) block (i + 1) k j (omega arith) (omega arith)
]

read_words_before :
    (lh : Block) (block : ℕ → ℕ) (i k j : ℕ) → j < i → read_words lh block i k j ≡ block j
unfolding read_words
read_words_before lh block i zero j h = refl
read_words_before lh block i (suc k) j h =
    read_words_before lh (update block i (lh (i + 1))) (i + 1) k j (omega arith)
    ∙ update_ne block i (lh (i + 1)) j (omega arith)

pub read_words_at :
    (lh : Block) (block : ℕ → ℕ) (i k j : ℕ)
    → i ≤ j
    → j < i + k
    → read_words lh block i k j ≡ lh (j + 1)
unfolding read_words
read_words_at lh block i zero j lo hi = absurd (omega arith)
read_words_at lh block i (suc k) j lo hi = elim (ℕ_discrete i j) [
  | yes e ↦
      subst (λ m. read_words lh (update block i (lh (i + 1))) (i + 1) k m ≡ lh (m + 1)) e
        (read_words_before lh (update block i (lh (i + 1))) (i + 1) k i (omega arith)
          ∙ update_self block i (lh (i + 1)))
  | no e ↦ read_words_at lh (update block i (lh (i + 1))) (i + 1) k j (omega arith) (omega arith)
]

-- The header that `write_head` builds: its count and its names.
pub header_count : (hb : Block) (l : Log) → write_words (update hb 0 l.n) l.block 0 l.n 0 ≡ l.n
header_count hb l =
    write_words_before (update hb 0 l.n) l.block 0 l.n 0 (omega arith) ∙ update_self hb 0 l.n

pub header_names :
    (hb : Block) (l : Log) (j : ℕ)
    → j < l.n
    → write_words (update hb 0 l.n) l.block 0 l.n (j + 1) ≡ l.block j
header_names hb l j h = write_words_at (update hb 0 l.n) l.block 0 l.n j (omega arith) (omega arith)

-- `read_head` reads back the count and the names.
pub read_head_names :
    (l : Log) (s : Store) (j : ℕ)
    → j < s.view l.start 0
    → (read_head l s).block j ≡ s.view l.start (j + 1)
unfolding read_head
read_head_names l s j h =
    read_words_at (s.view l.start) l.block 0 (s.view l.start 0) j (omega arith) (omega arith)

-- `write_head` changes the header block alone, and nothing on a machine that has stopped.
pub write_head_ne : (l : Log) (s : Store) (c : ℕ) → l.start ≢ c → (write_head l s).disk c ≡ s.disk c
unfolding write_head
write_head_ne l s c h = disk-bwrite_ne l.start c _ h

pub write_head_dead : (l : Log) (s : Store) → s.power ≡ 0 → (write_head l s).disk ≡ s.disk
unfolding write_head bwrite
write_head_dead l s h = ground arith

pub power-write_head : (l : Log) (s : Store) → (write_head l s).power ≡ s.power - 1
unfolding write_head bwrite
power-write_head l s = ground arith

pub write_head_at :
    (l : Log) (s : Store)
    → s.power ≢ 0
    → (write_head l s).disk l.start ≡ write_words (update (s.view l.start) 0 l.n) l.block 0 l.n
unfolding write_head bwrite
write_head_at l s h = ground arith

pub view-write_head :
    (l : Log) (s : Store)
    → ((write_head l s).view l.start ≡ write_words (update (s.view l.start) 0 l.n) l.block 0 l.n)
      × ((c : ℕ) → l.start ≢ c → (write_head l s).view c ≡ s.view c)
unfolding write_head bwrite
view-write_head l s = (ground arith, λ c h. ground arith)
