-- ===== src/Uart/Stream.antt =====
-- The bytes that pass through the transmit buffer.
use intro2os_project.Prelude.{
  ℕ, zero, suc, ◌+◌, ◌-◌, ◌%◌, ◌^◌, ◌≤◌, ◌<◌, ◌≡◌, refl, ap, sym, ◌∙◌, Bool, true, false, some,
  List, [], ◌∷◌, ◌++◌, append_assoc, ◌==◌, u64, arith, window, window-update, window-mod,
  Bool-cases, inl, inr,
}
use intro2os_project.Uart.{
  Uart, Started, start_from, uartstart, uartputc, is_full, put, uart_tx_buf_size,
}

-- The number of bytes in the buffer, on `uint64`.
abbrev pub count : Uart → ℕ
count u = (u.w + 2 ^ 64 - u.r) % 2 ^ 64

pub record IsValid (u : Uart) : Type 0 where
  pub w_word : u.w < 2 ^ 64
  pub r_word : u.r < 2 ^ 64
  pub fits : count u ≤ uart_tx_buf_size

unfoldable pub contents : Uart → List ℕ
contents u = window uart_tx_buf_size u.buf u.r (count u)

put-IsValid : (c : ℕ) (u : Uart) → IsValid u → is_full u ≡ false → IsValid (put c u)
put-IsValid c u v h = ground arith

put-count : (c : ℕ) (u : Uart) → IsValid u → is_full u ≡ false → count (put c u) ≡ suc (count u)
put-count c u v h = ground arith

contents-put :
    (c : ℕ) (u : Uart) → IsValid u → is_full u ≡ false → contents (put c u) ≡ contents u ++ (c ∷ [])
unfolding contents
contents-put c u v h = rw (put-count c u v h) (
    window-update uart_tx_buf_size u.buf u.r (count u) (u.w % uart_tx_buf_size) c (ground arith)
      (omega arith))

abbrev behind : Uart → Uart
behind u = record u { r = u64 (u.r + 1) }

behind-count : (u : Uart) → IsValid u → (u.w == u.r) ≡ false → count u ≡ suc (count (behind u))
behind-count u v h = ground arith

behind-IsValid : (u : Uart) → IsValid u → (u.w == u.r) ≡ false → IsValid (behind u)
behind-IsValid u v h = ground arith

contents-behind :
    (u : Uart)
    → IsValid u
    → (u.w == u.r) ≡ false
    → contents u ≡ u.buf (u.r % uart_tx_buf_size) ∷ contents (behind u)
unfolding contents
contents-behind u v h = rw (behind-count u v h) (
    ap (λ (l : List ℕ). u.buf (u.r % uart_tx_buf_size) ∷ l)
      (window-mod uart_tx_buf_size u.buf (u.r + 1) (u64 (u.r + 1)) (count (behind u))
        (omega arith)))

start_from_sends :
    (fuel : ℕ) (idle : ℕ → Bool) (j : ℕ) (u : Uart)
    → IsValid u
    → IsValid (start_from fuel idle j u).uart
      × (contents u ≡ (start_from fuel idle j u).sent ++ contents (start_from fuel idle j u).uart)
unfolding start_from
start_from_sends zero idle j u v = (v, refl)
start_from_sends (suc fuel) idle j u v =
    ground (
      arith,
      behind-IsValid u v,
      contents-behind u v,
      start_from_sends fuel idle (j + 1) (behind u),
    )

start_from_drains :
    (fuel : ℕ) (idle : ℕ → Bool) (j : ℕ) (u : Uart)
    → IsValid u
    → ((i : ℕ) → idle i ≡ true)
    → count u ≤ fuel
    → count (start_from fuel idle j u).uart ≡ 0
unfolding start_from
start_from_drains zero idle j u v h le = omega arith
start_from_drains (suc fuel) idle j u v h le = elim (Bool-cases (u.w == u.r)) [
  | inl e ↦ rw (e, start_from) (ground arith)
  | inr e ↦
      rw (e, h j, start_from)
        (start_from_drains fuel idle (j + 1) (behind u) (behind-IsValid u v e) h
          (omega (arith, behind-count u v e)))
]

-- The buffer, with all bytes that `uartputc` has accepted and all that the transmitter has been given.
pub record Line : Type 0 where
  pub uart : Uart
  pub accepted : List ℕ
  pub sent : List ℕ

pub data Step (s : Line) : Line → Type 0 where
  putting :
      (idle : ℕ → Bool) (c : ℕ) {t : Started}
      → uartputc idle c s.uart ≡ some t
      → Step s
          (record { uart = t.uart; accepted = s.accepted ++ (c ∷ []); sent = s.sent ++ t.sent })
  interrupt :
      (idle : ℕ → Bool)
      → Step s (record s {
        uart = (uartstart idle s.uart).uart;
        sent = s.sent ++ (uartstart idle s.uart).sent;
      })

pub data Reach (s : Line) : Line → Type 0 where
  here : Reach s s
  later : {t u : Line} → Reach s t → Step t u → Reach s u

abbrev pub fresh : (ℕ → ℕ) → Line
fresh memory = record { uart = record { buf = memory; w = 0; r = 0 }; accepted = []; sent = [] }

pub record InOrder (s : Line) : Type 0 where
  pub valid : IsValid s.uart
  pub split : s.accepted ≡ s.sent ++ contents s.uart

started :
    (idle : ℕ → Bool) (u : Uart) (accepted sent : List ℕ)
    → IsValid u
    → accepted ≡ sent ++ contents u
    → InOrder (record {
      uart = (uartstart idle u).uart;
      accepted = accepted;
      sent = sent ++ (uartstart idle u).sent;
    })
unfolding uartstart
started idle u accepted sent v e =
    let s = start_from_sends uart_tx_buf_size idle 0 u v in
    let t = start_from uart_tx_buf_size idle 0 u in
    record {
      valid = s.0;
      split = e ∙ ap (λ l. sent ++ l) s.1 ∙ sym (append_assoc sent t.sent (contents t.uart));
    }

uartputc_inv :
    (idle : ℕ → Bool) (c : ℕ) (u : Uart) {t : Started}
    → uartputc idle c u ≡ some t
    → (is_full u ≡ false) × (uartstart idle (put c u) ≡ t)
unfolding uartputc
uartputc_inv idle c u e = ground arith

Step-InOrder : {s t : Line} → Step s t → InOrder s → InOrder t
Step-InOrder {s} (putting idle c e) o =
    let (room, same) = uartputc_inv idle c s.uart e in
    rw (← same) (
      started idle (put c s.uart) (s.accepted ++ (c ∷ [])) s.sent
        (put-IsValid c s.uart o.valid room)
        (ap (λ l. l ++ (c ∷ [])) o.split
          ∙ append_assoc s.sent (contents s.uart) (c ∷ [])
          ∙ ap (λ l. s.sent ++ l) (sym (contents-put c s.uart o.valid room))))
Step-InOrder {s} (interrupt idle) o = started idle s.uart s.accepted s.sent o.valid o.split

Reach-InOrder : {memory : ℕ → ℕ} {s : Line} → Reach (fresh memory) s → InOrder s
unfolding contents
Reach-InOrder here = record {
  valid = record { w_word = omega arith; r_word = omega arith; fits = omega arith };
  split = refl;
}
Reach-InOrder (later r st) = Step-InOrder st (Reach-InOrder r)

-- In every state that calls of `uartputc` and interrupts reach from boot, the bytes accepted so far are the
-- bytes given to the transmitter, in order, with the bytes in the buffer behind them, and a call
-- of `uartstart` on a transmitter that takes all bytes leaves none in the buffer.
pub uart_fifo :
    {memory : ℕ → ℕ} {s : Line} (idle : ℕ → Bool)
    → Reach (fresh memory) s
    → ((i : ℕ) → idle i ≡ true)
    → (s.accepted ≡ s.sent ++ contents s.uart) × (count (uartstart idle s.uart).uart ≡ 0)
unfolding uartstart
uart_fifo {s} idle r h =
    let o = Reach-InOrder r in
    (o.split, start_from_drains uart_tx_buf_size idle 0 s.uart o.valid h o.valid.fits)
