-- ===== src/Uart.antt =====
-- kernel/uart.c: the transmit buffer of the serial port, between `uartputc` and the transmitter.
-- Both functions run with `uart_tx_lock` held. The transmitter is a parameter: whether it can take another
-- byte after it has taken `j` of them. The halt after a panic is left out.
pub mod Stream
mod Tests
use intro2os_project.Prelude.{
  ℕ, zero, suc, ◌+◌, ◌%◌, ◌^◌, Bool, true, false, Option, none, some, List, [], ◌∷◌, ◌==◌,
  if◌then◌else◌, update, u64,
}

-- UART_TX_BUF_SIZE
abbrev pub uart_tx_buf_size : ℕ
uart_tx_buf_size = 32

-- `uart_tx_buf`, `uart_tx_w` and `uart_tx_r`
pub record Uart : Type 0 where
  pub buf : ℕ → ℕ
  pub w : ℕ
  pub r : ℕ

-- What a call of `uartstart` leaves: the buffer, and the bytes written to THR, in order. It wakes the
-- sleepers of `uartputc` with each of them.
pub record Started : Type 0 where
  pub uart : Uart
  pub sent : List ℕ

-- The loop of `uartstart` behind `j` bytes, with fuel for its rounds.
unfoldable pub start_from : ℕ → (ℕ → Bool) → ℕ → Uart → Started
start_from zero idle j u = record { uart = u; sent = [] }
start_from (suc fuel) idle j u =
    let c = u.buf (u.r % uart_tx_buf_size) in
    elim (u.w == u.r) [
      | true ↦ record { uart = u; sent = [] }
      | false ↦ elim (idle j) [
        | false ↦ record { uart = u; sent = [] }
        | true ↦
            let rest = start_from fuel idle (j + 1) (record u { r = u64 (u.r + 1) }) in
            record rest { sent = c ∷ rest.sent }
      ]
    ]

-- `uartstart`: the buffer has no more bytes than places.
unfoldable pub uartstart : (ℕ → Bool) → Uart → Started
uartstart idle u = start_from uart_tx_buf_size idle 0 u

abbrev pub is_full : Uart → Bool
is_full u = u.w == u64 (u.r + uart_tx_buf_size)

-- `uart_tx_buf[uart_tx_w % UART_TX_BUF_SIZE] = c; uart_tx_w += 1`
abbrev pub put : ℕ → Uart → Uart
put c u = record u { buf = update u.buf (u.w % uart_tx_buf_size) c; w = u64 (u.w + 1) }

-- One look of `uartputc` at the buffer: `none` is `sleep(&uart_tx_r, &uart_tx_lock)`. That it halts where the
-- kernel has panicked is left out.
unfoldable pub uartputc : (ℕ → Bool) → ℕ → Uart → Option Started
uartputc idle c u = if is_full u then none else some (uartstart idle (put c u))
