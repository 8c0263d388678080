-- ===== src/Uart/Tests.antt =====
-- Two bytes for a transmitter that takes one at a time.
use intro2os_project.Prelude.{ℕ, ◌≡◌, refl, Bool, true, false, [], ◌∷◌, ◌++◌, ◌==◌, update}
use intro2os_project.Uart.{start_from, uartstart, uartputc}
use intro2os_project.Uart.Stream.{
  Line, Reach, here, later, putting, fresh, contents, count, uart_fifo,
}

abbrev slow : ℕ → Bool
slow j = j == 0

abbrev busy : ℕ → Bool
busy j = false

abbrev ready : ℕ → Bool
ready j = true

abbrev memory : ℕ → ℕ
memory i = 0

-- The first byte is sent, and the second waits for the transmitter.
abbrev waiting : Line
waiting = record {
  uart = record { buf = update (update memory 0 104) 1 105; w = 2; r = 1 };
  accepted = 104 ∷ 105 ∷ [];
  sent = 104 ∷ [];
}

waiting_reached : Reach (fresh memory) waiting
unfolding uartputc uartstart start_from
waiting_reached = later (later here (putting slow 104 refl)) (putting busy 105 refl)

uart_fifo_example :
    (waiting.accepted ≡ waiting.sent ++ contents waiting.uart)
    × (count (uartstart ready waiting.uart).uart ≡ 0)
uart_fifo_example = uart_fifo ready waiting_reached (λ i. refl)
