-- ===== src/Uart/Interrupt.antt =====
-- The interrupt line and the registers of the serial port.
use simctty.Prelude.{
  ℕ, ◌+◌, ◌≡◌, refl, arith, true, false, List, [], ◌∷◌, ◌++◌, ◌||◌, if◌then◌else◌, has, Result,
}
use simctty.BusDevice.{Loaded}
use simctty.Uart.Fifo.{loaded_value, stored_state}
use simctty.Uart.{
  Uart, min_uart_address, is_empty, is_data_ready_interrupt, is_transmit_ready_interrupt,
  is_interrupt_asserted, load8, store8, keypress,
}

-- Reading the interrupt identification register.
abbrev pub read_iir : Uart → Result (Loaded Uart)
read_iir u = load8 u (min_uart_address + 2)

abbrev pub with_fifos : Uart → ℕ
with_fifos u = if u.pretend_enable_fifos then 0xc0 else 0

is_empty-append : (xs : List ℕ) (v : ℕ) → is_empty (xs ++ (v ∷ [])) ≡ false
is_empty-append [] v = refl
is_empty-append (x ∷ xs) v = refl

-- With the divisor latch not selected and the transmitter's interrupt enabled, a byte stored for
-- the display asserts the interrupt line. A key asserts it if the receiver's interrupt is enabled,
-- and else leaves it as it was.
pub events_raise :
    (u : Uart) (v : ℕ)
    → (has u.lcr 0x80 ≡ false
        → has u.ier 0x2 ≡ true
        → is_interrupt_asserted (stored_state u (store8 u min_uart_address v)) ≡ true)
      × (is_interrupt_asserted (keypress u v) ≡ (has u.ier 0x1 || is_interrupt_asserted u))
unfolding store8 keypress is_interrupt_asserted is_data_ready_interrupt is_transmit_ready_interrupt
events_raise u v =
    (λ latch enabled. ground arith, ground (arith, is_empty-append u.keypress_fifo v))

-- The value that a load of register `n` gives after `value` was stored there.
abbrev read_back : Uart → ℕ → ℕ → List ℕ
read_back u n value =
    loaded_value
      (load8 (stored_state u (store8 u (min_uart_address + n) value)) (min_uart_address + n))

abbrev IsQuiet : Uart → Uart → Type 0
IsQuiet u u' =
    (u'.keypress_fifo ≡ u.keypress_fifo)
    × (u'.display_fifo ≡ u.display_fifo)
    × (u'.transmit_ready_interrupt ≡ u.transmit_ready_interrupt)

abbrev pub ReadsBack : Uart → ℕ → ℕ → Type 0
ReadsBack u value n =
    (read_back u n value ≡ value ∷ [])
    × IsQuiet u (stored_state u (store8 u (min_uart_address + n) value))

-- Registers 1, 3 and 4 of the UART read as they were written, and so does register 0 where the
-- divisor latch is selected. Such a store leaves both queues and the transmitter's interrupt
-- alone.
pub registers_read_back :
    (u : Uart) (value : ℕ)
    → ReadsBack u value 1
      × ReadsBack u value 3
      × ReadsBack u value 4
      × (has u.lcr 0x80 ≡ true → ReadsBack u value 0)
unfolding load8 store8
registers_read_back u value = (ground arith, ground arith, ground arith, λ latch. ground arith)
