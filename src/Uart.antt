-- ===== src/Uart.antt =====
-- simctty/uart.h and simctty/uart.cc: the serial port. A register's value is a byte.
pub mod Fifo
pub mod Interrupt
pub mod Total
pub mod Valid
pub mod Guest
mod Tests
use simctty.Prelude.{
  ℕ, bit_or, Bool, true, false, List, [], ◌∷◌, ◌++◌, ◌&&◌, ◌||◌, not, ◌==◌, if◌then◌else◌, has,
  sub32, Result, ok,
}
use simctty.Exception.{no_exception}
use simctty.BusDevice.{Loaded, Stored, BusDevice, default_load, default_store}

abbrev pub min_uart_address : ℕ
min_uart_address = 0x90000000

abbrev pub max_uart_address : ℕ
max_uart_address = 0x90000100

pub record Uart : Type 0 where
  pub keypress_fifo : List ℕ
  pub display_fifo : List ℕ
  pub ier : ℕ
  pub lcr : ℕ
  pub mcr : ℕ
  pub dll : ℕ
  pub dlm : ℕ
  pub transmit_ready_interrupt : Bool
  pub pretend_enable_fifos : Bool

-- The constructor `UART()`.
unfoldable pub new_uart : Uart
new_uart = record {
  keypress_fifo = [];
  display_fifo = [];
  ier = 0;
  lcr = 3;
  mcr = 0;
  dll = 0;
  dlm = 0;
  transmit_ready_interrupt = false;
  pretend_enable_fifos = false;
}

abbrev pub is_empty : List ℕ → Bool
is_empty [] = true
is_empty (x ∷ xs) = false

unfoldable pub is_data_ready_interrupt : Uart → Bool
is_data_ready_interrupt u = not (is_empty u.keypress_fifo) && has u.ier 0x1

unfoldable pub is_transmit_ready_interrupt : Uart → Bool
is_transmit_ready_interrupt u = has u.ier 0x2 && u.transmit_ready_interrupt

unfoldable pub is_interrupt_asserted : Uart → Bool
is_interrupt_asserted u =
    if is_data_ready_interrupt u || is_transmit_ready_interrupt u then true else false

-- A load returns with no exception.
loaded : ℕ → Uart → Loaded Uart
loaded v u = record { value = v; exception = no_exception; state = u }

-- Register 0: `front` and `pop_front`, or 0 if no key is waiting.
pop_key : Uart → List ℕ → Loaded Uart
unfolding loaded
pop_key u [] = loaded 0 u
pop_key u (c ∷ rest) = loaded c (record u { keypress_fifo = rest })

-- Register 2, the interrupt identification.
interrupt_id : Uart → ℕ
interrupt_id u =
    bit_or
      (bit_or (if u.pretend_enable_fifos then 0xc0 else 0x00)
        (if is_interrupt_asserted u then 0x0 else 0x1))
      (if is_data_ready_interrupt u then 0x4 else if is_transmit_ready_interrupt u then 0x2 else 0)

-- The second `switch` of `Load8`, on the register's number.
load_register : Uart → ℕ → Loaded Uart
unfolding loaded pop_key
load_register u n =
    if n == 0
    then pop_key u u.keypress_fifo
    else if n == 1
    then loaded u.ier u
    else if n == 2
    then loaded (interrupt_id u) (record u { transmit_ready_interrupt = false })
    else if n == 3
    then loaded u.lcr u
    else if n == 4
    then loaded u.mcr u
    else if n == 5
    then loaded (bit_or 0x60 (if is_empty u.keypress_fifo then 0x0 else 0x1)) u
    else if n == 6
    then loaded 0 u
    else loaded 0 u

-- With bit 7 of the line control register set, registers 0 and 1 are the divisor latch.
pub load8 : Uart → ℕ → Result (Loaded Uart)
unfolding loaded load_register
load8 u address =
    let n = sub32 address min_uart_address in
    ok (
      if has u.lcr 0x80 && n == 0
      then loaded u.dll u
      else if has u.lcr 0x80 && n == 1
      then loaded u.dlm u
      else load_register u n)

-- The second `switch` of `Store8`.
store_register : Uart → ℕ → ℕ → Uart
store_register u n value =
    if n == 0
    then record u {
      display_fifo = u.display_fifo ++ (value ∷ []);
      transmit_ready_interrupt = if has u.ier 0x2 then true else false;
    }
    else if n == 1
    then record u { ier = value }
    else if n == 2
    then record u { pretend_enable_fifos = has value 0x1 }
    else if n == 3
    then record u { lcr = value }
    else if n == 4
    then record u { mcr = value }
    else u

unfoldable pub store8 : Uart → ℕ → ℕ → Result (Stored Uart)
unfolding store_register
store8 u address value =
    let n = sub32 address min_uart_address in
    ok (record {
      exception = no_exception;
      state =
          if has u.lcr 0x80 && n == 0
          then record u { dll = value }
          else if has u.lcr 0x80 && n == 1
          then record u { dlm = value }
          else store_register u n value;
    })

unfoldable pub keypress : Uart → ℕ → Uart
keypress u c = record u { keypress_fifo = u.keypress_fifo ++ (c ∷ []) }

read_from : Uart → List ℕ → ℕ × Uart
read_from u [] = (0, u)
read_from u (key ∷ rest) = (key, record u { display_fifo = rest })

-- `Read`: the oldest byte that was sent, or 0.
unfoldable pub read : Uart → ℕ × Uart
unfolding read_from
read u = read_from u u.display_fifo

unfoldable pub can_read : Uart → Bool
can_read u = not (is_empty u.display_fifo)

-- `UART` overrides `Load8` and `Store8` only.
abbrev pub uart_device : BusDevice Uart
uart_device = record {
  load8 = load8;
  load16 = default_load;
  load32 = default_load;
  store8 = store8;
  store16 = default_store;
  store32 = default_store;
}
