-- ===== src/Bus.antt =====
-- simctty/bus.h and simctty/bus.cc: the bus owns the memory and the serial port, and finds the
-- device at a physical address.
pub mod Valid
use simctty.Prelude.{ℕ, ◌&&◌, Option, none, some, leb, if◌then◌else◌, Result, ok, ◌>>=◌}
use simctty.BusDevice.{Loaded, Stored, BusDevice}
use simctty.Ram.{Ram, max_ram_address, ram_device}
use simctty.Uart
use simctty.Uart.{Uart, min_uart_address, max_uart_address, uart_device}

pub record Bus : Type 0 where
  pub uart : Uart
  pub ram : Ram

-- `Bus()`, over the contents that the new array of the memory happens to have.
abbrev pub new_bus : Ram → Bus
new_bus ram = record { uart = Uart.new_uart; ram = ram }

-- A pointer to a member of the bus: the member's functions, on the bus that holds it.
module _ {S : Type 0} (get : Bus → S) (put : Bus → S → Bus) where
  load_member : (S → ℕ → Result (Loaded S)) → Bus → ℕ → Result (Loaded Bus)
  load_member f b address = do
    l ← f (get b) address
    ok (record { value = l.value; exception = l.exception; state = put b l.state })

  store_member : (S → ℕ → ℕ → Result (Stored S)) → Bus → ℕ → ℕ → Result (Stored Bus)
  store_member f b address value = do
    s ← f (get b) address value
    ok (record { exception = s.exception; state = put b s.state })

  unfoldable pub member : BusDevice S → BusDevice Bus
  unfolding load_member store_member
  member d = record {
    load8 = load_member d.load8;
    load16 = load_member d.load16;
    load32 = load_member d.load32;
    store8 = store_member d.store8;
    store16 = store_member d.store16;
    store32 = store_member d.store32;
  }

abbrev pub ram_member : BusDevice Bus
ram_member = member (λ b. b.ram) (λ b r. record b { ram = r }) ram_device

abbrev pub uart_member : BusDevice Bus
uart_member = member (λ b. b.uart) (λ b u. record b { uart = u }) uart_device

-- `none` is the null pointer.
unfoldable pub get_device : ℕ → Option (BusDevice Bus)
get_device address =
    if leb address max_ram_address
    then some ram_member
    else if leb min_uart_address address && leb address max_uart_address
    then some uart_member
    else none

unfoldable pub interrupts : Bus → ℕ
interrupts b = if Uart.is_interrupt_asserted b.uart then 0x4 else 0x0
