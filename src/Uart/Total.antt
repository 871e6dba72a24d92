-- ===== src/Uart/Total.antt =====
-- The outcomes of the loads and stores of the serial port of simctty/uart.cc.
use simctty.Prelude.{ℕ, ◌≡◌, refl, ok}
use simctty.Exception.{no_exception}
use simctty.BusDevice.{Loaded, Stored}
use simctty.Uart.{Uart, load8, store8}

pub load8-ok : (u : Uart) (address : ℕ) → (l : Loaded Uart) × (load8 u address ≡ ok l)
unfolding load8
load8-ok u address = (_, refl)

-- A store raises no exception.
pub store8-quiet :
    (u : Uart) (address v : ℕ)
    → (u' : Uart) × (store8 u address v ≡ ok (record { exception = no_exception; state = u' }))
unfolding store8
store8-quiet u address v = (_, refl)

pub store8-ok : (u : Uart) (address v : ℕ) → (s : Stored Uart) × (store8 u address v ≡ ok s)
unfolding store8
store8-ok u address v = (_, refl)
