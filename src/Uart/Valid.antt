-- ===== src/Uart/Valid.antt =====
-- The serial port of simctty/uart.cc as the guest uses it: bytes in its registers and queues, and
-- the states that loads and stores of the guest lead to.
use simctty.Prelude.{ℕ, ◌^◌, ◌<◌, ◌≡◌, arith, List, [], ◌∷◌, ◌++◌, sub32, ok}
use simctty.BusDevice.{Loaded, Stored}
use simctty.Uart.{
  Uart, min_uart_address, new_uart, interrupt_id, pop_key, load_register, load8, store_register,
  store8,
}

abbrev pub AllBytes : List ℕ → Type 0
AllBytes [] = Unit {0}
AllBytes (x ∷ xs) = (x < 2 ^ 8) × AllBytes xs

pub AllBytes-append : (xs ys : List ℕ) → AllBytes xs → AllBytes ys → AllBytes (xs ++ ys)
AllBytes-append [] ys p q = q
AllBytes-append (x ∷ xs) ys p q = (p.0, AllBytes-append xs ys p.1 q)

-- Registers and queues hold bytes.
pub record IsValid (u : Uart) : Type 0 where
  pub keys : AllBytes u.keypress_fifo
  pub display : AllBytes u.display_fifo
  pub ier : u.ier < 2 ^ 8
  pub lcr : u.lcr < 2 ^ 8
  pub mcr : u.mcr < 2 ^ 8
  pub dll : u.dll < 2 ^ 8
  pub dlm : u.dlm < 2 ^ 8

pub new_uart-IsValid : IsValid new_uart
unfolding new_uart
new_uart-IsValid = record {
  keys = tt;
  display = tt;
  ier = omega arith;
  lcr = omega arith;
  mcr = omega arith;
  dll = omega arith;
  dlm = omega arith;
}

-- A load gives a byte.
abbrev LoadsByte : Loaded Uart → Type 0
LoadsByte l = (l.value < 2 ^ 8) × IsValid l.state

pop_key-LoadsByte :
    (u : Uart) (keys : List ℕ) → IsValid u → AllBytes keys → LoadsByte (pop_key u keys)
unfolding pop_key
pop_key-LoadsByte u [] v h = (omega arith, v)
pop_key-LoadsByte u (c ∷ rest) v h = ground arith

interrupt_id-lt : (u : Uart) → interrupt_id u < 2 ^ 8
unfolding interrupt_id
interrupt_id-lt u = ground arith

load_register-LoadsByte : (u : Uart) (n : ℕ) → IsValid u → LoadsByte (load_register u n)
unfolding load_register
load_register-LoadsByte u n v =
    ground (arith, pop_key-LoadsByte u u.keypress_fifo v v.keys, interrupt_id-lt u)

pub load8-LoadsByte :
    (u : Uart) (address : ℕ) {l : Loaded Uart} → IsValid u → load8 u address ≡ ok l → LoadsByte l
unfolding load8
load8-LoadsByte u address v e =
    ground (arith, load_register-LoadsByte u (sub32 address min_uart_address) v)

store_register-IsValid :
    (u : Uart) (n value : ℕ) → IsValid u → value < 2 ^ 8 → IsValid (store_register u n value)
unfolding store_register
store_register-IsValid u n value v h =
    ground (arith, AllBytes-append u.display_fifo (value ∷ []) v.display (h, tt))

pub store8-IsValid :
    (u : Uart) (address value : ℕ) {s : Stored Uart}
    → IsValid u
    → value < 2 ^ 8
    → store8 u address value ≡ ok s
    → IsValid s.state
unfolding store8
store8-IsValid u address value v h e =
    ground (arith, store_register-IsValid u (sub32 address min_uart_address) value v h)
