-- ===== src/Bus/Valid.antt =====
-- The bus of simctty/bus.cc with a memory and a serial port of bytes, and what loads and stores
-- through its devices do to them.
use simctty.Prelude.{
  ℕ, ◌^◌, ◌<◌, ◌≡◌, ◌⊎◌, arith, none, some, inl, inr, Result, Ensures, Ensures-bind,
}
use mathlib.Core.Path.{subst}
use simctty.BusDevice.{Loaded, Stored, BusDevice}
use simctty.Ram
use simctty.Ram.Bytes
use simctty.Ram.Bytes.{HasBytes}
use simctty.Uart.Valid
use simctty.Uart.Guest.{Touches, Touches-none, Touches-trans, load8-Touches, store8-Touches}
use simctty.Bus.{
  Bus, new_bus, member, ram_member, uart_member, get_device, load_member, store_member,
}
use simctty.Uart.Total.{load8-ok, store8-ok}

pub record IsValid (b : Bus) : Type 0 where
  pub ram : HasBytes b.ram
  pub uart : Valid.IsValid b.uart

-- From one bus to the next: the serial port is touched by the guest only.
pub record Leads (b b' : Bus) : Type 0 where
  pub valid : IsValid b'
  pub port : Touches b.uart b'.uart

pub Leads-none : (b : Bus) → IsValid b → Leads b b
Leads-none b v = record { valid = v; port = Touches-none b.uart }

pub Leads-trans : {b c d : Bus} → Leads b c → Leads c d → Leads b d
Leads-trans p q = record { valid = q.valid; port = Touches-trans p.port q.port }

pub Leads-ram : (b : Bus) (r : Ram.Ram) → IsValid b → HasBytes r → Leads b (record b { ram = r })
Leads-ram b r v h = record { valid = record { ram = h; uart = v.uart }; port = Touches-none b.uart }

pub new_bus-IsValid : (r : Ram.Ram) → HasBytes r → IsValid (new_bus r)
new_bus-IsValid r h = record { ram = h; uart = Valid.new_uart-IsValid }

-- A load of `k` bits.
pub record LoadsBits (k : ℕ) (b : Bus) (l : Loaded Bus) : Type 0 where
  pub bits : l.value < 2 ^ k
  pub leads : Leads b l.state

abbrev pub StoreLeads : Bus → Stored Bus → Type 0
StoreLeads b s = Leads b s.state

module _ (b : Bus) (a : ℕ) (v : IsValid b) where
  -- The memory as a member of the bus.
  ram_loads :
      (k : ℕ) (f : Ram.Ram → ℕ → Result (Loaded Ram.Ram))
      → Ensures (Bytes.LoadsBits k b.ram) (f b.ram a)
      → Ensures (LoadsBits k b) (load_member (λ c. c.ram) (λ c r. record c { ram = r }) f b a)
  unfolding load_member
  ram_loads k f h =
      Ensures-bind (Bytes.LoadsBits k b.ram) (LoadsBits k b) (f b.ram a) _ h
        (λ l q. record { bits = q.0; leads = Leads-ram b l.state v (rw q.1 v.ram) })

  ram_stores :
      (f : Ram.Ram → ℕ → ℕ → Result (Stored Ram.Ram)) (value : ℕ)
      → Ensures (λ (s : Stored Ram.Ram). HasBytes s.state) (f b.ram a value)
      → Ensures (StoreLeads b) (store_member (λ c. c.ram) (λ c r. record c { ram = r }) f b a value)
  unfolding store_member
  ram_stores f value h =
      Ensures-bind (λ (s : Stored Ram.Ram). HasBytes s.state) (StoreLeads b) (f b.ram a value) _ h
        (λ s q. Leads-ram b s.state v q)

  -- The serial port.
  uart_load8 : a < 2 ^ 32 → Ensures (LoadsBits 8 b) (uart_member.load8 b a)
  unfolding member load_member
  uart_load8 h =
      let (l, e) = load8-ok b.uart a in
      let q = Valid.load8-LoadsByte b.uart a v.uart e in
      rw e (record {
        bits = q.0;
        leads = record {
          valid = record { ram = v.ram; uart = q.1 };
          port = load8-Touches b.uart a h e;
        };
      })

  uart_store8 :
      (value : ℕ)
      → a < 2 ^ 32
      → value < 2 ^ 8
      → Ensures (StoreLeads b) (uart_member.store8 b a value)
  unfolding member store_member
  uart_store8 value h k =
      let (s, e) = store8-ok b.uart a value in
      rw e (record {
        valid = record { ram = v.ram; uart = Valid.store8-IsValid b.uart a value v.uart k e };
        port = store8-Touches b.uart a value h k e;
      })

  -- What `GetDevice` finds at an address.
  get_device-cases :
      (get_device a ≡ none) ⊎ (get_device a ≡ some ram_member) ⊎ (get_device a ≡ some uart_member)
  unfolding get_device
  get_device-cases = ground arith

  -- The device at an address, if there is one.
  abbrev OnDevice : (BusDevice Bus → Type 0) → Type 0
  OnDevice P = (d : BusDevice Bus) → get_device a ≡ some d → P d

  on_device : (P : BusDevice Bus → Type 0) → P ram_member → P uart_member → OnDevice P
  on_device P ram uart d e = elim get_device-cases [
    | inl null ↦ cc
    | inr (inl r) ↦ let s : ram_member ≡ d = cc in subst P s ram
    | inr (inr u) ↦ let s : uart_member ≡ d = cc in subst P s uart
  ]

  pub device_load8 : a < 2 ^ 32 → OnDevice (λ d. Ensures (LoadsBits 8 b) (d.load8 b a))
  unfolding member
  device_load8 h =
      on_device (λ d. Ensures (LoadsBits 8 b) (d.load8 b a))
        (ram_loads 8 Ram.load8 (Bytes.load8-LoadsBits b.ram a v.ram)) (uart_load8 h)

  pub device_load16 : OnDevice (λ d. Ensures (LoadsBits 16 b) (d.load16 b a))
  unfolding member
  device_load16 =
      on_device (λ d. Ensures (LoadsBits 16 b) (d.load16 b a))
        (ram_loads 16 Ram.load16 (Bytes.load16-LoadsBits b.ram a v.ram))
        (record { bits = omega arith; leads = Leads-none b v })

  pub device_load32 : OnDevice (λ d. Ensures (LoadsBits 32 b) (d.load32 b a))
  unfolding member
  device_load32 =
      on_device (λ d. Ensures (LoadsBits 32 b) (d.load32 b a))
        (ram_loads 32 Ram.load32 (Bytes.load32-LoadsBits b.ram a v.ram))
        (record { bits = omega arith; leads = Leads-none b v })

  pub device_store8 :
      (value : ℕ)
      → a < 2 ^ 32
      → value < 2 ^ 8
      → OnDevice (λ d. Ensures (StoreLeads b) (d.store8 b a value))
  unfolding member
  device_store8 value h k =
      on_device (λ d. Ensures (StoreLeads b) (d.store8 b a value))
        (ram_stores Ram.store8 value (Bytes.store8-HasBytes b.ram a v.ram value k))
        (uart_store8 value h k)

  pub device_store16 : (value : ℕ) → OnDevice (λ d. Ensures (StoreLeads b) (d.store16 b a value))
  unfolding member
  device_store16 value =
      on_device (λ d. Ensures (StoreLeads b) (d.store16 b a value))
        (ram_stores Ram.store16 value (Bytes.store16-HasBytes b.ram a v.ram value)) (Leads-none b v)

  pub device_store32 : (value : ℕ) → OnDevice (λ d. Ensures (StoreLeads b) (d.store32 b a value))
  unfolding member
  device_store32 value =
      on_device (λ d. Ensures (StoreLeads b) (d.store32 b a value))
        (ram_stores Ram.store32 value (Bytes.store32-HasBytes b.ram a v.ram value)) (Leads-none b v)
