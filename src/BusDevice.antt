-- ===== src/BusDevice.antt =====
-- simctty/bus_device.h: the abstract class of what can be reached over the bus. A load takes the
-- device's state too: the source's `const` loads change `mutable` fields.
use simctty.Prelude.{ℕ, Result, ok}
use simctty.Exception.{Exception, bus_error}

pub record Loaded (S : Type 0) : Type 0 where
  pub value : ℕ
  pub exception : Exception
  pub state : S

pub record Stored (S : Type 0) : Type 0 where
  pub exception : Exception
  pub state : S

-- The virtual functions; each takes an address and sets `*exception`.
pub record BusDevice (S : Type 0) : Type 0 where
  pub load8 : S → ℕ → Result (Loaded S)
  pub load16 : S → ℕ → Result (Loaded S)
  pub load32 : S → ℕ → Result (Loaded S)
  pub store8 : S → ℕ → ℕ → Result (Stored S)
  pub store16 : S → ℕ → ℕ → Result (Stored S)
  pub store32 : S → ℕ → ℕ → Result (Stored S)

-- The bodies that a class inherits where it does not override them.
abbrev pub default_load : {S : Type 0} → S → ℕ → Result (Loaded S)
default_load s address = ok (record { value = 0; exception = bus_error; state = s })

abbrev pub default_store : {S : Type 0} → S → ℕ → ℕ → Result (Stored S)
default_store s address value = ok (record { exception = bus_error; state = s })
