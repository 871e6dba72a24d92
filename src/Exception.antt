-- ===== src/Exception.antt =====
-- simctty/exception.h: the processor's exceptions and the table of their handlers.
use simctty.Prelude.{ℕ, Bool, true, false}

pub data Exception : Type 0 where
  no_exception reset bus_error data_page_fault instruction_page_fault : Exception
  tick_timer_interrupt alignment illegal_instruction external_interrupt : Exception
  dtlb_miss itlb_miss range system_call floating_point trap : Exception

-- `exception != kExceptionNone`
abbrev pub raised : Exception → Bool
raised no_exception = false
raised _ = true

pub record ExceptionHandler : Type 0 where
  pub pc : ℕ
  pub sets_eear : Bool

-- The table `exceptionHandlers`, indexed by the exception.
abbrev pub exception_handlers : Exception → ExceptionHandler
exception_handlers no_exception = record { pc = 0; sets_eear = false }
exception_handlers reset = record { pc = 0x100; sets_eear = false }
exception_handlers bus_error = record { pc = 0x200; sets_eear = true }
exception_handlers data_page_fault = record { pc = 0x300; sets_eear = true }
exception_handlers instruction_page_fault = record { pc = 0x400; sets_eear = true }
exception_handlers tick_timer_interrupt = record { pc = 0x500; sets_eear = false }
exception_handlers alignment = record { pc = 0x600; sets_eear = true }
exception_handlers illegal_instruction = record { pc = 0x700; sets_eear = true }
exception_handlers external_interrupt = record { pc = 0x800; sets_eear = false }
exception_handlers dtlb_miss = record { pc = 0x900; sets_eear = true }
exception_handlers itlb_miss = record { pc = 0xa00; sets_eear = true }
exception_handlers range = record { pc = 0xb00; sets_eear = false }
exception_handlers system_call = record { pc = 0xc00; sets_eear = false }
exception_handlers floating_point = record { pc = 0xd00; sets_eear = false }
exception_handlers trap = record { pc = 0xe00; sets_eear = false }
