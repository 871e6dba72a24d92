-- ===== src/System/GuestRun.antt =====
-- A run of the processor between two turns of the host, as in the loop of simctty/main.cc: what the
-- guest took from the serial port and what it sent.
use simctty.Prelude.{ℕ, ◌≡◌, ◌∙◌, true, List, ◌++◌, ok}
use mathlib.Core.List.{append-nil}
use simctty.Uart.{Uart}
use simctty.Uart.Fifo.{Traffic, no_traffic, all_traffic, run_events-Conserves}
use simctty.Uart.Guest.{Touches, AllWords-guest, guest-silent}
use simctty.Cpu.State.{Machine}
use simctty.Cpu.Control.{check_interrupts}
use simctty.Cpu.Exec.{Ran}
use simctty.Cpu.Run
use simctty.Cpu.Safety.{is_tame_from}
use simctty.Cpu.Safety.Dispatch.{IsSound}
use simctty.Cpu.Safety.Runs.{run-Safe}

-- The run of 20000 cycles ends in `r`. The keys received are those gone from the front of the
-- keyboard queue, and the bytes sent are those added behind the display queue.
pub record GuestRun (m : Machine) (r : Ran) (received sent : List ℕ) : Type 0 where
  pub returns : Run.run m 20000 ≡ ok r
  pub sound : IsSound r.machine
  pub keys : received ++ r.machine.bus.uart.keypress_fifo ≡ m.bus.uart.keypress_fifo
  pub bytes : r.machine.bus.uart.display_fifo ≡ m.bus.uart.display_fifo ++ sent

abbrev pub guest_traffic : List ℕ → List ℕ → Traffic
guest_traffic received sent = record no_traffic { delivered = received; sent = sent }

touched :
    {u u' : Uart}
    → Touches u u'
    → (received : List ℕ) × (sent : List ℕ) × (received ++ u'.keypress_fifo ≡ u.keypress_fifo)
      × (u'.display_fifo ≡ u.display_fifo ++ sent)
touched {u} t =
    let (keys, bytes) = run_events-Conserves u t.events (AllWords-guest t.events t.guest) in
    let (quiet, dark) = guest-silent u t.events t.guest in
    (
      (all_traffic u t.events).delivered,
      (all_traffic u t.events).sent,
      (rw (t.leads, quiet) at keys) ∙ append-nil u.keypress_fifo,
      rw (t.leads, dark) at bytes,
    )

pub run-GuestRun :
    (m : Machine)
    → IsSound m
    → is_tame_from 20000 (check_interrupts m) ≡ true
    → (r : Ran) × (received : List ℕ) × (sent : List ℕ) × GuestRun m r received sent
run-GuestRun m s tame =
    let r = run-Safe m 20000 s tame in
    let (received, sent, keys, bytes) = touched r.holds.leads.port in
    (
      r.value,
      received,
      sent,
      record {
        returns = r.returns;
        sound = record { cpu = r.holds.cpu; bus = r.holds.leads.valid };
        keys = keys;
        bytes = bytes;
      },
    )
