-- ===== src/System/MainLoop.antt =====
-- The loop of simctty/main.cc over several iterations: what is typed, what the guest does with the
-- serial port, and what is printed.
pub mod Iterations
use simctty.Prelude.{
  ℕ, ◌≡◌, refl, sym, ◌∙◌, ap, arith, Bool, true, false, ◌&&◌, List, [], ◌∷◌, ◌++◌, if◌then◌else◌,
  Result, ok, exited, fault, Returns, Returns-ok, Returns-if,
}
use mathlib.Core.Bool.{false≢true}
use mathlib.Core.List.{append-nil, append_assoc}
use simctty.Uart.Valid.{AllBytes, AllBytes-append}
use simctty.Uart.Fifo.{Traffic, no_traffic, join, Conserves, Conserves-none, Conserves-join}
use simctty.Cpu.State.{Machine}
use simctty.Cpu.Control.{check_interrupts}
use simctty.Cpu.Exec.{Ran}
use simctty.Cpu.Run
use simctty.Cpu.Safety.{is_tame_from}
use simctty.Cpu.Safety.Dispatch.{IsSound}
use simctty.System.{serve, Session, session, main_loop, cycles_per_iteration}
use simctty.System.Console.{serve-prints}
use simctty.System.GuestRun.{GuestRun, guest_traffic, run-GuestRun}
use simctty.System.MainLoop.Iterations.{
  concat, served, Iterates, finished, stopped, continued, Iterates-Conserves, Iterates-pressed,
}

abbrev pub AllKeys : List (List ℕ) → Type 0
AllKeys [] = Unit {0}
AllKeys (keys ∷ later) = AllBytes keys × AllKeys later

-- The iterations whose runs of the processor are tame, up to one that stops it.
tame_iterations : (Machine → Bool) → List ℕ → Result Ran → Bool
tame_iterations rest keys (ok r) =
    let later = rest (serve r.machine keys).1 in if r.running then later else true
tame_iterations rest keys exited = false
tame_iterations rest keys fault = false

unfoldable pub is_tame_session : List (List ℕ) → Machine → Bool
unfolding tame_iterations
is_tame_session [] m = true
is_tame_session (keys ∷ later) m =
    is_tame_from cycles_per_iteration (check_interrupts m)
    && tame_iterations (is_tame_session later) keys (Run.run m cycles_per_iteration)

served-IsSound : (m : Machine) (keys : List ℕ) → IsSound m → AllBytes keys → IsSound (served m keys)
served-IsSound m keys s h = record {
  cpu = s.cpu;
  bus = record {
    ram = s.bus.ram;
    uart = record {
      keys = AllBytes-append m.bus.uart.keypress_fifo keys s.bus.uart.keys h;
      display = tt;
      ier = s.bus.uart.ier;
      lcr = s.bus.uart.lcr;
      mcr = s.bus.uart.mcr;
      dll = s.bus.uart.dll;
      dlm = s.bus.uart.dlm;
    };
  };
}

-- The first part of a tame session, and the rest.
tame_parts :
    (keys : List ℕ) (later : List (List ℕ)) (m : Machine)
    → is_tame_session (keys ∷ later) m ≡ true
    → (is_tame_from cycles_per_iteration (check_interrupts m) ≡ true)
      × (tame_iterations (is_tame_session later) keys (Run.run m cycles_per_iteration) ≡ true)
unfolding is_tame_session
tame_parts keys later m e = ground arith

-- What a session comes to, behind the output `out` of earlier iterations.
record Told (inputs : List (List ℕ)) (out : List ℕ) (m : Machine) (s : Session) : Type 0 where
  pub traffic : Traffic
  pub sound : IsSound s.machine
  pub printed : s.printed ≡ out ++ traffic.printed
  pub goes : Iterates inputs m traffic s.running s.machine

-- What follows a run of the processor.
after_run :
    (keys : List ℕ) (later : List (List ℕ)) (out : List ℕ) (m : Machine) (r : Ran)
    (received sent : List ℕ)
    → ((out' : List ℕ) (m' : Machine)
        → IsSound m'
        → is_tame_session later m' ≡ true
        → Returns (Told later out' m') (session later out' m'))
    → AllBytes keys
    → GuestRun m r received sent
    → tame_iterations (is_tame_session later) keys (ok r) ≡ true
    → Returns (Told (keys ∷ later) out m) (
        if r.running
        then session later (out ++ (serve r.machine keys).0) (serve r.machine keys).1
        else ok (record { printed = out; running = false; machine = r.machine }))
unfolding tame_iterations
after_run keys later out m r received sent ih h g tame =
    let shown = r.machine.bus.uart.display_fifo in
    let turn : serve r.machine keys ≡ (shown, served r.machine keys) =
      serve-prints r.machine keys in
    Returns-if (Told (keys ∷ later) out m) r.running _ _
      (λ on.
        let sound = served-IsSound r.machine keys g.sound h in
        let t = ih (out ++ shown) (served r.machine keys) sound (rw (on, turn) at tame) in
        rw turn (record {
          value = t.value;
          returns = t.returns;
          holds = record {
            traffic = _;
            sound = t.holds.sound;
            printed = t.holds.printed ∙ append_assoc out shown t.holds.traffic.printed;
            goes = continued g on t.holds.goes;
          };
        }))
      (λ off. Returns-ok (Told (keys ∷ later) out m) _ (record {
        traffic = guest_traffic received sent;
        sound = g.sound;
        printed = sym (append-nil out);
        goes = stopped g off;
      }))

session-Told :
    (inputs : List (List ℕ)) (out : List ℕ) (m : Machine)
    → IsSound m
    → AllKeys inputs
    → is_tame_session inputs m ≡ true
    → Returns (Told inputs out m) (session inputs out m)
unfolding session
session-Told [] out m s h tame =
    Returns-ok (Told [] out m) _
      (record { traffic = no_traffic; sound = s; printed = sym (append-nil out); goes = finished })
session-Told (keys ∷ later) out m s h tame =
    let parts = tame_parts keys later m tame in
    let (r, received, sent, g) = run-GuestRun m s parts.0 in
    rw g.returns (
      after_run keys later out m r received sent
        (λ out' m' s' tame'. session-Told later out' m' s' h.1 tame') h.0 g
        (rw g.returns at parts.1))

-- What the loop of main comes to.
pub record IsServed (inputs : List (List ℕ)) (m : Machine) (s : Session) : Type 0 where
  pub traffic : Traffic
  pub sound : IsSound s.machine
  pub goes : Iterates inputs m traffic s.running s.machine
  pub printed : s.printed ≡ traffic.printed
  pub typed : s.running ≡ true → traffic.pressed ≡ concat inputs
  pub conserves : Conserves m.bus.uart traffic s.machine.bus.uart

-- From a machine in good order, with bytes as keys and runs of the processor whose rounds are
-- tame, the loop of main returns, with a machine in good order, and is the sequence of these
-- iterations: a run of 20000 cycles, and, where the processor goes on, a turn of the host, which
-- queues the keys of the iteration behind those that wait, prints the bytes that wait at the end
-- of that run, in order, and leaves none; where the processor stops, the loop ends without a turn.
-- All keys were typed unless the processor stopped. Over all iterations, the keys that the guest
-- took from the queue in the runs and then those that wait are those that waited at first and then
-- those typed; the bytes printed and then those that wait are those that waited and then those
-- that the runs added.
pub main_loop-IsServed :
    (m : Machine) (inputs : List (List ℕ))
    → IsSound m
    → AllKeys inputs
    → is_tame_session inputs m ≡ true
    → Returns (IsServed inputs m) (main_loop inputs m)
unfolding main_loop
main_loop-IsServed m inputs s h tame =
    let r = session-Told inputs [] m s h tame in
    let t = r.holds in
    record {
      value = r.value;
      returns = r.returns;
      holds = record {
        traffic = t.traffic;
        sound = t.sound;
        goes = t.goes;
        printed = t.printed;
        typed = Iterates-pressed t.goes;
        conserves = Iterates-Conserves t.goes;
      };
    }
