-- ===== src/System/MainLoop/Iterations.antt =====
-- The loop of simctty/main.cc as steps: the runs of the processor, and the turns of the host between
-- them.
use simctty.Prelude.{ℕ, ◌≡◌, refl, sym, ◌∙◌, ap, Bool, true, false, List, [], ◌∷◌, ◌++◌}
use mathlib.Core.Bool.{false≢true}
use mathlib.Core.List.{append-nil, append_assoc}
use simctty.Uart.Fifo.{Traffic, no_traffic, join, Conserves, Conserves-none, Conserves-join}
use simctty.Cpu.State.{Machine}
use simctty.Cpu.Exec.{Ran}
use simctty.System.GuestRun.{GuestRun, guest_traffic}

-- The keys of all iterations.
abbrev pub concat : List (List ℕ) → List ℕ
concat [] = []
concat (keys ∷ later) = keys ++ concat later

-- The turn of the host after a run: the keys are queued, and the display is read out.
abbrev pub served : Machine → List ℕ → Machine
served m keys = record m {
  bus = record (m.bus) {
    uart = record (m.bus.uart) {
      keypress_fifo = m.bus.uart.keypress_fifo ++ keys;
      display_fifo = [];
    };
  };
}

-- The iterations of the loop, with the keys typed, those that the guest received, the bytes it sent
-- and those printed, whether the processor still runs, and the machine at the end. A run that goes
-- on is followed by the turn of the host, which prints exactly what waits; after a run that stops
-- the processor there is none.
pub data Iterates : List (List ℕ) → Machine → Traffic → Bool → Machine → Type 0 where
  finished : {m : Machine} → Iterates [] m no_traffic true m
  stopped :
      {keys : List ℕ} {later : List (List ℕ)} {m : Machine} {r : Ran} {received sent : List ℕ}
      → GuestRun m r received sent
      → r.running ≡ false
      → Iterates (keys ∷ later) m (guest_traffic received sent) false r.machine
  continued :
      {keys : List ℕ} {later : List (List ℕ)} {m : Machine} {r : Ran} {received sent : List ℕ}
      {t : Traffic} {running : Bool} {m' : Machine}
      → GuestRun m r received sent
      → r.running ≡ true
      → Iterates later (served r.machine keys) t running m'
      → Iterates
          (keys ∷ later)
          m
          (join
            (record {
              pressed = keys;
              delivered = received;
              sent = sent;
              printed = r.machine.bus.uart.display_fifo;
            })
            t)
          running
          m'

stopped-Conserves :
    (m : Machine) (r : Ran) (received sent : List ℕ)
    → GuestRun m r received sent
    → Conserves m.bus.uart (guest_traffic received sent) r.machine.bus.uart
stopped-Conserves m r received sent g =
    (g.keys ∙ sym (append-nil m.bus.uart.keypress_fifo), g.bytes)

continued-Conserves :
    (m : Machine) (r : Ran) (received sent keys : List ℕ)
    → GuestRun m r received sent
    → Conserves m.bus.uart
        (record {
          pressed = keys;
          delivered = received;
          sent = sent;
          printed = r.machine.bus.uart.display_fifo;
        })
        (served r.machine keys).bus.uart
continued-Conserves m r received sent keys g = (
  sym (append_assoc received r.machine.bus.uart.keypress_fifo keys) ∙ ap (λ l. l ++ keys) g.keys,
  append-nil r.machine.bus.uart.display_fifo ∙ g.bytes,
)

-- Over the iterations neither queue loses, repeats or reorders anything.
pub Iterates-Conserves :
    {inputs : List (List ℕ)} {m : Machine} {t : Traffic} {running : Bool} {m' : Machine}
    → Iterates inputs m t running m'
    → Conserves m.bus.uart t m'.bus.uart
Iterates-Conserves (finished {m}) = Conserves-none m.bus.uart
Iterates-Conserves (stopped {m} {r} {received} {sent} g off) = stopped-Conserves m r received sent g
Iterates-Conserves (continued {keys} {m} {r} {received} {sent} {t} {m'} g on later) =
    Conserves-join m.bus.uart (served r.machine keys).bus.uart m'.bus.uart _ t
      (continued-Conserves m r received sent keys g) (Iterates-Conserves later)

-- Where the processor still runs, all keys were typed.
pub Iterates-pressed :
    {inputs : List (List ℕ)} {m : Machine} {t : Traffic} {running : Bool} {m' : Machine}
    → Iterates inputs m t running m'
    → running ≡ true
    → t.pressed ≡ concat inputs
Iterates-pressed finished e = refl
Iterates-pressed (stopped g off) e = absurd (false≢true e)
Iterates-pressed (continued {keys} g on later) e = ap (λ l. keys ++ l) (Iterates-pressed later e)
