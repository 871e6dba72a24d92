-- ===== src/System.antt =====
-- simctty/system.h, simctty/system.cc and the loop of simctty/main.cc: a bus and a processor that
-- are loaded with an image and run.
pub mod Start
pub mod Sound
pub mod Console
pub mod GuestRun
pub mod MainLoop
pub mod Main
pub mod Exported
pub mod Image
pub mod Samples
mod Tests
use simctty.Prelude.{
  ℕ, zero, suc, ◌+◌, ◌/◌, Bool, true, false, Option, none, some, List, [], ◌∷◌, ◌++◌, if◌then◌else◌,
  length, take, drop, Result, ok, ◌>>=◌,
}
use simctty.Ram
use simctty.Ram.{Ram}
use simctty.Uart
use simctty.Uart.{Uart}
use simctty.Bus.{new_bus}
use simctty.Cpu.State
use simctty.Cpu.State.{Cpu, Machine}
use simctty.Cpu.Exec.{Ran}
use simctty.Cpu.Run

-- The constructor, over the values that new memory happens to hold.
unfoldable pub new_system : Ram → Cpu → Result Machine
new_system ram cpu = do c ← State.new_cpu cpu; ok (record { cpu = c; bus = new_bus ram })

-- `Reset` and `SetPC`.
pub start : Machine → ℕ → Result Machine
start m start_address = do
  c ← State.reset m.cpu
  ok (record m { cpu = State.set_pc c start_address })

abbrev pub buffer_size : ℕ
buffer_size = 1024

-- `fread` overwrites the front of the buffer.
abbrev pub fill : List ℕ → List ℕ → List ℕ
fill chunk buffer = chunk ++ drop (length chunk) buffer

-- The loop over the blocks of the file, from `offset` on. The result of `LoadImage` is not looked
-- at. Each round takes at least a byte, so as many rounds as there are bytes are enough.
unfoldable pub load_blocks : ℕ → List ℕ → List ℕ → ℕ → Ram → Result Ram
load_blocks zero buffer rest offset r = ok r
load_blocks (suc rounds) buffer [] offset r = ok r
load_blocks (suc rounds) buffer (x ∷ xs) offset r =
    let chunk = take buffer_size (x ∷ xs) in
    let buffer' = fill chunk buffer in
    Ram.load_image r buffer' (length chunk) offset >>= λ l.
    load_blocks rounds buffer' (drop buffer_size (x ∷ xs)) (offset + length chunk) l.1

-- `none` is a file that cannot be opened; `buffer` is what the array on the stack holds.
unfoldable pub load_image_file : Machine → Option (List ℕ) → List ℕ → ℕ → Result (Bool × Machine)
unfolding start
load_image_file m none buffer start_address = do s ← start m start_address; ok (false, s)
load_image_file m (some file) buffer start_address = do
  s ← start m start_address
  r ← load_blocks (length file) buffer file 0 s.bus.ram
  ok (true, record s { bus = record (s.bus) { ram = r } })

pub load_image : Machine → List ℕ → ℕ → ℕ → Result (ℕ × Machine)
unfolding start
load_image m image length start_address = do
  s ← start m start_address
  r ← Ram.load_image s.bus.ram image length 0
  ok (length, record s { bus = record (s.bus) { ram = r.1 } })

abbrev run : Machine → ℕ → Result Ran
run m cycles = Run.run m cycles

-- 20000000 / 1000
abbrev pub cycles_per_iteration : ℕ
cycles_per_iteration = 20000000 / 1000

pub type_keys : Uart → List ℕ → Uart
type_keys u [] = u
type_keys u (key ∷ keys) = type_keys (Uart.keypress u key) keys

-- `while (CanRead()) fprintf("%c", Read())`: what is printed. Each round takes a byte, so as many
-- rounds as there are bytes are enough.
drain : ℕ → Uart → List ℕ × Uart
drain zero u = ([], u)
drain (suc rounds) u = elim (Uart.can_read u) [
  | true ↦
      let (key, u') = Uart.read u in let (printed, u'') = drain rounds u' in (key ∷ printed, u'')
  | false ↦ ([], u)
]

pub print_display : Uart → List ℕ × Uart
unfolding drain
print_display u = drain (length u.display_fifo) u

-- The body of the loop of `main` after a run: keys that `keychar` gave, then the output.
unfoldable pub serve : Machine → List ℕ → List ℕ × Machine
unfolding type_keys print_display
serve m keys =
    let (printed, u) = print_display (type_keys m.bus.uart keys) in
    (printed, record m { bus = record (m.bus) { uart = u } })

-- How the loop of `main` stands after the iterations whose keys are given: the output so far, and
-- whether the processor is still running.
pub record Session : Type 0 where
  pub printed : List ℕ
  pub running : Bool
  pub machine : Machine

unfoldable pub session : List (List ℕ) → List ℕ → Machine → Result Session
session [] out m = ok (record { printed = out; running = true; machine = m })
session (keys ∷ later) out m = run m cycles_per_iteration >>= λ r.
    (let served = serve r.machine keys in
      let rest = session later (out ++ served.0) served.1 in
      if r.running
      then rest
      else ok (record { printed = out; running = false; machine = r.machine }))

unfoldable pub main_loop : List (List ℕ) → Machine → Result Session
unfolding session serve
main_loop inputs m = session inputs [] m
