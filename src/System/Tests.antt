-- ===== src/System/Tests.antt =====
-- Concrete runs of simctty/system.cc and of the loop of simctty/main.cc.
use simctty.Prelude.{ℕ, ◌≡◌, refl, arith, true, some, List, [], ◌∷◌, ok}
use simctty.Ram.{Ram}
use simctty.Ram.Guest.{guest}
use simctty.Ram.Image.{overlay}
use simctty.Uart.{Uart, new_uart}
use simctty.Cpu.State.{Cpu, Machine}
use simctty.System.{load_image_file, serve}
use simctty.System.Start.{IsReset}
use simctty.System.Image.{load_image_file-overlay}
use simctty.System.Console.{serve-prints}
use simctty.Samples.{user_cpu, user_machine, zero_bus}

abbrev file : List ℕ
file = 0x15 ∷ 0 ∷ 0 ∷ 1 ∷ 0x15 ∷ 0 ∷ 0 ∷ 0 ∷ []

load_image_file-overlay_example :
    (c : Cpu) × (r : Ram) × (load_image_file (user_machine 0) (some file) [] 0x100
      ≡ ok (true, record { cpu = c; bus = record zero_bus { ram = r } }))
    × IsReset c 0x100
    × ((x : ℕ) → guest r x ≡ overlay (guest zero_bus.ram) file 0 8 x)
load_image_file-overlay_example =
    load_image_file-overlay (user_machine 0) file [] 0x100 refl (omega arith)

-- The guest has sent two bytes and a key waits.
abbrev talking : Uart
talking = record new_uart { keypress_fifo = 0x61 ∷ []; display_fifo = 0x48 ∷ 0x69 ∷ [] }

abbrev talking_machine : Machine
talking_machine = record { cpu = user_cpu 0; bus = record zero_bus { uart = talking } }

serve-prints_example : serve talking_machine (0x62 ∷ 0x63 ∷ []) ≡ (
  0x48 ∷ 0x69 ∷ [],
  record talking_machine {
    bus = record zero_bus {
      uart = record talking { keypress_fifo = 0x61 ∷ 0x62 ∷ 0x63 ∷ []; display_fifo = [] };
    };
  },
)
serve-prints_example = serve-prints talking_machine (0x62 ∷ 0x63 ∷ [])
