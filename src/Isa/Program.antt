-- ===== src/Isa/Program.antt =====
-- A program that simctty/assembler.cc assembles and `System::LoadImage` loads, as the words that
-- the guest fetches.
use simctty.Prelude.{
  ℕ, zero, suc, ◌+◌, ◌*◌, ◌-◌, ◌^◌, ◌≤◌, ◌<◌, ◌≡◌, refl, sym, ◌∙◌, ap, arith, u32, List, [], ◌∷◌,
  ◌++◌, some, length, get_elem?, get_or, ok,
}
use mathlib.Core.List.{append-nil, append_assoc}
use simctty.Ram.{Ram, size}
use simctty.Ram.Memory
use simctty.Ram.Memory.{Memory}
use simctty.Ram.Guest.{guest}
use simctty.Ram.Image.{overlay}
use simctty.Cpu.State.{Cpu, Machine}
use simctty.Assembler.Bytes.{big_endian, append_instruction-big_endian}
use simctty.System.{load_image}
use simctty.System.Start.{IsReset}
use simctty.System.Image.{load_image-Loaded}
use simctty.Isa.Instruction.{Instruction, word}
use simctty.Isa.Bytes.{emit, emit-append_instruction}

-- The calls that assemble a program, behind the bytes that the assembler holds.
abbrev pub assembled : List ℕ → List Instruction → List ℕ
assembled s [] = s
assembled s (i ∷ is) = assembled (emit s i) is

abbrev pub bytes_of : List Instruction → List ℕ
bytes_of [] = []
bytes_of (i ∷ is) = big_endian (word i) ++ bytes_of is

assembled-bytes_of : (s : List ℕ) (is : List Instruction) → assembled s is ≡ s ++ bytes_of is
assembled-bytes_of s [] = sym (append-nil s)
assembled-bytes_of s (i ∷ is) =
    assembled-bytes_of (emit s i) is
    ∙ ap (λ t. t ++ bytes_of is)
        (emit-append_instruction s i ∙ append_instruction-big_endian s (word i))
    ∙ append_assoc s (big_endian (word i)) (bytes_of is)

length-bytes_of : (is : List Instruction) → length (bytes_of is) ≡ 4 * length is
length-bytes_of [] = omega arith
length-bytes_of (i ∷ is) = omega (arith, length-bytes_of is)

-- The bytes of the program as a memory.
abbrev program_memory : List Instruction → Memory
program_memory is x = get_or (bytes_of is) x 0

later_byte :
    (i : Instruction) (is : List Instruction) (x : ℕ)
    → program_memory (i ∷ is) (x + 4) ≡ program_memory is x
later_byte i is x = ground arith

program-word :
    (is : List Instruction) (k : ℕ) (i : Instruction)
    → get_elem? is k ≡ some i
    → Memory.load32 (program_memory is) (4 * k) ≡ u32 (word i)
program-word [] k i h = absurd (cc)
program-word (j ∷ is) zero i h = let same : j ≡ i = cc in rw same (omega arith)
program-word (j ∷ is) (suc k) i h = ground (
  arith,
  program-word is k i h,
  later_byte j is (4 * k),
  later_byte j is (4 * k + 1),
  later_byte j is (4 * k + 2),
  later_byte j is (4 * k + 3),
)

pub get_elem?-lt :
    (is : List Instruction) (k : ℕ) (i : Instruction) → get_elem? is k ≡ some i → k < length is
get_elem?-lt [] k i h = absurd cc
get_elem?-lt (j ∷ is) zero i h = omega arith
get_elem?-lt (j ∷ is) (suc k) i h = omega (arith, get_elem?-lt is k i h)

overlay-program :
    (m : Memory) (is : List Instruction) (x : ℕ)
    → x < 4 * length is
    → overlay m (bytes_of is) 0 (4 * length is) x ≡ program_memory is x
overlay-program m is x h = ground arith

later_bytes-lt :
    (i : Instruction) (is : List Instruction) (x : ℕ)
    → ((y : ℕ) → program_memory is y < 2 ^ 8)
    → program_memory (i ∷ is) x < 2 ^ 8
later_bytes-lt i is x h = ground (arith, h (x - 4))

program_memory-lt : (is : List Instruction) (x : ℕ) → program_memory is x < 2 ^ 8
program_memory-lt [] x = omega arith
program_memory-lt (i ∷ is) x = later_bytes-lt i is x (program_memory-lt is)

-- The memory with the program in front.
abbrev pub image_memory : Memory → List Instruction → Memory
image_memory m is = overlay m (bytes_of is) 0 (4 * length is)

pub image_memory-lt :
    (m : Memory) (is : List Instruction) (x : ℕ) → m x < 2 ^ 8 → image_memory m is x < 2 ^ 8
image_memory-lt m is x h = ground (arith, program_memory-lt is x)

pub image_memory-word :
    (m : Memory) (is : List Instruction) (k : ℕ) (i : Instruction)
    → get_elem? is k ≡ some i
    → Memory.load32 (image_memory m is) (4 * k) ≡ u32 (word i)
image_memory-word m is k i h =
    let inside = get_elem?-lt is k i h in
    rw
      (
        overlay-program m is (4 * k) (omega arith),
        overlay-program m is (4 * k + 1) (omega arith),
        overlay-program m is (4 * k + 2) (omega arith),
        overlay-program m is (4 * k + 3) (omega arith),
      )
      (program-word is k i h)

-- The load of an assembled program.
pub program_image :
    (m : Machine) (is : List Instruction) (pc : ℕ)
    → 4 * length is ≤ size
    → let image = assembled [] is in
      (c : Cpu) × (r : Ram) × (load_image m image (length image) pc
        ≡ ok (length image, record { cpu = c; bus = record (m.bus) { ram = r } }))
      × IsReset c pc
      × ((x : ℕ) → guest r x ≡ image_memory (guest m.bus.ram) is x)
program_image m is pc room =
    let image : assembled [] is ≡ bytes_of is = assembled-bytes_of [] is in
    let whole : length (bytes_of is) ≡ 4 * length is = length-bytes_of is in
    let (c, r, loads, reset, holds) =
      load_image-Loaded m (bytes_of is) pc (omega arith) (omega arith) in
    (c, r, rw image loads, reset, λ x. holds x ∙ rw whole refl)

-- A program that fits in the memory, assembled and loaded as an image, is there word by word:
-- instruction k at address 4 * k, in the byte order of the guest. The processor is reset and
-- stands at the start address.
pub program_loaded :
    (m : Machine) (is : List Instruction) (pc : ℕ)
    → 4 * length is ≤ size
    → let image = assembled [] is in
      (c : Cpu) × (r : Ram) × (load_image m image (length image) pc
        ≡ ok (length image, record { cpu = c; bus = record (m.bus) { ram = r } }))
      × IsReset c pc
      × ((k : ℕ) (i : Instruction)
          → get_elem? is k ≡ some i
          → Memory.load32 (guest r) (4 * k) ≡ u32 (word i))
program_loaded m is pc room =
    let (c, r, loads, reset, holds) = program_image m is pc room in
    (
      c,
      r,
      loads,
      reset,
      λ k i h.
          rw (holds (4 * k), holds (4 * k + 1), holds (4 * k + 2), holds (4 * k + 3))
            (image_memory-word (guest m.bus.ram) is k i h),
    )
