-- ===== src/System/Image.antt =====
-- `System::LoadImageFile` and `System::LoadImage`: what they put into the guest's memory.
use simctty.Prelude.{
  ℕ, zero, suc, ◌+◌, ◌-◌, ◌%◌, ◌≤◌, ◌<◌, ◌≡◌, refl, arith, min, true, some, List, [], ◌∷◌, ◌++◌,
  length, length-append, take, drop, get_or, Result, ok,
}
use simctty.Ram.{Ram, size}
use simctty.Ram.Guest.{guest}
use simctty.Ram.Image.{overlay, load_image-overlay}
use simctty.Cpu.State.{Cpu, Machine}
use simctty.System.{load_blocks, load_image_file, load_image, buffer_size, fill}
use simctty.System.Start.{start-IsReset, IsReset}

length-take : (n : ℕ) (xs : List ℕ) → length (take n xs) ≡ min n (length xs)
length-take zero xs = omega arith
length-take (suc n) [] = omega arith
length-take (suc n) (x ∷ xs) = omega (arith, length-take n xs)

length-drop : (n : ℕ) (xs : List ℕ) → length (drop n xs) ≡ length xs - n
length-drop zero xs = omega arith
length-drop (suc n) [] = omega arith
length-drop (suc n) (x ∷ xs) = omega (arith, length-drop n xs)

get_or-take :
    (n : ℕ) (xs ys : List ℕ) (i : ℕ)
    → i < n
    → i < length xs
    → get_or (take n xs ++ ys) i 0 ≡ get_or xs i 0
get_or-take zero xs ys i p q = absurd (omega arith)
get_or-take (suc n) [] ys i p q = absurd (omega arith)
get_or-take (suc n) (x ∷ xs) ys zero p q = refl
get_or-take (suc n) (x ∷ xs) ys (suc i) p q = get_or-take n xs ys i (omega arith) (omega arith)

get_or-drop : (n : ℕ) (xs : List ℕ) (i : ℕ) → get_or (drop n xs) i 0 ≡ get_or xs (n + i) 0
get_or-drop zero xs i = ground arith
get_or-drop (suc n) [] i = refl
get_or-drop (suc n) (x ∷ xs) i = ground (arith, get_or-drop n xs i)

-- The memory with the file over it from `offset` on.
record Placed (file : List ℕ) (offset : ℕ) (r : Ram) (result : Result Ram) : Type 0 where
  ram : Ram
  returns : result ≡ ok ram
  holds : (x : ℕ) → guest ram x ≡ overlay (guest r) file offset (length file) x

-- A block, and then the rest of the file after it.
overlay-blocks :
    (r r1 r2 : Ram) (n : ℕ) (file buffer : List ℕ) (offset : ℕ)
    → ((x : ℕ)
        → guest r1 x ≡ overlay (guest r) (take n file ++ buffer) offset (length (take n file)) x)
    → ((x : ℕ)
        → guest r2 x
          ≡ overlay
              (guest r1)
              (drop n file)
              (offset + length (take n file))
              (length (drop n file))
              x)
    → (x : ℕ) → guest r2 x ≡ overlay (guest r) file offset (length file) x
overlay-blocks r r1 r2 n file buffer offset h1 h2 x = ground (
  arith,
  h1 x,
  h2 x,
  length-take n file,
  length-drop n file,
  get_or-take n file buffer (x - offset),
  get_or-drop n file (x - offset - length (take n file)),
)

load_blocks-Placed :
    (rounds : ℕ) (buffer file : List ℕ) (offset : ℕ) (r : Ram)
    → offset % 4 ≡ 0
    → length file % 4 ≡ 0
    → offset + length file ≤ size
    → length file ≤ rounds
    → Placed file offset r (load_blocks rounds buffer file offset r)
unfolding load_blocks
load_blocks-Placed zero buffer [] offset r aligned words room enough = record {
  ram = r;
  returns = refl;
  holds = λ x. ground arith;
}
load_blocks-Placed zero buffer (y ∷ ys) offset r aligned words room enough = absurd (omega arith)
load_blocks-Placed (suc rounds) buffer [] offset r aligned words room enough = record {
  ram = r;
  returns = refl;
  holds = λ x. ground arith;
}
load_blocks-Placed (suc rounds) buffer (y ∷ ys) offset r aligned words room enough =
    let chunk = take buffer_size (y ∷ ys) in
    let chunk_length : length chunk ≡ min buffer_size (length (y ∷ ys)) =
      length-take buffer_size (y ∷ ys) in
    let rest_length = length-drop buffer_size (y ∷ ys) in
    let filled : length (fill chunk buffer) ≡ length chunk + length (drop (length chunk) buffer) =
      length-append chunk (drop (length chunk) buffer) in
    let (r1, loads, h1) =
      load_image-overlay r (fill chunk buffer) (length chunk) offset aligned (omega arith)
        (omega arith) (omega arith) in
    let rest =
      load_blocks-Placed rounds (fill chunk buffer) (drop buffer_size (y ∷ ys))
        (offset + length chunk) r1 (omega arith) (omega arith) (omega arith) (omega arith) in
    record {
      ram = rest.ram;
      returns = rw loads rest.returns;
      holds =
          overlay-blocks r r1 rest.ram buffer_size (y ∷ ys) (drop (length chunk) buffer) offset h1
            rest.holds;
    }

-- LoadImageFile of a file of whole words that fits in the memory, whatever the block buffer held
-- before, returns true: the guest finds the bytes of the file at the start of its memory and the
-- rest of it as it was, and the processor is reset and stands at the start address.
pub load_image_file-overlay :
    (m : Machine) (file buffer : List ℕ) (pc : ℕ)
    → length file % 4 ≡ 0
    → length file ≤ size
    → (c : Cpu) × (r : Ram) × (load_image_file m (some file) buffer pc
        ≡ ok (true, record { cpu = c; bus = record (m.bus) { ram = r } }))
      × IsReset c pc
      × ((x : ℕ) → guest r x ≡ overlay (guest m.bus.ram) file 0 (length file) x)
unfolding load_image_file
load_image_file-overlay m file buffer pc words room =
    let (c, starts, reset) = start-IsReset m pc in
    let loads =
      load_blocks-Placed (length file) buffer file 0 m.bus.ram refl words (omega arith)
        (omega arith) in
    (c, loads.ram, rw (starts, loads.returns), reset, loads.holds)

-- The same for an image in the program's memory; the result is its length.
pub load_image-Loaded :
    (m : Machine) (image : List ℕ) (pc : ℕ)
    → length image % 4 ≡ 0
    → length image ≤ size
    → (c : Cpu) × (r : Ram) × (load_image m image (length image) pc
        ≡ ok (length image, record { cpu = c; bus = record (m.bus) { ram = r } }))
      × IsReset c pc
      × ((x : ℕ) → guest r x ≡ overlay (guest m.bus.ram) image 0 (length image) x)
unfolding load_image
load_image-Loaded m image pc words room =
    let (c, starts, reset) = start-IsReset m pc in
    let (r, loads, holds) =
      load_image-overlay m.bus.ram image (length image) 0 refl words (omega arith) (omega arith) in
    (c, r, rw (starts, loads), reset, holds)
