-- ===== src/Ram/Tests.antt =====
-- Concrete runs of simctty/ram.cc.
use simctty.Prelude.{ℕ, ◌-◌, ◌≡◌, refl, arith, true, false, List, [], ◌∷◌, update, ok, exited}
use simctty.Ram.{Ram, load8, load16, load32, store8, store16, store32, load_image, size}
use simctty.Ram.Memory
use simctty.Ram.Guest.{guest, returned, Leaves, loads-Memory, stores-Memory}
use simctty.Ram.Image.{overlay, load_image-overlay, load_image_refuses}

-- The word 0x11223344 at address 0, on a little-endian host.
abbrev word_ram : Ram
word_ram = record { ram = update (update (update (update (λ i. 0) 0 0x44) 1 0x33) 2 0x22) 3 0x11 }

loads-Memory_example :
    (load8 word_ram 0 ≡ returned 0x11 word_ram)
    × (load16 word_ram 0 ≡ returned 0x1122 word_ram)
    × (load32 word_ram 0 ≡ returned 0x11223344 word_ram)
loads-Memory_example =
    let all = loads-Memory word_ram 0 (omega arith) in (all.0, all.1 refl, all.2 refl)

stores-Memory_example :
    Leaves (store8 word_ram 4 0x55) (update (guest word_ram) 4 0x55)
    × Leaves (store16 word_ram 4 0x5566) (Memory.store16 (guest word_ram) 4 0x5566)
    × Leaves (store32 word_ram 4 0x55667788) (Memory.store32 (guest word_ram) 4 0x55667788)
stores-Memory_example =
    let bytes = stores-Memory word_ram 4 0x55 (omega arith) in
    let halves = stores-Memory word_ram 4 0x5566 (omega arith) in
    let words = stores-Memory word_ram 4 0x55667788 (omega arith) in
    (bytes.0, halves.1 refl, words.2 refl)

abbrev image : List ℕ
image = 1 ∷ 2 ∷ 3 ∷ 4 ∷ 5 ∷ 6 ∷ 7 ∷ 8 ∷ []

load_image-overlay_example :
    (r' : Ram) × (load_image word_ram image 8 0x100 ≡ ok (true, r'))
    × ((x : ℕ) → guest r' x ≡ overlay (guest word_ram) image 0x100 8 x)
load_image-overlay_example =
    load_image-overlay word_ram image 8 0x100 refl refl (omega arith) (omega arith)

load_image_refuses_example :
    (load_image word_ram image 8 (size - 4) ≡ ok (false, word_ram))
    × (load_image word_ram image 6 0x100 ≡ exited)
load_image_refuses_example = (
  (load_image_refuses word_ram image 8 (size - 4)).0 (omega arith),
  (load_image_refuses word_ram image 6 0x100).1 refl (λ e. absurd (omega arith)) (omega arith)
      (omega arith),
)
