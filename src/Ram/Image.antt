-- ===== src/Ram/Image.antt =====
-- `RAM::LoadImage` of simctty/ram.cc, which copies a buffer into the memory from an offset on.
use simctty.Prelude.{
  ℕ, zero, suc, ◌+◌, ◌-◌, ◌*◌, ◌/◌, ◌%◌, ◌≤◌, ◌<◌, ◌≡◌, ◌≢◌, refl, arith, true, false, List, ◌&&◌,
  ltb, leb, if◌then◌else◌, update, length, get_or, get_elem?-eq-get_or, Result, ok, exited, inl,
  inr, Bool-cases,
}
use simctty.Prelude.Bits.{bit_xor_three}
use simctty.Ram.{Ram, size, write8, copy_word, copy_words, load_image}
use simctty.Ram.Memory.{Memory}
use simctty.Ram.Guest.{guest}

-- The memory with `buffer[0..len)` laid over the addresses from `offset` on.
abbrev pub overlay : Memory → List ℕ → ℕ → ℕ → Memory
overlay m buffer offset len x =
    if leb offset x && ltb x (offset + len) then get_or buffer (x - offset) 0 else m x

-- A length rounded up to whole words, which is what the loop copies.
abbrev pub padded : ℕ → ℕ
padded len = (len + 3) / 4 * 4

module _ (buffer : List ℕ) (offset : ℕ) (aligned : offset % 4 ≡ 0) where
  abbrev copied : ℕ → Ram → Ram
  copied i r = record {
    ram =
        update
          (update
            (update (update r.ram (offset + i) (get_or buffer (i + 3) 0)) (offset + i + 1)
              (get_or buffer (i + 2) 0))
            (offset + i + 2) (get_or buffer (i + 1) 0))
          (offset + i + 3) (get_or buffer i 0);
  }

  copy_word-copied :
      (i : ℕ) (r : Ram)
      → i + 3 < length buffer
      → offset + i + 3 < size
      → copy_word buffer offset i r ≡ ok (copied i r)
  unfolding copy_word write8
  copy_word-copied i r h k = ground (
    arith,
    get_elem?-eq-get_or buffer i 0,
    get_elem?-eq-get_or buffer (i + 1) 0,
    get_elem?-eq-get_or buffer (i + 2) 0,
    get_elem?-eq-get_or buffer (i + 3) 0,
  )

  guest-copied :
      (i : ℕ) (r : Ram) (x : ℕ)
      → i % 4 ≡ 0
      → guest (copied i r) x ≡ (
          if leb (offset + i) x && ltb x (offset + i + 4)
          then get_or buffer (x - offset) 0
          else guest r x)
  guest-copied i r x h = ground (arith, bit_xor_three x)

  -- What the loop leaves, from `i` on to the end of the last word.
  record Copied (len i : ℕ) (r : Ram) (result : Result Ram) : Type 0 where
    ram : Ram
    returns : result ≡ ok ram
    holds :
        (x : ℕ)
        → guest ram x ≡ (
            if leb (offset + i) x && ltb x (offset + padded len)
            then get_or buffer (x - offset) 0
            else guest r x)

  Copied-suc :
      (rounds len i : ℕ) (r : Ram)
      → i % 4 ≡ 0
      → padded len ≤ length buffer
      → offset + padded len ≤ size
      → ltb i len ≡ true
      → Copied len (i + 4) (copied i r) (copy_words rounds buffer len offset (i + 4) (copied i r))
      → Copied len i r (copy_words (suc rounds) buffer len offset i r)
  unfolding copy_words
  Copied-suc rounds len i r h fits room more rest = record {
    ram = rest.ram;
    returns = ground (arith, copy_word-copied i r (ground arith) (ground arith), rest.returns);
    holds = λ x. ground (arith, rest.holds x, guest-copied i r x h);
  }

  copy_words-Copied :
      (rounds len i : ℕ) (r : Ram)
      → i % 4 ≡ 0
      → len ≤ i + rounds
      → padded len ≤ length buffer
      → offset + padded len ≤ size
      → i ≤ padded len
      → Copied len i r (copy_words rounds buffer len offset i r)
  unfolding copy_words
  copy_words-Copied zero len i r h k fits room le = record {
    ram = r;
    returns = refl;
    holds = λ x. ground arith;
  }
  copy_words-Copied (suc rounds) len i r h k fits room le = elim (Bool-cases (ltb i len)) [
    | inl more ↦ Copied-suc rounds len i r h fits room more (
        copy_words-Copied rounds len (i + 4) (copied i r) (omega arith) (omega arith) fits room
          (ground arith))
    | inr done ↦ record { ram = r; returns = ground arith; holds = λ x. ground arith }
  ]

-- RAM::LoadImage of an image of whole words, at a word address and within the memory, returns
-- true: the guest then finds byte i of the buffer at the offset + i, and every other byte as it
-- was.
pub load_image-overlay :
    (r : Ram) (buffer : List ℕ) (len offset : ℕ)
    → offset % 4 ≡ 0
    → len % 4 ≡ 0
    → len ≤ length buffer
    → offset + len ≤ size
    → (r' : Ram) × (load_image r buffer len offset ≡ ok (true, r'))
      × ((x : ℕ) → guest r' x ≡ overlay (guest r) buffer offset len x)
unfolding load_image
load_image-overlay r buffer len offset aligned words fits room =
    let loop =
      copy_words-Copied buffer offset aligned len len 0 r refl (omega arith) (omega arith)
        (omega arith) (omega arith) in
    (loop.ram, ground (arith, loop.returns), λ x. ground (arith, loop.holds x))

-- RAM::LoadImage of an image that passes the end of the memory returns false and changes nothing;
-- one within it, at a word address, whose length is no multiple of 4, from a buffer that holds the
-- whole last word, ends the process.
pub load_image_refuses :
    (r : Ram) (buffer : List ℕ) (len offset : ℕ)
    → (size < offset + len → load_image r buffer len offset ≡ ok (false, r))
      × (offset % 4 ≡ 0
          → len % 4 ≢ 0
          → padded len ≤ length buffer
          → offset + len ≤ size
          → load_image r buffer len offset ≡ exited)
unfolding load_image
load_image_refuses r buffer len offset = (
  λ h. ground arith,
  λ aligned odd fits room.
      let loop =
        copy_words-Copied buffer offset aligned len len 0 r refl (omega arith) fits (omega arith)
          (omega arith) in
      ground (arith, loop.returns),
)
