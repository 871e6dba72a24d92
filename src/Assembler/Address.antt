-- ===== src/Assembler/Address.antt =====
-- `Assembler::SetAddress`: the padding up to an address.
use simctty.Prelude.{
  ℕ, zero, suc, ◌+◌, ◌*◌, ◌≤◌, ◌<◌, ◌≡◌, ◌⊎◌, refl, sym, ◌∙◌, ap, arith, inl, inr, Bool-cases, ltb,
  true, false, List, [], ◌∷◌, ◌++◌, length, length-append,
}
use mathlib.Core.Path.{subst}
use mathlib.Core.List.{append-nil, append_assoc}
use simctty.Assembler.Words.{type_exk}
use simctty.Assembler.Emit.{size, l_nop, pad, set_address}
use simctty.Assembler.Bytes.{append_instruction-big_endian}

-- The bytes of `k` instructions l.nop.
abbrev pub nops : ℕ → List ℕ
nops zero = []
nops (suc k) = 0x15 ∷ 0 ∷ 0 ∷ 0 ∷ nops k

l_nop-bytes : (s : List ℕ) → l_nop s 0 ≡ s ++ (0x15 ∷ 0 ∷ 0 ∷ 0 ∷ [])
unfolding l_nop type_exk
l_nop-bytes s = append_instruction-big_endian s 0x15000000

-- As much padding as is wanted, in whole instructions.
pub record IsPadded (s : List ℕ) (address : ℕ) (result : List ℕ) : Type 0 where
  pub count : ℕ
  pub padding : result ≡ s ++ nops count
  pub reaches : address ≤ size s + 4 * count
  pub minimal : (count ≡ 0) ⊎ (size s + 4 * count < address + 4)

pad-suc :
    (rounds : ℕ) (s : List ℕ) (address : ℕ)
    → (ltb (length s) address ≡ true → pad (suc rounds) s address ≡ pad rounds (l_nop s 0) address)
      × (ltb (length s) address ≡ false → pad (suc rounds) s address ≡ s)
unfolding pad size
pad-suc rounds s address = (λ short. ground arith, λ enough. ground arith)

pad-IsPadded :
    (rounds : ℕ) (s : List ℕ) (address : ℕ)
    → address ≤ size s + rounds
    → IsPadded s address (pad rounds s address)
unfolding pad size
pad-IsPadded zero s address h = record {
  count = 0;
  padding = sym (append-nil s);
  reaches = omega arith;
  minimal = inl refl;
}
pad-IsPadded (suc rounds) s address h = elim (Bool-cases (ltb (length s) address)) [
  | inl short ↦
      (let longer : length (l_nop s 0) ≡ length s + 4 =
          ap length (l_nop-bytes s) ∙ length-append s (0x15 ∷ 0 ∷ 0 ∷ 0 ∷ []) in
        let rest = pad-IsPadded rounds (l_nop s 0) address (omega arith) in
        subst (IsPadded s address) (sym ((pad-suc rounds s address).0 short)) (record {
          count = suc rest.count;
          padding =
              rest.padding
              ∙ ap (λ t. t ++ nops rest.count) (l_nop-bytes s)
              ∙ append_assoc s (0x15 ∷ 0 ∷ 0 ∷ 0 ∷ []) (nops rest.count);
          reaches = omega (arith, rest.reaches);
          minimal = ground (arith, rest.minimal, longer);
        }))
  | inr enough ↦ subst (IsPadded s address) (sym ((pad-suc rounds s address).1 enough)) (record {
    count = 0;
    padding = sym (append-nil s);
    reaches = ground arith;
    minimal = inl refl;
  })
]

-- SetAddress stops, having appended just as many l.nop as it takes to reach the address: none
-- where the bytes already reach it.
pub set_address-IsPadded : (s : List ℕ) (address : ℕ) → IsPadded s address (set_address s address)
unfolding set_address
set_address-IsPadded s address = pad-IsPadded address s address (omega arith)
