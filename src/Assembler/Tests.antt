-- ===== src/Assembler/Tests.antt =====
-- Concrete runs of simctty/assembler.cc.
use simctty.Prelude.{[], ◌∷◌}
use simctty.Assembler.Emit.{set_address}
use simctty.Assembler.Address.{IsPadded, set_address-IsPadded}

set_address-IsPadded_example : IsPadded (1 ∷ 2 ∷ []) 9 (set_address (1 ∷ 2 ∷ []) 9)
set_address-IsPadded_example = set_address-IsPadded (1 ∷ 2 ∷ []) 9
