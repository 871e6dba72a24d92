-- ===== src/System/Console.antt =====
-- The output of the loop of simctty/main.cc: what the guest sent, once and in order.
use simctty.Prelude.{ℕ, zero, suc, ◌≤◌, ◌≡◌, refl, sym, ◌∙◌, ap, arith, List, [], ◌∷◌, ◌++◌, length}
use mathlib.Core.List.{append-nil, append_assoc}
use simctty.Uart
use simctty.Uart.{Uart}
use simctty.Cpu.State.{Machine}
use simctty.System.{drain, type_keys, serve}

drain-all :
    (n : ℕ) (u : Uart) (bytes : List ℕ)
    → length bytes ≤ n
    → drain n (record u { display_fifo = bytes }) ≡ (bytes, record u { display_fifo = [] })
unfolding drain Uart.read Uart.can_read
drain-all zero u [] h = refl
drain-all zero u (x ∷ xs) h = absurd (omega arith)
drain-all (suc n) u [] h = refl
drain-all (suc n) u (x ∷ xs) h = rw (drain-all n u xs (omega arith))

type_keys-append :
    (keys : List ℕ) (u : Uart)
    → type_keys u keys ≡ record u { keypress_fifo = u.keypress_fifo ++ keys }
unfolding type_keys Uart.keypress
type_keys-append [] u =
    ap (λ fifo. record u { keypress_fifo = fifo }) (sym (append-nil u.keypress_fifo))
type_keys-append (key ∷ keys) u =
    type_keys-append keys (Uart.keypress u key)
    ∙ ap (λ fifo. record u { keypress_fifo = fifo }) (append_assoc u.keypress_fifo (key ∷ []) keys)

-- Between two runs of the processor, the loop of main queues the keys in the order in which they
-- were typed, behind those that wait, prints all bytes that the guest sent, in order, and leaves
-- none of them.
pub serve-prints :
    (m : Machine) (keys : List ℕ)
    → let u = m.bus.uart in
      serve m keys ≡ (
        u.display_fifo,
        record m {
          bus = record (m.bus) {
            uart = record u { keypress_fifo = u.keypress_fifo ++ keys; display_fifo = [] };
          };
        },
      )
unfolding serve
serve-prints m keys =
    let u = m.bus.uart in
    let typed = record u { keypress_fifo = u.keypress_fifo ++ keys } in
    rw (
      type_keys-append keys u,
      drain-all (length u.display_fifo) typed u.display_fifo (omega arith),
    )
