-- ===== src/Uart/Tests.antt =====
-- Concrete runs of simctty/uart.cc.
use simctty.Prelude.{◌+◌, ◌≡◌, refl, arith, true, List, [], ◌∷◌}
use simctty.Uart.{
  Uart, new_uart, min_uart_address, is_interrupt_asserted, keypress, load8, store8, read,
}
use simctty.Uart.Fifo.{
  Event, key, guest_load, guest_store, host_read, all_traffic, run_events, Conserves,
  run_events-Conserves, stored_state,
}
use simctty.Uart.Interrupt.{events_raise}

-- Both interrupts are enabled and a byte was sent.
abbrev busy : Uart
busy = record new_uart { ier = 3; transmit_ready_interrupt = true; display_fifo = 0x41 ∷ [] }

abbrev events : List Event
events =
    key 0x61
    ∷ key 0x62
    ∷ guest_load min_uart_address
    ∷ guest_store min_uart_address 0x58
    ∷ guest_load (min_uart_address + 2)
    ∷ host_read
    ∷ []

run_events-Conserves_example : Conserves busy (all_traffic busy events) (run_events busy events)
run_events-Conserves_example =
    run_events-Conserves busy events
      (tt, (tt, (omega arith, (omega arith, (omega arith, (tt, tt))))))

run_events_test :
    ((all_traffic busy events).delivered ≡ 0x61 ∷ [])
    × ((all_traffic busy events).printed ≡ 0x41 ∷ [])
    × ((run_events busy events).display_fifo ≡ 0x58 ∷ [])
unfolding new_uart run_events all_traffic keypress load8 store8 read
run_events_test = (refl, refl, refl)

events_raise_example :
    (is_interrupt_asserted (stored_state busy (store8 busy min_uart_address 0x61)) ≡ true)
    × (is_interrupt_asserted (keypress busy 0x61) ≡ true)
unfolding new_uart
events_raise_example = let all = events_raise busy 0x61 in (all.0 refl refl, all.1)
