-- ===== src/Uart/Fifo.antt =====
-- The two queues of the serial port of simctty/uart.cc, under sequences of events in which the
-- host and the guest take turns in any order.
use simctty.Prelude.{
  ℕ, ◌^◌, ◌<◌, ◌≡◌, refl, sym, ap, arith, Bool, List, [], ◌∷◌, ◌++◌, ◌&&◌, not, ◌==◌, if◌then◌else◌,
  has, Result, ok,
}
use mathlib.Core.Path.{◌≡⟨◌⟩◌, ◌∎}
use mathlib.Core.List.{append-nil, append_assoc}
use simctty.BusDevice.{Loaded, Stored}
use simctty.Uart.{pop_key, Uart, min_uart_address, is_empty, load8, store8, keypress, read}

-- What can happen to the port: a key of the user, a load or a store of the guest, and the host's
-- read of the display.
pub data Event : Type 0 where
  key : ℕ → Event
  guest_load : ℕ → Event
  guest_store : ℕ → ℕ → Event
  host_read : Event

-- What goes in and comes out: keys pressed, keys that a load returned, bytes stored for the
-- display, and bytes that the host read.
pub record Traffic : Type 0 where
  pub pressed : List ℕ
  pub delivered : List ℕ
  pub sent : List ℕ
  pub printed : List ℕ

abbrev pub no_traffic : Traffic
no_traffic = record { pressed = []; delivered = []; sent = []; printed = [] }

-- The data register is at the first address, while the divisor latch is not selected.
abbrev pub is_data_register : Uart → ℕ → Bool
is_data_register u address = address == min_uart_address && not (has u.lcr 0x80)

abbrev pub loaded_state : Uart → Result (Loaded Uart) → Uart
loaded_state u (ok l) = l.state
loaded_state u _ = u

abbrev pub loaded_value : Result (Loaded Uart) → List ℕ
loaded_value (ok l) = l.value ∷ []
loaded_value _ = []

abbrev pub stored_state : Uart → Result (Stored Uart) → Uart
stored_state u (ok s) = s.state
stored_state u _ = u

abbrev pub happen : Uart → Event → Uart
happen u (key c) = keypress u c
happen u (guest_load address) = loaded_state u (load8 u address)
happen u (guest_store address v) = stored_state u (store8 u address v)
happen u host_read = (read u).1

abbrev pub traffic : Uart → Event → Traffic
traffic u (key c) = record no_traffic { pressed = c ∷ [] }
traffic u (guest_load address) = record no_traffic {
  delivered =
      if is_data_register u address && not (is_empty u.keypress_fifo)
      then loaded_value (load8 u address)
      else [];
}
traffic u (guest_store address v) = record no_traffic {
  sent = if is_data_register u address then v ∷ [] else [];
}
traffic u host_read = record no_traffic {
  printed = if is_empty u.display_fifo then [] else (read u).0 ∷ [];
}

abbrev pub join : Traffic → Traffic → Traffic
join a b = record {
  pressed = a.pressed ++ b.pressed;
  delivered = a.delivered ++ b.delivered;
  sent = a.sent ++ b.sent;
  printed = a.printed ++ b.printed;
}

unfoldable pub run_events : Uart → List Event → Uart
run_events u [] = u
run_events u (e ∷ es) = run_events (happen u e) es

unfoldable pub all_traffic : Uart → List Event → Traffic
all_traffic u [] = no_traffic
all_traffic u (e ∷ es) = join (traffic u e) (all_traffic (happen u e) es)

-- What came out, and then what waits, is what waited, and then what went in.
abbrev pub Conserves : Uart → Traffic → Uart → Type 0
Conserves u t u' =
    (t.delivered ++ u'.keypress_fifo ≡ u.keypress_fifo ++ t.pressed)
    × (t.printed ++ u'.display_fifo ≡ u.display_fifo ++ t.sent)

-- The guest's addresses are 32 bits.
abbrev pub IsWord : Event → Type 0
IsWord (guest_load address) = address < 2 ^ 32
IsWord (guest_store address v) = address < 2 ^ 32
IsWord _ = Unit {0}

abbrev pub AllWords : List Event → Type 0
AllWords [] = Unit {0}
AllWords (e ∷ es) = IsWord e × AllWords es

pop-Conserves :
    (u : Uart) (keys : List ℕ)
    → keys ≡ u.keypress_fifo
    → ((if is_empty keys then [] else (pop_key u keys).value ∷ [])
          ++ (pop_key u keys).state.keypress_fifo
        ≡ keys)
      × ((pop_key u keys).state.display_fifo ≡ u.display_fifo)
unfolding pop_key
pop-Conserves u [] e = (sym e, refl)
pop-Conserves u (x ∷ xs) e = (refl, refl)

load-Conserves :
    (u : Uart) (address : ℕ)
    → address < 2 ^ 32
    → Conserves u (traffic u (guest_load address)) (happen u (guest_load address))
unfolding load8
load-Conserves u address h = ground (
  arith,
  append-nil u.keypress_fifo,
  append-nil u.display_fifo,
  pop-Conserves u u.keypress_fifo refl,
)

store-Conserves :
    (u : Uart) (address v : ℕ)
    → address < 2 ^ 32
    → Conserves u (traffic u (guest_store address v)) (happen u (guest_store address v))
unfolding store8
store-Conserves u address v h =
    ground (arith, append-nil u.keypress_fifo, append-nil u.display_fifo)

read-Conserves : (u : Uart) → Conserves u (traffic u host_read) (happen u host_read)
unfolding read
read-Conserves u = ground (arith, append-nil u.keypress_fifo, append-nil u.display_fifo)

step-Conserves : (u : Uart) (e : Event) → IsWord e → Conserves u (traffic u e) (happen u e)
step-Conserves u (key c) h = unfold keypress in (refl, sym (append-nil u.display_fifo))
step-Conserves u (guest_load address) h = load-Conserves u address h
step-Conserves u (guest_store address v) h = store-Conserves u address v h
step-Conserves u host_read h = read-Conserves u

pub Conserves-none : (u : Uart) → Conserves u no_traffic u
Conserves-none u = (sym (append-nil u.keypress_fifo), sym (append-nil u.display_fifo))

append_chain :
    (out out' waited entered entered' between after : List ℕ)
    → out ++ between ≡ waited ++ entered
    → out' ++ after ≡ between ++ entered'
    → (out ++ out') ++ after ≡ waited ++ (entered ++ entered')
append_chain out out' waited entered entered' between after p q =
    (out ++ out') ++ after
    ≡⟨ append_assoc out out' after ⟩ out ++ (out' ++ after)
    ≡⟨ ap (λ l. out ++ l) q ⟩ out ++ (between ++ entered')
    ≡⟨ sym (append_assoc out between entered') ⟩ (out ++ between) ++ entered'
    ≡⟨ ap (λ l. l ++ entered') p ⟩ (waited ++ entered) ++ entered'
    ≡⟨ append_assoc waited entered entered' ⟩ waited ++ (entered ++ entered') ∎

pub Conserves-join :
    (u v w : Uart) (t t' : Traffic) → Conserves u t v → Conserves v t' w → Conserves u (join t t') w
Conserves-join u v w t t' now later = (
  append_chain t.delivered _ u.keypress_fifo t.pressed _ _ _ now.0 later.0,
  append_chain t.printed _ u.display_fifo t.sent _ _ _ now.1 later.1,
)

-- Over any sequence of keys, guest loads and stores at 32-bit addresses, and host reads: the keys
-- that loads of the data register returned, followed by the keys that wait, are the keys that
-- waited followed by those pressed; and the bytes that the host read, followed by those that wait,
-- are those that waited followed by those that the guest stored there.
pub run_events-Conserves :
    (u : Uart) (es : List Event) → AllWords es → Conserves u (all_traffic u es) (run_events u es)
unfolding run_events all_traffic
run_events-Conserves u [] h = Conserves-none u
run_events-Conserves u (e ∷ es) h =
    Conserves-join u (happen u e) (run_events (happen u e) es) (traffic u e)
      (all_traffic (happen u e) es) (step-Conserves u e h.0)
      (run_events-Conserves (happen u e) es h.1)
