-- ===== src/Uart/Guest.antt =====
-- What the guest can do to the serial port of simctty/uart.cc: loads and stores at 32-bit addresses,
-- in some order.
use simctty.Prelude.{ℕ, ◌^◌, ◌<◌, ◌≡◌, refl, ◌∙◌, ap, List, [], ◌∷◌, ◌++◌, ok}
use simctty.BusDevice.{Loaded, Stored}
use simctty.Uart.{Uart, load8, store8}
use simctty.Uart.Fifo.{
  Event, key, guest_load, guest_store, host_read, happen, run_events, loaded_state, stored_state,
  all_traffic, AllWords,
}

abbrev pub IsGuest : Event → Type 0
IsGuest (guest_load address) = address < 2 ^ 32
IsGuest (guest_store address v) = (address < 2 ^ 32) × (v < 2 ^ 8)
IsGuest _ = ⊥

abbrev pub AllGuest : List Event → Type 0
AllGuest [] = Unit {0}
AllGuest (e ∷ es) = IsGuest e × AllGuest es

AllGuest-append : (es fs : List Event) → AllGuest es → AllGuest fs → AllGuest (es ++ fs)
AllGuest-append [] fs p q = q
AllGuest-append (e ∷ es) fs p q = (p.0, AllGuest-append es fs p.1 q)

pub run_events-append :
    (u : Uart) (es fs : List Event) → run_events u (es ++ fs) ≡ run_events (run_events u es) fs
unfolding run_events
run_events-append u [] fs = refl
run_events-append u (e ∷ es) fs = run_events-append (happen u e) es fs

-- The guest alone brings the port from one state to the other.
pub record Touches (u u' : Uart) : Type 0 where
  pub events : List Event
  pub guest : AllGuest events
  pub leads : run_events u events ≡ u'

pub Touches-none : (u : Uart) → Touches u u
unfolding run_events
Touches-none u = record { events = []; guest = tt; leads = refl }

pub Touches-trans : {u v w : Uart} → Touches u v → Touches v w → Touches u w
Touches-trans {u} p q = record {
  events = p.events ++ q.events;
  guest = AllGuest-append p.events q.events p.guest q.guest;
  leads = run_events-append u p.events q.events ∙ ap (λ v. run_events v q.events) p.leads ∙ q.leads;
}

pub load8-Touches :
    (u : Uart) (address : ℕ) {l : Loaded Uart}
    → address < 2 ^ 32
    → load8 u address ≡ ok l
    → Touches u l.state
unfolding run_events
load8-Touches u address h e = record {
  events = guest_load address ∷ [];
  guest = (h, tt);
  leads = ap (loaded_state u) e;
}

pub store8-Touches :
    (u : Uart) (address value : ℕ) {s : Stored Uart}
    → address < 2 ^ 32
    → value < 2 ^ 8
    → store8 u address value ≡ ok s
    → Touches u s.state
unfolding run_events
store8-Touches u address value h k e = record {
  events = guest_store address value ∷ [];
  guest = ((h, k), tt);
  leads = ap (stored_state u) e;
}

pub AllWords-guest : (es : List Event) → AllGuest es → AllWords es
AllWords-guest [] h = tt
AllWords-guest (guest_load a ∷ es) h = (h.0, AllWords-guest es h.1)
AllWords-guest (guest_store a v ∷ es) h = (h.0.0, AllWords-guest es h.1)
AllWords-guest (key c ∷ es) h = absurd h.0
AllWords-guest (host_read ∷ es) h = absurd h.0

-- The guest neither types nor prints.
pub guest-silent :
    (u : Uart) (es : List Event)
    → AllGuest es
    → ((all_traffic u es).pressed ≡ []) × ((all_traffic u es).printed ≡ [])
unfolding all_traffic
guest-silent u [] h = (refl, refl)
guest-silent u (guest_load a ∷ es) h = guest-silent (happen u (guest_load a)) es h.1
guest-silent u (guest_store a v ∷ es) h = guest-silent (happen u (guest_store a v)) es h.1
guest-silent u (key c ∷ es) h = absurd h.0
guest-silent u (host_read ∷ es) h = absurd h.0
