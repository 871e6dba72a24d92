-- ===== src/System/Exported/Page.antt =====
-- A page that calls the functions of simctty/emscripten.cc in any order, and reads where there is
-- something to read.
use simctty.Prelude.{
  ℕ, ◌≡◌, refl, sym, ◌∙◌, Bool, true, false, ◌&&◌, List, [], ◌∷◌, ◌++◌, if◌then◌else◌, Result, ok,
  ◌>>=◌,
}
use mathlib.Core.List.{append-nil}
use simctty.Uart.Fifo.{Traffic, no_traffic, join, Conserves, Conserves-none, Conserves-join}
use simctty.Cpu.State.{Machine}
use simctty.Cpu.Control.{check_interrupts}
use simctty.Cpu.Safety.{is_tame_from}
use simctty.System.{cycles_per_iteration}
use simctty.Cpu.Exec.{Ran}
use simctty.System.GuestRun.{GuestRun, guest_traffic}
use simctty.System.Exported.{sys_run, sys_keypress, sys_can_read, sys_read}

pub data PageCall : Type 0 where
  press : ℕ → PageCall
  go show : PageCall

-- A page reads behind a test.
unfoldable pub shown : Machine → List ℕ × Machine
shown sys =
    if sys_can_read sys then (let (byte, sys') = sys_read sys in (byte ∷ [], sys')) else ([], sys)

unfoldable pub call : Machine → PageCall → Result (List ℕ × Machine)
unfolding shown
call sys (press k) = ok ([], sys_keypress sys k)
call sys go = sys_run sys >>= λ r. ok ([], r.machine)
call sys show = ok (shown sys)

-- The bytes that a sequence of calls gives the page, and the system after it.
unfoldable pub calls : List PageCall → Machine → Result (List ℕ × Machine)
unfolding call
calls [] sys = ok ([], sys)
calls (c ∷ cs) sys = call sys c >>= λ r. (calls cs r.1 >>= λ rest. ok (r.0 ++ rest.0, rest.1))

abbrev pub keys_of : PageCall → List ℕ
keys_of (press k) = k ∷ []
keys_of _ = []

abbrev pub all_keys : List PageCall → List ℕ
all_keys [] = []
all_keys (c ∷ cs) = keys_of c ++ all_keys cs

-- The runs of the processor are tame.
abbrev pub is_tame_call : Machine → PageCall → Bool
is_tame_call sys go = is_tame_from cycles_per_iteration (check_interrupts sys)
is_tame_call sys _ = true

abbrev pub tame_after : (Machine → Bool) → Result (List ℕ × Machine) → Bool
tame_after rest (ok r) = rest r.1
tame_after rest _ = false

unfoldable pub is_tame_calls : List PageCall → Machine → Bool
unfolding call
is_tame_calls [] sys = true
is_tame_calls (c ∷ cs) sys = is_tame_call sys c && tame_after (is_tame_calls cs) (call sys c)

-- A system whose port holds the given bytes for the page.
abbrev pub holding : Machine → List ℕ → Machine
holding m bytes = record m {
  bus = record (m.bus) { uart = record (m.bus.uart) { display_fifo = bytes } };
}

-- A system with one more key.
abbrev pub pressing : Machine → ℕ → Machine
pressing m k = record m {
  bus = record (m.bus) {
    uart = record (m.bus.uart) { keypress_fifo = m.bus.uart.keypress_fifo ++ k ∷ [] };
  };
}

-- What a call does to the system, and the traffic of its port. A read gives the oldest byte that
-- waits, and where none waits it gives nothing.
pub data Called (m : Machine) : PageCall → Traffic → Machine → Type 0 where
  key_pressed : (k : ℕ) → Called m (press k) (record no_traffic { pressed = k ∷ [] }) (pressing m k)
  went :
      (r : Ran) (received sent : List ℕ)
      → GuestRun m r received sent
      → Called m go (guest_traffic received sent) r.machine
  nothing_waits : m.bus.uart.display_fifo ≡ [] → Called m show no_traffic m
  byte_waits :
      (x : ℕ) (xs : List ℕ)
      → m.bus.uart.display_fifo ≡ x ∷ xs
      → Called m show (record no_traffic { printed = x ∷ [] }) (holding m xs)

-- The calls one after the other.
pub data Answered : List PageCall → Machine → Traffic → Machine → Type 0 where
  none_left : {m : Machine} → Answered [] m no_traffic m
  and_then :
      {c : PageCall} {cs : List PageCall} {m m' m'' : Machine} {t t' : Traffic}
      → Called m c t m'
      → Answered cs m' t' m''
      → Answered (c ∷ cs) m (join t t') m''

Called-Conserves :
    {m : Machine} {c : PageCall} {t : Traffic} {m' : Machine}
    → Called m c t m'
    → Conserves m.bus.uart t m'.bus.uart
Called-Conserves {m} (key_pressed k) = (refl, sym (append-nil m.bus.uart.display_fifo))
Called-Conserves {m} (went r received sent g) =
    (g.keys ∙ sym (append-nil m.bus.uart.keypress_fifo), g.bytes)
Called-Conserves {m} (nothing_waits e) = Conserves-none m.bus.uart
Called-Conserves {m} (byte_waits x xs e) =
    (sym (append-nil m.bus.uart.keypress_fifo), sym e ∙ sym (append-nil m.bus.uart.display_fifo))

-- Over the calls neither queue loses, repeats or reorders anything.
pub Answered-Conserves :
    {cs : List PageCall} {m : Machine} {t : Traffic} {m' : Machine}
    → Answered cs m t m'
    → Conserves m.bus.uart t m'.bus.uart
Answered-Conserves (none_left {m}) = Conserves-none m.bus.uart
Answered-Conserves (and_then {m} {m'} {m''} {t} {t'} c later) =
    Conserves-join m.bus.uart m'.bus.uart m''.bus.uart t t' (Called-Conserves c)
      (Answered-Conserves later)

Called-pressed :
    {m : Machine} {c : PageCall} {t : Traffic} {m' : Machine}
    → Called m c t m'
    → t.pressed ≡ keys_of c
Called-pressed (key_pressed k) = refl
Called-pressed (went r received sent g) = refl
Called-pressed (nothing_waits e) = refl
Called-pressed (byte_waits x xs e) = refl

pub Answered-pressed :
    {cs : List PageCall} {m : Machine} {t : Traffic} {m' : Machine}
    → Answered cs m t m'
    → t.pressed ≡ all_keys cs
Answered-pressed none_left = refl
Answered-pressed (and_then {cs} c later) = rw (Called-pressed c, Answered-pressed later) refl
