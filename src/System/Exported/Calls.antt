-- ===== src/System/Exported/Calls.antt =====
-- What the calls of a page to the functions of simctty/emscripten.cc come to.
use simctty.Prelude.{ℕ, ◌^◌, ◌<◌, ◌≡◌, refl, arith, true, List, [], ◌∷◌, ◌++◌, Returns, Returns-ok}
use simctty.Uart.{keypress, read, can_read}
use simctty.Uart.Fifo.{Traffic, no_traffic, join, Conserves, Conserves-none}
use simctty.Uart.Valid.{AllBytes, AllBytes-append}
use simctty.Cpu.State.{Machine}
use simctty.Cpu.Safety.Dispatch.{IsSound}
use simctty.System.GuestRun.{run-GuestRun}
use simctty.System.Exported.{sys_run, sys_keypress, sys_can_read, sys_read}
use simctty.System.Exported.Page.{
  PageCall, press, go, show, shown, call, calls, keys_of, all_keys, is_tame_call, tame_after,
  is_tame_calls, holding, pressing, Called, key_pressed, went, nothing_waits, byte_waits, Answered,
  none_left, and_then, Answered-Conserves, Answered-pressed,
}

-- The result of a call.
record Answers (m : Machine) (c : PageCall) (r : List ℕ × Machine) : Type 0 where
  pub traffic : Traffic
  pub sound : IsSound r.1
  pub does : Called m c traffic r.1
  pub got : r.0 ≡ traffic.printed

press-IsSound : (m : Machine) (k : ℕ) → IsSound m → k < 2 ^ 8 → IsSound (pressing m k)
press-IsSound m k s h = record {
  cpu = s.cpu;
  bus = record {
    ram = s.bus.ram;
    uart = record {
      keys = AllBytes-append m.bus.uart.keypress_fifo (k ∷ []) s.bus.uart.keys (h, tt);
      display = s.bus.uart.display;
      ier = s.bus.uart.ier;
      lcr = s.bus.uart.lcr;
      mcr = s.bus.uart.mcr;
      dll = s.bus.uart.dll;
      dlm = s.bus.uart.dlm;
    };
  };
}

shown-Answers :
    (m : Machine) (bytes : List ℕ)
    → IsSound (holding m bytes)
    → Answers (holding m bytes) show (shown (holding m bytes))
unfolding shown sys_can_read sys_read read can_read
shown-Answers m [] s = record { traffic = _; sound = s; does = nothing_waits refl; got = refl }
shown-Answers m (x ∷ xs) s = record {
  traffic = _;
  sound = record {
    cpu = s.cpu;
    bus = record {
      ram = s.bus.ram;
      uart = record {
        keys = s.bus.uart.keys;
        display = s.bus.uart.display.1;
        ier = s.bus.uart.ier;
        lcr = s.bus.uart.lcr;
        mcr = s.bus.uart.mcr;
        dll = s.bus.uart.dll;
        dlm = s.bus.uart.dlm;
      };
    };
  };
  does = byte_waits x xs refl;
  got = refl;
}

call-Answers :
    (m : Machine) (c : PageCall)
    → IsSound m
    → AllBytes (keys_of c)
    → is_tame_call m c ≡ true
    → Returns (Answers m c) (call m c)
unfolding call sys_run sys_keypress keypress
call-Answers m (press k) s h tame =
    Returns-ok (Answers m (press k)) _
      (record { traffic = _; sound = press-IsSound m k s h.0; does = key_pressed k; got = refl })
call-Answers m go s h tame =
    let (r, received, sent, g) = run-GuestRun m s tame in
    rw g.returns (
      Returns-ok (Answers m go) _
        (record { traffic = _; sound = g.sound; does = went r received sent g; got = refl }))
call-Answers m show s h tame =
    Returns-ok (Answers m show) _ (shown-Answers m m.bus.uart.display_fifo s)

AllBytes-parts : (xs ys : List ℕ) → AllBytes (xs ++ ys) → AllBytes xs × AllBytes ys
AllBytes-parts [] ys h = (tt, h)
AllBytes-parts (x ∷ xs) ys h = let (p, q) = AllBytes-parts xs ys h.1 in ((h.0, p), q)

tame_parts :
    (c : PageCall) (cs : List PageCall) (m : Machine)
    → is_tame_calls (c ∷ cs) m ≡ true
    → (is_tame_call m c ≡ true) × (tame_after (is_tame_calls cs) (call m c) ≡ true)
unfolding is_tame_calls
tame_parts c cs m e = ground arith

-- What calls come to: the bytes that the page got are those of the traffic.
pub record IsAnswered (cs : List PageCall) (m : Machine) (r : List ℕ × Machine) : Type 0 where
  pub traffic : Traffic
  pub sound : IsSound r.1
  pub goes : Answered cs m traffic r.1
  pub got : r.0 ≡ traffic.printed
  pub typed : traffic.pressed ≡ all_keys cs
  pub conserves : Conserves m.bus.uart traffic r.1.bus.uart

then-IsAnswered :
    (m : Machine) (c : PageCall) (cs : List PageCall) (r r' : List ℕ × Machine)
    → Answers m c r
    → IsAnswered cs r.1 r'
    → IsAnswered (c ∷ cs) m (r.0 ++ r'.0, r'.1)
then-IsAnswered m c cs r r' a b =
    let goes = and_then a.does b.goes in
    record {
      traffic = join a.traffic b.traffic;
      sound = b.sound;
      goes = goes;
      got = rw (a.got, b.got) refl;
      typed = Answered-pressed goes;
      conserves = Answered-Conserves goes;
    }

-- Take a machine in good order, and any sequence of calls of sys_keypress with bytes, sys_run and
-- sys_read, the last only where sys_can_read is true, whose runs of the processor are tame. The
-- calls return, leave the machine in good order, and are the sequence of these steps: a key is
-- queued behind those that wait; a run is one of 20000 cycles; and a read gives the page the
-- oldest byte that waits and removes it, or nothing where none waits. Over all calls, the keys
-- that the guest took from the queue in the runs and then those that wait are those that waited at
-- first and then those of the calls; the bytes that the page got and then those that wait are
-- those that waited and then those that the runs added.
pub calls-IsAnswered :
    (cs : List PageCall) (m : Machine)
    → IsSound m
    → AllBytes (all_keys cs)
    → is_tame_calls cs m ≡ true
    → Returns (IsAnswered cs m) (calls cs m)
unfolding calls
calls-IsAnswered [] m s h tame = Returns-ok (IsAnswered [] m) _ (record {
  traffic = no_traffic;
  sound = s;
  goes = none_left;
  got = refl;
  typed = refl;
  conserves = Conserves-none m.bus.uart;
})
calls-IsAnswered (c ∷ cs) m s h tame =
    let parts = tame_parts c cs m tame in
    let (p, q) = AllBytes-parts (keys_of c) (all_keys cs) h in
    let r = call-Answers m c s p parts.0 in
    let t = calls-IsAnswered cs r.value.1 r.holds.sound q (rw r.returns at parts.1) in
    rw (r.returns, t.returns)
      (Returns-ok (IsAnswered (c ∷ cs) m) _
        (then-IsAnswered m c cs r.value t.value r.holds t.holds))
