-- ===== src/Isa/Performs.antt =====
-- Each instruction, as simctty/cpu.cc runs it, does what the reference says.
use simctty.Prelude.{
  ℕ, ◌*◌, ◌^◌, ◌<◌, ◌≡◌, refl, ap, arith, Bool, true, false, not, sym, u32, add32, if◌then◌else◌,
  Result, ok, fault, exited, has, ◌&&◌, ◌>>=◌, Ensures,
}
use mathlib.Core.Path.{subst}
use simctty.Ram.Memory.{Memory}
use simctty.Mmu.Physical.{IsOff}
use simctty.Bus.{Bus}
use simctty.Cpu.State.{Cpu, k_sm}
use simctty.Cpu.Control.{increment_pc, jump, set_compare_flag}
use simctty.Cpu.Exec.{Ran, ran, stop, put, write_reg}
use simctty.Isa.Instruction.{BranchKind, plain, linked, on_clear, on_set, branch_by, jump_to}
use simctty.Isa.Meaning.{links, linking, execute_on}
use simctty.Isa.Reference.{
  View, Progress, move_to, advance, with_reg, with_flag, after_jump, linking_view, follows, goes_on,
  stops_at,
}
use simctty.Isa.Shows.{
  Shows, Kept, write_reg-Shows, increment_pc-Shows, jump-Shows, set_compare_flag-Shows,
}
use simctty.Cpu.Alu.Width.{IsWord}

abbrev pub still : View → Progress
still v = record { running = true; view = v }

-- The result of a round, for what the reference says. The bytes below `floor` stay.
pub record Performs (b : Bus) (c : Cpu) (v : View) (floor : ℕ) (result : Result Ran) (p : Progress)
    : Type 0 where
  pub after : Cpu
  pub bus : Bus
  pub ends :
      result ≡ ok (record { running = p.running; machine = record { cpu = after; bus = bus } })
  pub shows : Shows bus after p.view
  pub kept : Kept c after
  pub low : (x : ℕ) → x < floor → p.view.memory x ≡ v.memory x

pub Ensures-unless :
    (P : Progress → Type 0) (test : Bool) (r : Result Progress)
    → (test ≡ false → Ensures P r)
    → Ensures P (if test then fault else r)
Ensures-unless P true r h = tt
Ensures-unless P false r h = h refl

linking-Shows :
    (with_link : Bool) (b : Bus) (c : Cpu) (v : View)
    → Shows b c v
    → Shows b (linking with_link c) (linking_view with_link v)
linking-Shows true b c v s =
    subst (λ p. Shows b (write_reg c 9 (add32 c.pc 8)) (with_reg v 9 (add32 p 8))) s.pc
      (write_reg-Shows b c v s 9 (add32 c.pc 8) (omega arith))
linking-Shows false b c v s = s

linking-after :
    (with_link : Bool) (v : View)
    → after_jump v ≡ false
    → after_jump (linking_view with_link v) ≡ false
linking-after true v e = e
linking-after false v e = e

linking-memory : (with_link : Bool) (v : View) → (linking_view with_link v).memory ≡ v.memory
linking-memory true v = refl
linking-memory false v = refl

linking-Kept : (with_link : Bool) (c : Cpu) → IsOff c.dmmu → Kept c (linking with_link c)
linking-Kept true c off = record { immu = refl; dmmu = off; ttmr = refl; page = refl; phy = refl }
linking-Kept false c off = record { immu = refl; dmmu = off; ttmr = refl; page = refl; phy = refl }

module _ (b : Bus) (c : Cpu) (v : View) (floor : ℕ) (off : IsOff c.dmmu) (s : Shows b c v) where
  pub write-Performs :
      (d x : ℕ)
      → x < 2 ^ 32
      → Performs b c v floor
          (ran b (increment_pc (write_reg c d x)))
          (still (advance (with_reg v d x)))
  unfolding increment_pc
  write-Performs d x h = record {
    after = increment_pc (write_reg c d x);
    bus = b;
    ends = refl;
    shows = increment_pc-Shows _ _ _ (write_reg-Shows b c v s d x h);
    kept = record { immu = refl; dmmu = off; ttmr = refl; page = refl; phy = refl };
    low = λ x p. refl;
  }

  pub advance-Performs :
      (running : Bool)
      → Performs b c v floor
          (ok (record { running = running; machine = record { cpu = increment_pc c; bus = b } }))
          (record { running = running; view = advance v })
  unfolding increment_pc
  advance-Performs running = record {
    after = increment_pc c;
    bus = b;
    ends = refl;
    shows = increment_pc-Shows b c v s;
    kept = record { immu = refl; dmmu = off; ttmr = refl; page = refl; phy = refl };
    low = λ x p. refl;
  }

  pub flag-Performs :
      (t : Bool)
      → Performs b c v floor
          (ran b (increment_pc (set_compare_flag c t)))
          (still (advance (with_flag v t)))
  unfolding increment_pc
  flag-Performs t = record {
    after = increment_pc (set_compare_flag c t);
    bus = b;
    ends = refl;
    shows = increment_pc-Shows _ _ _ (set_compare_flag-Shows b c v s t);
    kept = record { immu = refl; dmmu = off; ttmr = refl; page = refl; phy = refl };
    low = λ x p. refl;
  }

  jump-Performs :
      (with_link : Bool) (target : ℕ)
      → after_jump v ≡ false
      → Performs b c v floor
          (ran b (jump (linking with_link c) target))
          (still (move_to (linking_view with_link v) target))
  unfolding jump
  jump-Performs with_link target e =
      let k = linking-Kept with_link c off in
      record {
        after = jump (linking with_link c) target;
        bus = b;
        ends = refl;
        shows =
            jump-Shows _ _ _ (linking-Shows with_link b c v s) target (linking-after with_link v e);
        kept = record { immu = k.immu; dmmu = k.dmmu; ttmr = k.ttmr; page = k.page; phy = k.phy };
        low = λ x p. ap (λ (m : Memory). m x) (linking-memory with_link v);
      }

  displaced-Performs :
      (with_link : Bool) (n : ℕ)
      → after_jump v ≡ false
      → Performs b c v floor
          (ran b (jump (linking with_link c) (add32 c.pc (u32 (n * 4)))))
          (still (move_to (linking_view with_link v) (add32 v.pc (u32 (n * 4)))))
  displaced-Performs with_link n e =
      subst
        (λ p.
          Performs b c v floor (ran b (jump (linking with_link c) (add32 c.pc (u32 (n * 4)))))
            (still (move_to (linking_view with_link v) (add32 p (u32 (n * 4))))))
        s.pc (jump-Performs with_link (add32 c.pc (u32 (n * 4))) e)

  conditional-Performs :
      (taken : Bool) (n : ℕ)
      → after_jump v ≡ false
      → Performs b c v floor
          (ran b (if taken then jump c (add32 c.pc (u32 (n * 4))) else increment_pc c))
          (still (if taken then move_to v (add32 v.pc (u32 (n * 4))) else advance v))
  conditional-Performs true n e = displaced-Performs false n e
  conditional-Performs false n e = advance-Performs true

  pub branch-Performs :
      (kind : BranchKind) (n : ℕ)
      → after_jump v ≡ false
      → Performs b c v floor (execute_on b c (branch_by kind n)) (record {
        running = true;
        view =
            let v' = linking_view (links kind) v in
            if follows kind v then move_to v' (add32 v.pc (u32 (n * 4))) else advance v';
      })
  unfolding execute_on
  branch-Performs plain n e = displaced-Performs false n e
  branch-Performs linked n e = displaced-Performs true n e
  branch-Performs on_clear n e = rw s.flag (conditional-Performs (not v.flag) n e)
  branch-Performs on_set n e = rw s.flag (conditional-Performs v.flag n e)

  pub jump_to-Performs :
      (with_link : Bool) (r : ℕ)
      → r < 32
      → after_jump v ≡ false
      → Performs b c v floor
          (execute_on b c (jump_to with_link r))
          (still (move_to (linking_view with_link v) ((linking_view with_link v).reg r)))
  unfolding execute_on
  jump_to-Performs with_link r h e =
      rw (sym ((linking-Shows with_link b c v s).regs r h)) (jump-Performs with_link _ e)

  stop-Performs : Performs b c v floor (stop b c) (record { running = false; view = v })
  stop-Performs = record {
    after = c;
    bus = b;
    ends = refl;
    shows = s;
    kept = record { immu = refl; dmmu = off; ttmr = refl; page = refl; phy = refl };
    low = λ x p. refl;
  }

  idle-in :
      (stops : Bool)
      → Ensures
          (Performs b c v floor (if true && stops then stop b c else ran b (increment_pc c)))
          (if stops then stops_at v else goes_on (advance v))
  idle-in true = stop-Performs
  idle-in false = advance-Performs true

  -- l.nop stops a run in supervisor mode.
  pub idle-Performs :
      (stops : Bool)
      → Ensures
          (Performs b c v floor
            (if has c.sr k_sm && stops then stop b c else ran b (increment_pc c)))
          (if stops then stops_at v else goes_on (advance v))
  idle-Performs stops = rw s.supervisor (idle-in stops)

  pub computed-Performs :
      (d : ℕ) (r : Result ℕ)
      → Ensures IsWord r
      → Ensures
          (Performs b c v floor (r >>= λ x. put b c d x))
          (r >>= λ x. goes_on (advance (with_reg v d x)))
  computed-Performs d (ok x) h = write-Performs d x h
  computed-Performs d exited h = tt
  computed-Performs d fault h = tt
