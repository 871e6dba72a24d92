-- ===== src/Isa/Accesses.antt =====
-- The loads and stores of a program, as simctty/cpu.cc runs them, do what the reference says.
use simctty.Prelude.{
  ℕ, ◌+◌, ◌%◌, ◌^◌, ◌≤◌, ◌<◌, ◌≡◌, refl, ◌∙◌, arith, Result, ◌>>=◌, if◌then◌else◌, Ensures, has,
  Bool, true, false,
}
use simctty.Prelude.Int.{int8, uint32-lt}
use simctty.Ram.{max_ram_address}
use simctty.Ram.Memory.{Memory}
use simctty.Ram.Guest.{guest}
use simctty.Uart
use simctty.Uart.{Uart, min_uart_address, max_uart_address}
use simctty.Uart.Total.{store8-quiet}
use simctty.Bus.{Bus}
use simctty.Mmu.{Mmu}
use simctty.Mmu.Physical.{
  IsOff, Reads, Leaves, load8-Reads, load16-Reads, load32-Reads, store8-Leaves, store16-Leaves,
  store32-Leaves, store8-port,
}
use simctty.Cpu.State.{Cpu, k_sm}
use simctty.Cpu.Control.{increment_pc}
use simctty.Cpu.Alu.Width.{extend16-lt}
use simctty.Isa.Instruction.{
  LoadKind, load_word, load_byte, load_signed_byte, load_half, load_signed_half, StoreKind,
  store_word, store_byte, store_half, load_from, store_to,
}
use simctty.Isa.Meaning.{load_access, load_value, store_access, store_value, execute_on}
use simctty.Isa.Reference.{
  View, advance, with_reg, load_width, value_at, store_width, stored_at, address_of, is_access,
  is_port, send, Progress, goes_on,
}
use simctty.Isa.Shows.{Shows, increment_pc-Shows}
use simctty.Isa.Performs.{still, Performs, write-Performs}

load_access-Reads :
    (kind : LoadKind) (m : Mmu) (b : Bus) (a : ℕ) (is_sm : Bool)
    → IsOff m
    → a ≤ max_ram_address
    → a % load_width kind ≡ 0
    → Reads b (load_access kind m b a is_sm) (value_at kind (guest b.ram) a)
load_access-Reads load_word m b a sm off near e = load32-Reads m b a sm off near e
load_access-Reads load_byte m b a sm off near e = load8-Reads m b a sm off near
load_access-Reads load_signed_byte m b a sm off near e = load8-Reads m b a sm off near
load_access-Reads load_half m b a sm off near e = load16-Reads m b a sm off near e
load_access-Reads load_signed_half m b a sm off near e = load16-Reads m b a sm off near e

store_access-Leaves :
    (kind : StoreKind) (m : Mmu) (b : Bus) (a v : ℕ) (is_sm : Bool)
    → IsOff m
    → a ≤ max_ram_address
    → a % store_width kind ≡ 0
    → Leaves m b (store_access kind m b a v is_sm) (stored_at kind (guest b.ram) a v)
store_access-Leaves store_word m b a v sm off near e = store32-Leaves m b a sm off near v e
store_access-Leaves store_byte m b a v sm off near e = store8-Leaves m b a sm off near v
store_access-Leaves store_half m b a v sm off near e = store16-Leaves m b a sm off near v e

module _ (m n : Memory) (same : (x : ℕ) → m x ≡ n x) (a : ℕ) where
  value_at-same : (kind : LoadKind) → value_at kind m a ≡ value_at kind n a
  value_at-same load_word = rw (same a, same (a + 1), same (a + 2), same (a + 3)) refl
  value_at-same load_byte = same a
  value_at-same load_signed_byte = same a
  value_at-same load_half = rw (same a, same (a + 1)) refl
  value_at-same load_signed_half = rw (same a, same (a + 1)) refl

  stored_at-same : (kind : StoreKind) (v x : ℕ) → stored_at kind m a v x ≡ stored_at kind n a v x
  stored_at-same store_word v x = ground (arith, same x)
  stored_at-same store_byte v x = ground (arith, same x)
  stored_at-same store_half v x = ground (arith, same x)

module _ (m : Memory) (bytes : (x : ℕ) → m x < 2 ^ 8) (a : ℕ) where
  value_at-lt : (kind : LoadKind) → load_value kind (value_at kind m a) < 2 ^ 32
  value_at-lt load_word = omega (arith, bytes a, bytes (a + 1), bytes (a + 2), bytes (a + 3))
  value_at-lt load_byte = omega (arith, bytes a)
  value_at-lt load_signed_byte = uint32-lt (int8 (m a))
  value_at-lt load_half = omega (arith, bytes a, bytes (a + 1))
  value_at-lt load_signed_half = extend16-lt _

  stored_at-lt : (kind : StoreKind) (v x : ℕ) → stored_at kind m a (store_value kind v) x < 2 ^ 8
  stored_at-lt store_word v x = ground (arith, bytes x)
  stored_at-lt store_byte v x = ground (arith, bytes x)
  stored_at-lt store_half v x = ground (arith, bytes x)

  stored_at-low : (kind : StoreKind) (v x : ℕ) → x < a → stored_at kind m a v x ≡ m x
  stored_at-low store_word v x h = ground arith
  stored_at-low store_byte v x h = ground arith
  stored_at-low store_half v x h = ground arith

is_access-parts :
    (width floor a : ℕ)
    → is_access width floor a ≡ true
    → (a % width ≡ 0) × (floor ≤ a) × (a ≤ max_ram_address)
is_access-parts width floor a e = ground arith

is_port-parts : (a : ℕ) → is_port a ≡ true → (min_uart_address ≤ a) × (a ≤ max_uart_address)
is_port-parts a e = ground arith

pub Ensures-where :
    (P : Progress → Type 0) (test : Bool) (r r' : Result Progress)
    → (test ≡ true → Ensures P r)
    → Ensures P r'
    → Ensures P (if test then r else r')
Ensures-where P true r r' h h' = h refl
Ensures-where P false r r' h h' = h'

module _ (b : Bus) (c : Cpu) (v : View) (floor : ℕ) (off : IsOff c.dmmu) (s : Shows b c v) where
  moved : (m : Mmu) → Shows b (record c { dmmu = m }) v
  moved m = record {
    pc = s.pc;
    next = s.next;
    regs = s.regs;
    words = s.words;
    flag = s.flag;
    supervisor = s.supervisor;
    memory = s.memory;
    bytes = s.bytes;
    port = s.port;
  }

  pub load-Performs :
      (kind : LoadKind) (d a i : ℕ)
      → a < 32
      → is_access (load_width kind) 0 (address_of v a i) ≡ true
      → Performs b c v floor (execute_on b c (load_from kind d a i)) (
          still
            (advance (with_reg v d (load_value kind (value_at kind v.memory (address_of v a i))))))
  unfolding execute_on
  load-Performs kind d a i h e =
      let x = address_of v a i in
      let (aligned, above, near) = is_access-parts (load_width kind) 0 x e in
      let r = load_access-Reads kind c.dmmu b x (has c.sr k_sm) off near aligned in
      let same = value_at-same (guest b.ram) v.memory s.memory x kind in
      let w =
        write-Performs b (record c { dmmu = r.mmu }) v floor r.off (moved r.mmu) d
          (load_value kind (value_at kind v.memory x)) (value_at-lt v.memory s.bytes x kind) in
      record {
        after = w.after;
        bus = w.bus;
        ends = rw (s.regs a h, r.returns, same) w.ends;
        shows = w.shows;
        kept = record {
          immu = w.kept.immu;
          dmmu = w.kept.dmmu;
          ttmr = w.kept.ttmr;
          page = w.kept.page;
          phy = w.kept.phy;
        };
        low = w.low;
      }

  pub store-Performs :
      (kind : StoreKind) (a r i : ℕ)
      → a < 32
      → r < 32
      → is_access (store_width kind) floor (address_of v a i) ≡ true
      → Performs b c v floor (execute_on b c (store_to kind a r i)) (
          still (
            advance (record v {
              memory = stored_at kind v.memory (address_of v a i) (store_value kind (v.reg r));
            })))
  unfolding execute_on increment_pc
  store-Performs kind a r i h k e =
      let x = address_of v a i in
      let value = store_value kind (v.reg r) in
      let (aligned, above, near) = is_access-parts (store_width kind) floor x e in
      let w = store_access-Leaves kind c.dmmu b x value (has c.sr k_sm) off near aligned in
      let v' : View = record v { memory = stored_at kind v.memory x value } in
      let t : Shows (record b { ram = w.ram }) c v' = record {
        pc = s.pc;
        next = s.next;
        regs = s.regs;
        words = s.words;
        flag = s.flag;
        supervisor = s.supervisor;
        memory = λ y. w.holds y ∙ stored_at-same (guest b.ram) v.memory s.memory x kind value y;
        bytes = stored_at-lt v.memory s.bytes x kind (v.reg r);
        port = s.port;
      } in
      record {
        after = increment_pc c;
        bus = record b { ram = w.ram };
        ends = rw (s.regs a h, s.regs r k, w.returns) refl;
        shows = increment_pc-Shows _ c v' t;
        kept = record { immu = refl; dmmu = off; ttmr = refl; page = refl; phy = refl };
        low = λ y p. stored_at-low v.memory s.bytes x kind value y (omega (arith, above));
      }

  port-Performs :
      (a r i : ℕ)
      → a < 32
      → r < 32
      → is_port (address_of v a i) ≡ true
      → Ensures (Performs b c v floor (execute_on b c (store_to store_byte a r i))) (
          Uart.store8 v.port (address_of v a i) (store_value store_byte (v.reg r)) >>= λ s'.
          goes_on (advance (record v { port = s'.state })))
  unfolding execute_on increment_pc
  port-Performs a r i h k e =
      let x = address_of v a i in
      let value = store_value store_byte (v.reg r) in
      let (low, high) = is_port-parts x e in
      let (u, quiet) = store8-quiet v.port x value in
      let sent = store8-port c.dmmu b x value (has c.sr k_sm) off low high (rw s.port quiet) in
      let v' : View = record v { port = u } in
      let t : Shows (record b { uart = u }) c v' = record {
        pc = s.pc;
        next = s.next;
        regs = s.regs;
        words = s.words;
        flag = s.flag;
        supervisor = s.supervisor;
        memory = s.memory;
        bytes = s.bytes;
        port = refl;
      } in
      rw quiet (record {
        after = increment_pc c;
        bus = record b { uart = u };
        ends = rw (s.regs a h, s.regs r k, sent) refl;
        shows = increment_pc-Shows _ c v' t;
        kept = record { immu = refl; dmmu = off; ttmr = refl; page = refl; phy = refl };
        low = λ y p. refl;
      })

  pub send-Performs :
      (kind : StoreKind) (a r i : ℕ)
      → a < 32
      → r < 32
      → Ensures
          (Performs b c v floor (execute_on b c (store_to kind a r i)))
          (send kind v (address_of v a i) (store_value kind (v.reg r)))
  send-Performs store_word a r i h k = tt
  send-Performs store_half a r i h k = tt
  send-Performs store_byte a r i h k =
      Ensures-where _ (is_port (address_of v a i)) _ _ (port-Performs a r i h k) tt
