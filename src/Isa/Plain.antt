-- ===== src/Isa/Plain.antt =====
-- A processor of simctty/cpu.cc whose fetches find the words of the memory.
use simctty.Prelude.{
  ◌+◌, ◌%◌, ◌≤◌, ◌≡◌, ◌⊎◌, inl, inr, refl, arith, bit_and, Bool-cases, ◌==◌, true, false, u32, ok,
}
use simctty.Prelude.Bits.{page_base, page_offset}
use simctty.Ram.{max_ram_address}
use simctty.Ram.Memory
use simctty.Ram.Guest.{guest, read32-guest}
use simctty.Ram.Memory.{Memory}
use simctty.Mmu.Physical.{IsOff}
use simctty.Bus.{Bus}
use simctty.Cpu.State.{Cpu}
use simctty.Cpu.Run.{fetched, fetch, fetch_raw, tick, tick_matches}
use simctty.Isa.Reference.{View}
use simctty.Isa.Shows.{Shows, Kept}
use simctty.Isa.Step.{keeping, fetch-unkept}

-- Translation is off, a page that is kept leads to itself, and the timer does not run.
pub record IsPlain (c : Cpu) : Type 0 where
  pub untranslated : c.immu.is_enabled ≡ false
  pub page : (c.authed_page ≡ 1) ⊎ (c.authed_phy ≡ c.authed_page)
  pub data_off : IsOff c.dmmu
  pub no_timer : c.ttmr ≡ 0

pub Kept-IsPlain : (c c' : Cpu) → Kept c c' → IsPlain c → IsPlain c'
Kept-IsPlain c c' k p = record {
  untranslated = rw k.immu p.untranslated;
  page = rw (k.page, k.phy) p.page;
  data_off = k.dmmu;
  no_timer = rw k.ttmr p.no_timer;
}

abbrev counted : Cpu → Cpu
counted c = record c { ttcr = u32 (c.ttcr + 1) }

tick-counted : (c : Cpu) → c.ttmr ≡ 0 → tick c ≡ counted c
unfolding tick tick_matches
tick-counted c e = ground arith

fetch-kept :
    (b : Bus) (c : Cpu)
    → (bit_and c.pc 0xffffe000 == c.authed_page) ≡ true
    → (c.authed_page ≡ 1) ⊎ (c.authed_phy ≡ c.authed_page)
    → c.pc % 4 ≡ 0
    → c.pc ≤ max_ram_address
    → fetch b c ≡ ok (fetched (Memory.load32 (guest b.ram) c.pc) (record { cpu = c; bus = b }))
unfolding fetch fetch_raw
fetch-kept b c kept page aligned room =
    ground (arith, page_base c.pc, page_offset c.pc, read32-guest b.ram c.pc room aligned)

-- A fetch finds the word at the program counter.
pub record Fetches (b : Bus) (c : Cpu) : Type 0 where
  pub after : Cpu
  pub ends :
      fetch b (tick c)
      ≡ ok (fetched (Memory.load32 (guest b.ram) c.pc) (record { cpu = after; bus = b }))
  pub plain : IsPlain after
  pub shows : (v : View) → Shows b c v → Shows b after v

pub fetch-Fetches :
    (b : Bus) (c : Cpu) → IsPlain c → c.pc % 4 ≡ 0 → c.pc ≤ max_ram_address → Fetches b c
fetch-Fetches b c p aligned room = elim (Bool-cases (bit_and c.pc 0xffffe000 == c.authed_page)) [
  | inl kept ↦ record {
    after = counted c;
    ends = rw (tick-counted c p.no_timer) (fetch-kept b (counted c) kept p.page aligned room);
    plain = record {
      untranslated = p.untranslated;
      page = p.page;
      data_off = p.data_off;
      no_timer = p.no_timer;
    };
    shows = λ v s. record {
      pc = s.pc;
      next = s.next;
      regs = s.regs;
      words = s.words;
      flag = s.flag;
      supervisor = s.supervisor;
      memory = s.memory;
      bytes = s.bytes;
      port = s.port;
    };
  }
  | inr unkept ↦ record {
    after = keeping (counted c);
    ends =
        rw (tick-counted c p.no_timer)
          (fetch-unkept b (counted c) unkept p.untranslated aligned room);
    plain = record {
      untranslated = p.untranslated;
      page = inr refl;
      data_off = p.data_off;
      no_timer = p.no_timer;
    };
    shows = λ v s. record {
      pc = s.pc;
      next = s.next;
      regs = s.regs;
      words = s.words;
      flag = s.flag;
      supervisor = s.supervisor;
      memory = s.memory;
      bytes = s.bytes;
      port = s.port;
    };
  }
]
