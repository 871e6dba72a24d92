-- ===== src/Cpu/Safety/Fetches.antt =====
-- The fetch of simctty/cpu.cc on a machine in good order.
use simctty.Prelude.{
  ℕ, ◌+◌, ◌%◌, ◌^◌, ◌≤◌, ◌<◌, ◌≡◌, arith, bit_and, false, ◌==◌, has, Ensures-ok, Returns,
  Returns-ok, Returns-if,
}
use simctty.Prelude.Bits.{page_base, page_offset}
use simctty.Exception.{raised}
use simctty.Ram.{max_ram_address}
use simctty.Bus.{Bus}
use simctty.Bus.Valid
use simctty.Bus.Valid.{Leads, Leads-none, Leads-trans}
use simctty.Mmu.{map_address}
use simctty.Mmu.Cache.{map_address-IsValid}
use simctty.Mmu.Safety.{map_address_place}
use simctty.Mmu.Fast.{load32-safe}
use simctty.Mmu.Bounds.{load32-Loads}
use simctty.Mmu.Bounds.Parts.{Loads, map_address_frame}
use simctty.Ram.Guest.{read32-guest}
use simctty.Cpu.State.{Cpu, k_sm}
use simctty.Cpu.Run.{Fetch, fetched, refused, fetch_raw, fetch_device, fetch_mapped, fetch}
use simctty.Cpu.Valid.{IsValid}
use simctty.Cpu.Valid.Special.{with_immu}

-- What a fetch leaves.
abbrev pub FetchKeeps : Bus → Fetch → Type 0
FetchKeeps b (fetched instruction m) = IsValid m.cpu × Leads b m.bus
FetchKeeps b (refused e m) = IsValid m.cpu × Leads b m.bus

module _ (b : Bus) (w : Valid.IsValid b) where
  fetch_raw-Returns :
      (c : Cpu)
      → IsValid c
      → c.authed_page % 8192 ≡ 0
      → c.pc % 4 ≡ 0
      → Returns (FetchKeeps b) (fetch_raw b c)
  unfolding fetch_raw
  fetch_raw-Returns c v kept aligned =
      let near = v.page kept in
      let e = page_offset c.pc in
      rw
        (read32-guest b.ram (c.authed_phy + bit_and c.pc 0x1fff) (omega (arith, e, near.1))
          (omega (arith, e, near.0)))
        (Returns-ok (FetchKeeps b) _ (v, Leads-none b w))

  fetch_device-Returns :
      (c : Cpu) → IsValid c → c.pc % 4 ≡ 0 → Returns (FetchKeeps b) (fetch_device b c)
  unfolding fetch_device
  fetch_device-Returns c v aligned =
      let sm = has c.sr k_sm in
      let safe = load32-safe c.immu b c.pc sm v.words.pc aligned v.immu in
      let l =
        Ensures-ok (Loads 32 c.immu.control_register b) _ safe.returns
          (load32-Loads c.immu b c.pc sm v.words.pc v.immu w) in
      rw safe.returns (
        Returns-ok (FetchKeeps b) _
          (with_immu c v safe.load.mmu safe.valid (rw l.register v.words.immu_control), l.leads))

  -- The page of an address in the memory is kept.
  keep_page :
      (c : Cpu) (phy : ℕ)
      → IsValid c
      → phy < 2 ^ 32
      → phy ≤ max_ram_address
      → IsValid
          (record c { authed_page = bit_and c.pc 0xffffe000; authed_phy = bit_and phy 0xffffe000 })
  keep_page c phy v h near = record {
    regs = v.regs;
    words = ground (arith, v.words);
    immu = v.immu;
    dmmu = v.dmmu;
    page = rw (page_base phy h) (λ e. (omega arith, omega arith));
  }

  fetch_mapped-Returns :
      (c : Cpu)
      → IsValid c
      → c.pc % 4 ≡ 0
      → Returns (FetchKeeps b) (fetch_mapped b c (map_address c.immu c.pc (has c.sr k_sm) false))
  unfolding fetch_mapped
  fetch_mapped-Returns c v aligned =
      let sm = has c.sr k_sm in
      let t = map_address c.immu c.pc sm false in
      let (word, same) = map_address_frame c.immu c.pc sm false v.words.pc v.immu in
      let place = map_address_place c.immu c.pc sm false v.immu in
      let v' =
        with_immu c v t.mmu (map_address-IsValid c.immu c.pc sm false v.words.pc v.immu)
          (rw same v.words.immu_control) in
      Returns-if (FetchKeeps b) (raised t.exception) _ _
        (λ _. Returns-ok (FetchKeeps b) _ (v', Leads-none b w))
        (λ _.
          Returns-if (FetchKeeps b) t.is_ram _ _
            (λ ram.
              fetch_raw-Returns _ (keep_page _ t.phy_address v' word (place.1 ram))
                (omega (arith, page_base c.pc v.words.pc)) aligned)
            (λ _. fetch_device-Returns _ v' aligned))

  pub fetch-Returns : (c : Cpu) → IsValid c → c.pc % 4 ≡ 0 → Returns (FetchKeeps b) (fetch b c)
  unfolding fetch
  fetch-Returns c v aligned =
      Returns-if (FetchKeeps b) (bit_and c.pc 0xffffe000 == c.authed_page) _ _
        (λ kept. fetch_raw-Returns c v (ground (arith, page_base c.pc v.words.pc)) aligned)
        (λ _. fetch_mapped-Returns c v aligned)
