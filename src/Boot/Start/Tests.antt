-- ===== src/Boot/Start/Tests.antt =====
-- An instance of the theorem on the first page tables.
use modos.Base.{
  ℕ, ◌+◌, ◌*◌, ◌%◌, ◌^◌, ◌<◌, ◌≡◌, refl, ap, inr, arith, true, false, some, has_bit, ltb, lt→ltb,
  le→ltb, if◌then◌else◌,
}
use modos.Boot.Start.{Labels, Cpu, pmode_entry, gdt, gdtr, reload_gdt}
use modos.Boot.Start.Walk.{walk, boot_view}
use modos.Boot.Start.Stores.{IsBlank, IsLoaded}
use modos.Boot.Start.View.{pmode_entry-walk}
use modos.Boot.Start.Direct.{IsSeen, setup_hhdm-walk}
use modos.Mm.Hhdm.{setup_hhdm}
use modos.Mm.Layout.{hhdm_begin}

abbrev sample_labels : Labels
sample_labels = record {
  pml4 = 0x10_1000;
  pml4e_high = 0x10_2000;
  pml4e_low = 0x10_3000;
  pdpte_low = 0x10_4000;
  pdpte_high = 0x10_5000;
  kernel_phys = 0x20_0000;
  boot_stack_top = 0xFFFF_FFFF_8001_0000;
}

abbrev reset : Cpu
reset = record {
  mem = λ a. 0;
  cr0 = 0x11;
  cr3 = 0;
  cr4 = 0;
  efer = 0;
  rdi = 0;
  rsp = 0;
  stack_top = 0;
  codeaccess = 0xCF;
}

blank_page : (t : ℕ) → t % 2 ^ 12 ≡ 0 → t < 2 ^ 32 → IsBlank t reset.mem
blank_page t aligned lt = record { aligned = aligned; lt = lt; blank = λ i below. refl }

sample-IsLoaded : IsLoaded sample_labels reset.mem
sample-IsLoaded = record {
  pml4 = blank_page 0x10_1000 refl (omega arith);
  pml4e_high = blank_page 0x10_2000 refl (omega arith);
  pml4e_low = blank_page 0x10_3000 refl (omega arith);
  pdpte_low = blank_page 0x10_4000 refl (omega arith);
  pdpte_high = blank_page 0x10_5000 refl (omega arith);
  text_aligned = refl;
  text_lt = omega arith;
  pml4_apart = omega arith;
  pml4e_high_apart = omega arith;
  pml4e_low_apart = omega arith;
  pdpte_apart = omega arith;
}

-- The address of an instruction of the kernel.
pmode_entry-walk_example :
    (walk
        (pmode_entry sample_labels 0x9500 reset).mem
        (pmode_entry sample_labels 0x9500 reset).cr3
        0xFFFF_FFFF_8000_1234
      ≡ boot_view 0x20_0000 0xFFFF_FFFF_8000_1234)
    × ((pmode_entry sample_labels 0x9500 reset).rdi ≡ 0x9500)
    × (has_bit 31 (pmode_entry sample_labels 0x9500 reset).cr0 ≡ true)
    × (has_bit 5 (pmode_entry sample_labels 0x9500 reset).cr4 ≡ true)
    × (has_bit 8 (pmode_entry sample_labels 0x9500 reset).efer ≡ true)
pmode_entry-walk_example =
    pmode_entry-walk sample_labels 0x9500 0xFFFF_FFFF_8000_1234 reset sample-IsLoaded

-- It lies in the image, as memory has it.
kernel_address : boot_view 0x20_0000 0xFFFF_FFFF_8000_1234 ≡ some 0x20_1234
unfolding boot_view
kernel_address = refl

-- The place for the task state takes 17 bytes, so the limit is that of a table with a byte behind it.
table_register : reload_gdt (gdtr 0xAF 0x10_0400) ≡ (0x38, 0xFFFF_8000_0010_0400)
unfolding reload_gdt gdtr gdt
table_register = refl

-- The boot code's toplevel at 0x1000, and the table static_hhdm in the kernel's image, 0x10_0000 behind
-- its beginning.
abbrev direct_table : ℕ
direct_table = 0xFFFF_FFFF_8010_0000

abbrev direct_reloc : ℕ
direct_reloc = 0xFFFF_FFFF_7FE0_0000

abbrev with_direct_map : ℕ → ℕ
with_direct_map = setup_hhdm direct_table direct_reloc 0x1000 (λ a. 0)

abbrev physical : ℕ → ℕ
physical a = if ltb a 0x30_0000 then with_direct_map a else with_direct_map (a + direct_reloc)

physical-IsSeen : IsSeen direct_table 0x30_0000 0x1000 with_direct_map physical
physical-IsSeen = record {
  table = λ i lt.
      let above : ltb (0x30_0000 + 8 * i) 0x30_0000 ≡ false =
        le→ltb (0x30_0000 + 8 * i) 0x30_0000 (omega arith) in
      let image : 0x30_0000 + 8 * i + direct_reloc ≡ direct_table + 8 * i = omega arith in
      rw above (ap with_direct_map image);
  top = λ i lt.
      let low : ltb (0x1000 + 8 * i) 0x30_0000 ≡ true =
        lt→ltb (0x1000 + 8 * i) 0x30_0000 (omega (arith, lt)) in
      rw low refl;
}

setup_hhdm-walk_example : walk physical 0x1000 (hhdm_begin + 0x1_2345_6789) ≡ some 0x1_2345_6789
setup_hhdm-walk_example =
    setup_hhdm-walk direct_table direct_reloc 0x1000 (λ a. 0) physical 0x1_2345_6789 (omega arith)
      refl (omega arith) (inr (omega arith)) physical-IsSeen
