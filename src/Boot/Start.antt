-- ===== src/Boot/Start.antt =====
-- kernel/boot/p32/pmodeEntry.S: the processor's way from the boot loader to the kernel's entry, through
-- page tables for the first 2 MiB of memory and of the kernel, and the segment descriptors; gdt/reload_gdt.S.
pub mod Walk
pub mod Stores
pub mod View
pub mod Direct
mod Tests
use modos.Mm.Layout.{hhdm_begin}
use modos.Base.{
  length, u64, ℕ, ◌+◌, ◌*◌, ◌/◌, ◌%◌, ◌^◌, ◌-◌, ◌≤◌, ◌<◌, ◌≡◌, ◌≢◌, ◌⊎◌, inl, inr, refl, sym, ap,
  ◌∙◌, arith, Bool, true, false, not, ◌||◌, ◌++◌, Option, none, some, List, [], ◌∷◌, All, ◌==◌,
  ==_iff, if◌then◌else◌, has_bit, clear12, bit_or, bit_or_fields, bit_or_bit, ltb, ltb→lt,
  Bool-cases, write, write_self, write_ne,
}

-- The labels of the tables and of the stack, and __KERNEL_TEXT_PHYSICAL of link_kernel.ld.
pub record Labels : Type 0 where
  pub pml4 : ℕ
  pub pml4e_high : ℕ
  pub pml4e_low : ℕ
  pub pdpte_low : ℕ
  pub pdpte_high : ℕ
  pub kernel_phys : ℕ
  pub boot_stack_top : ℕ

-- The control registers, memory as 64-bit words, the argument of entry, and the stack, the variable stack_top and
-- the byte at codeaccess.
pub record Cpu : Type 0 where
  pub mem : ℕ → ℕ
  pub cr0 : ℕ
  pub cr3 : ℕ
  pub cr4 : ℕ
  pub efer : ℕ
  pub rdi : ℕ
  pub rsp : ℕ
  pub stack_top : ℕ
  pub codeaccess : ℕ

-- A store of 32 bits to the lower half of a word.
unfoldable pub store_low : ℕ → ℕ → (ℕ → ℕ) → ℕ → ℕ
store_low p v mem = write mem p (mem p / 2 ^ 32 * 2 ^ 32 + v % 2 ^ 32)

unfoldable pub boot_tables : Labels → (ℕ → ℕ) → ℕ → ℕ
boot_tables l mem =
    let m1 = store_low l.pdpte_low 0x83 mem in
    let m2 = store_low l.pdpte_high (bit_or l.kernel_phys 0x83) m1 in
    let m3 = store_low l.pml4e_low (bit_or l.pdpte_low 3) m2 in
    let m4 = store_low (l.pml4e_high + 0xFF0) (bit_or l.pdpte_high 3) m3 in
    let m5 = store_low l.pml4 (bit_or l.pml4e_low 3) m4 in
    store_low (l.pml4 + 0xFF8) (bit_or l.pml4e_high 3) m5

-- From the boot loader, with its information at `ebx`, to the call of entry; the words of the first stack are left out.
unfoldable pub pmode_entry : Labels → (ebx : ℕ) → Cpu → Cpu
pmode_entry l ebx c = record {
  mem = boot_tables l c.mem;
  cr0 = bit_or c.cr0 (2 ^ 31);
  cr3 = l.pml4;
  cr4 = bit_or c.cr4 (2 ^ 5);
  efer = bit_or c.efer (2 ^ 8);
  rdi = ebx;
  rsp = l.boot_stack_top;
  stack_top = l.boot_stack_top;
  codeaccess = 0xAF;
}

-- A segment descriptor of the whole address space.
abbrev segment_descriptor : (access flags : ℕ) → List ℕ
segment_descriptor access flags = 0xFF ∷ 0xFF ∷ 0 ∷ 0 ∷ 0 ∷ access ∷ flags ∷ 0 ∷ []

-- The bytes of gdt, with the byte at codeaccess.
unfoldable pub gdt : (codeaccess : ℕ) → List ℕ
gdt codeaccess =
    (0 ∷ 0 ∷ 0 ∷ 0 ∷ 0 ∷ 0 ∷ 0 ∷ 0 ∷ [])
    ++ segment_descriptor 0x9A codeaccess
    ++ segment_descriptor 0x92 0xCF
    ++ segment_descriptor 0xFA 0xAF
    ++ segment_descriptor 0xF2 0xCF
    ++ (0 ∷ 0 ∷ 0 ∷ 0 ∷ 0 ∷ 0x89 ∷ 0 ∷ 0 ∷ 0 ∷ 0 ∷ 0 ∷ 0 ∷ 0 ∷ 0 ∷ 0 ∷ 0 ∷ 0 ∷ [])

-- The 16-bit limit and the 32-bit address in gdtr.
unfoldable pub gdtr : (codeaccess address : ℕ) → ℕ × ℕ
gdtr codeaccess address = (length (gdt codeaccess) - 1, address)

-- What reload_gdt makes of the table register: its address in the direct map.
unfoldable pub reload_gdt : ℕ × ℕ → ℕ × ℕ
reload_gdt (limit, address) = (limit, u64 (hhdm_begin + address))
