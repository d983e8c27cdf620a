-- ===== src/Boot.antt =====
-- kernel/bios/init_biosdata.c, kernel/tss, and kernel/create_initrd.c: what the kernel reads from the
-- BIOS and from the boot loader, and the task state it leaves to the processor.
mod Tests
pub mod Entry
pub mod Drivers
pub mod Initrd
pub mod Start
use modos.Base.{
  ℕ, zero, suc, ◌+◌, ◌-◌, ◌*◌, ◌/◌, ◌%◌, ◌^◌, none, some, List, [], ◌∷◌, ◌==◌, ◌||◌, if◌then◌else◌,
  write, has_bit, not, u8, u32, u64,
}
use modos.Str.Words.{same_bytes}
use modos.Mm.Layout.{p2v}
use modos.Fs.{World, M, pure, fault, gets, not_null, kmalloc, store_byte, ◌>>=◌, ◌>>◌}
use modos.Io.{load_16, load_32, store_32}
use modos.Tar.{Ramdisk, Disks, new_ramdisk_mount}

-- BDA_WORD; the offset is in bytes.
unfoldable pub bda_word : ℕ → M ℕ
bda_word offset = load_16 (p2v (0x400 + offset))

-- The loop of init_biosdata; none of the words set leaves the port as it is.
unfoldable pub find_serial : (left i : ℕ) → M (Unit {0})
find_serial zero i = pure tt
find_serial (suc left) i = do
  serial ← bda_word i
  if serial == 0 then find_serial left (i + 1) else λ w.
      some (tt, record w { serial_port = serial })

unfoldable pub init_biosdata : M (Unit {0})
init_biosdata = do
  kilobytes ← bda_word 0x13
  λ w. some (tt, record w { ebda_begin = kilobytes * 2 ^ 10 })
  find_serial 4 0

-- sizeof(struct tss), its fields at their natural alignment
abbrev pub tss_size : ℕ
tss_size = 112

-- `tss` and `gdt` are the addresses of the structures. All but the instruction that loads the
-- task register.
unfoldable pub init_tss : (tss gdt : ℕ) → M (Unit {0})
init_tss tss gdt = do
  let gdt_begin = p2v gdt
  store_byte (gdt_begin + 0x28) (tss_size % 0x100)
  store_byte (gdt_begin + 0x29) (tss_size / 2 ^ 8 % 0x100)
  store_byte (gdt_begin + 0x2E) (tss_size / 2 ^ 16 % 0x10)
  store_byte (gdt_begin + 0x2A) (tss % 0x100)
  store_byte (gdt_begin + 0x2B) (tss / 2 ^ 8 % 0x100)
  store_byte (gdt_begin + 0x2C) (tss / 2 ^ 16 % 0x100)
  store_byte (gdt_begin + 0x2F) (tss / 2 ^ 24 % 0x100)
  store_32 (gdt_begin + 0x30) (tss / 2 ^ 32)

-- The entries rsp[0] and rsp[1] of the task state at address `tss`.
unfoldable pub switch_tss_stack : (tss new_kernel_stack : ℕ) → M (Unit {0})
switch_tss_stack tss new_kernel_stack = do
  store_32 (tss + 4) (u32 new_kernel_stack)
  store_32 (tss + 8) (u32 (new_kernel_stack / 2 ^ 32))

-- INITRD_CMDLINE with its NUL byte
abbrev pub initrd_cmdline : List ℕ
initrd_cmdline = 0x69 ∷ 0x6E ∷ 0x69 ∷ 0x74 ∷ 0x72 ∷ 0x64 ∷ 0 ∷ []

-- The loop of create_initrd over the boot loader's modules, of 16 bytes each, with initrd_begin and
-- initrd_size; the last module of that name is taken.
unfoldable pub find_initrd : (mods left i : ℕ) → ℕ × ℕ → M (ℕ × ℕ)
find_initrd mods zero i found = pure found
find_initrd mods (suc left) i found = do
  let mod_at = mods + 16 * i
  mod_start ← load_32 mod_at
  mod_end ← load_32 (mod_at + 4)
  cmdline ← load_32 (mod_at + 8)
  named ← gets (λ w. same_bytes w.mem (p2v cmdline) initrd_cmdline)
  find_initrd mods left (i + 1)
      (if named then (p2v mod_start, u32 (mod_end + (0x1_0000_0000 - mod_start))) else found)

-- A panic faults. The result is the mount, with the disks it adds to.
unfoldable pub create_initrd : (disks : Disks) (mbbootinfo : ℕ) → M (ℕ × Disks)
create_initrd disks mbbootinfo = do
  flags ← load_32 (p2v mbbootinfo)
  if not (has_bit 3 flags) then fault else do
    mods_addr ← load_32 (p2v mbbootinfo + 24)
    n_mods ← load_32 (p2v mbbootinfo + 20)
    (begin, size) ← find_initrd (p2v mods_addr) n_mods 0 (0, 0)
    if begin == 0 || size == 0 then fault else do
      initrd ← kmalloc 16
      not_null initrd
      new_ramdisk_mount
          (record disks {
            rdisks = write disks.rdisks initrd (record { begin = begin; size = size });
          })
          initrd
