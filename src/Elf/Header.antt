-- ===== src/Elf/Header.antt =====
-- kernel/proc/exec_elf.c and kernel/module/load_module.c: the headers that the kernel takes.
use modos.Base.{ℕ, ◌+◌, ◌≡◌, true, arith}
use modos.Str.{Memory}
use modos.Str.Words.{load16, load32, same_bytes}
use modos.Elf.{header_ok}

-- A header of a 64-bit, little-endian file of the current version for x86-64, of a type.
pub record IsElf (e_type : ℕ) (mem : Memory) (hdr : ℕ) : Type 0 where
  pub mag :
      (mem hdr ≡ 0x7F)
      × (mem (hdr + 1) ≡ 0x45)
      × (mem (hdr + 1 + 1) ≡ 0x4C)
      × (mem (hdr + 1 + 1 + 1) ≡ 0x46)
  pub class : mem (hdr + 4) ≡ 2
  pub encoding : mem (hdr + 5) ≡ 1
  pub version : mem (hdr + 6) ≡ 1
  pub type : load16 mem (hdr + 16) ≡ e_type
  pub machine : load16 mem (hdr + 18) ≡ 62
  pub file_version : load32 mem (hdr + 20) ≡ 1

pub header_ok-IsElf :
    (e_type : ℕ) (mem : Memory) (hdr : ℕ) → header_ok e_type mem hdr ≡ true → IsElf e_type mem hdr
unfolding header_ok same_bytes
header_ok-IsElf e_type mem hdr h = record {
  mag = (ground (arith, h), ground (arith, h), ground (arith, h), ground (arith, h));
  class = ground (arith, h);
  encoding = ground (arith, h);
  version = ground (arith, h);
  type = ground (arith, h);
  machine = ground (arith, h);
  file_version = ground (arith, h);
}
