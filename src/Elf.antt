-- ===== src/Elf.antt =====
-- kernel/include/elf.h as kernel/proc/exec_elf.c and kernel/module/load_module.c read it: the header
-- of a file, its program headers, and the copy of a segment into memory. A header lies at an
-- address of the stack, which is an argument.
pub mod Header
mod Tests
use modos.Base.{
  ℕ, ◌+◌, ◌*◌, ◌/◌, ◌^◌, Bool, true, false, some, List, [], ◌∷◌, leb, ◌==◌, ◌&&◌, if◌then◌else◌,
  write, has_bit, bit_or, u64,
}
use modos.Str.{Memory}
use modos.Str.Words.{load16, load32, load64, same_bytes}
use modos.Mm.Layout.{page_size, pg_write}
use modos.Fs.{
  World, M, Calls, Mapping, pure, fault, gets, not_null, load_file, load_node, load_fops, kmalloc,
  memcpy, ◌>>=◌, ◌>>◌,
}
use modos.Fs.Pages.{request_pages}

-- sizeof(Elf64_Ehdr), sizeof(Elf64_Phdr) and sizeof(struct process_mapping)
abbrev pub ehdr_size : ℕ
ehdr_size = 64

abbrev pub phdr_size : ℕ
phdr_size = 56

abbrev pub mapping_size : ℕ
mapping_size = 32

-- ELFMAG, ET_EXEC, ET_DYN, PT_LOAD and PT_DYNAMIC
abbrev pub elfmag : List ℕ
elfmag = 0x7F ∷ 0x45 ∷ 0x4C ∷ 0x46 ∷ []

abbrev pub et_exec : ℕ
et_exec = 2

abbrev pub et_dyn : ℕ
et_dyn = 3

abbrev pub pt_load : ℕ
pt_load = 1

abbrev pub pt_dynamic : ℕ
pt_dynamic = 2

-- The tests of a header with the type that the caller takes: ELFMAG, ELFCLASS64, ELFDATA2LSB and
-- EV_CURRENT in e_ident, then e_type, EM_X86_64 in e_machine and EV_CURRENT in e_version.
unfoldable pub header_ok : (e_type : ℕ) → Memory → (hdr : ℕ) → Bool
header_ok e_type mem hdr =
    same_bytes mem hdr elfmag
    && mem (hdr + 4) == 2
    && mem (hdr + 5) == 1
    && mem (hdr + 6) == 1
    && load16 mem (hdr + 16) == e_type
    && load16 mem (hdr + 18) == 62
    && load32 mem (hdr + 20) == 1

-- Elf64_Phdr
pub record Phdr : Type 0 where
  pub p_type : ℕ
  pub p_flags : ℕ
  pub p_offset : ℕ
  pub p_vaddr : ℕ
  pub p_filesz : ℕ
  pub p_memsz : ℕ

unfoldable pub load_phdr : ℕ → M Phdr
load_phdr at = do
  not_null at
  gets (λ w. record {
    p_type = load32 w.mem at;
    p_flags = load32 w.mem (at + 4);
    p_offset = load64 w.mem (at + 8);
    p_vaddr = load64 w.mem (at + 16);
    p_filesz = load64 w.mem (at + 32);
    p_memsz = load64 w.mem (at + 40);
  })

-- A negative int64_t.
abbrev pub negative : ℕ → Bool
negative ret = leb (2 ^ 63) ret

module _ (calls : Calls) where
  -- `file->vnode->fops->read(file, buffer, len, offset)`
  unfoldable pub read_file : (file buffer len offset : ℕ) → M ℕ
  read_file file buffer len offset = do
    f ← load_file file
    vnode ← load_node f.vnode
    fops ← load_fops vnode.fops
    not_null fops.read
    calls.call_read fops.read file buffer len offset

  -- A segment's copy in memory and its mapping; false when the file cannot be read.
  unfoldable pub load_segment : (file : ℕ) → Phdr → M (Bool × Mapping)
  load_segment file phdr = do
    let n_pages = u64 ((phdr.p_memsz / page_size + 1) * page_size)
    data_ref ← request_pages 0 n_pages pg_write
    filedat ← kmalloc phdr.p_filesz
    ret ← read_file file filedat phdr.p_filesz phdr.p_offset
    let map : Mapping = record {
      begin = phdr.p_vaddr;
      end = u64 (phdr.p_vaddr + phdr.p_memsz);
      data_ref = data_ref;
      flags = if has_bit 1 phdr.p_flags then bit_or 0 pg_write else 0;
    }
    if negative ret
        then pure (false, map)
        else do memcpy data_ref filedat phdr.p_filesz; pure (true, map)

unfoldable pub store_mapping : ℕ → Mapping → M (Unit {0})
store_mapping at map = do
  not_null at
  λ w. some (tt, record w { mapping_at = write w.mapping_at at map })
