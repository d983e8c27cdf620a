-- ===== src/Modules/Load.antt =====
-- kernel/module/load_module.c: load_module itself, which places a module's segments.
use modos.Base.{ℕ, zero, suc, ◌+◌, ◌-◌, ◌*◌, ◌/◌, Bool, true, ◌==◌, not, if◌then◌else◌, u64}
use modos.Mm.Layout.{page_size, pg_write}
use modos.Fs.{M, Calls, pure, gets, not_null, kmalloc, memcpy, ◌>>=◌, ◌>>◌}
use modos.Fs.Pages.{request_pages}
use modos.Io.{load_16, load_64}
use modos.Elf.{
  Phdr, ehdr_size, phdr_size, mapping_size, et_dyn, pt_load, pt_dynamic, header_ok, load_phdr,
  negative, read_file, load_segment, store_mapping,
}
use modos.Modules.{Linked, dyn_size, resolve_syms, lookup_sym}

-- The variables of load_module's loop over the program headers.
pub record Loading : Type 0 where
  pub mappings_len : ℕ
  pub base_vaddr : ℕ
  pub max_vaddr : ℕ
  pub dynamic : ℕ
  pub dynlen : ℕ

-- base_vaddr and max_vaddr at segment `i` of `phnum`.
unfoldable pub set_vaddrs : (phnum i : ℕ) → Phdr → Loading → Loading
set_vaddrs phnum i phdr s =
    if i == 0
    then record s { base_vaddr = phdr.p_vaddr; max_vaddr = phdr.p_memsz }
    else if i + 1 == phnum
    then record s { max_vaddr = phdr.p_vaddr }
    else s

module _ (calls : Calls) (file : ℕ) where
  -- An iteration; false when a segment cannot be read.
  unfoldable pub load_entry : (mappings phnum i : ℕ) → Phdr → Loading → M (Bool × Loading)
  load_entry mappings phnum i phdr s =
      if phdr.p_type == pt_dynamic
      then (do
        dynamic ← kmalloc phdr.p_filesz
        ret ← read_file calls file dynamic phdr.p_filesz phdr.p_offset
        pure (true, record s { dynamic = dynamic; dynlen = phdr.p_filesz / dyn_size }))
      else if not (phdr.p_type == pt_load)
      then pure (true, s)
      else (do
        let s' = set_vaddrs phnum i phdr s
        (loaded, map) ← load_segment calls file phdr
        if not loaded then pure (loaded, s') else do
          store_mapping (mappings + mapping_size * s'.mappings_len) map
          pure (true, record s' { mappings_len = s'.mappings_len + 1 }))

  unfoldable pub load_entries : (mappings phdrs phnum left i : ℕ) → Loading → M (Bool × Loading)
  load_entries mappings phdrs phnum zero i s = pure (true, s)
  load_entries mappings phdrs phnum (suc left) i s = do
    phdr ← load_phdr (phdrs + phdr_size * i)
    (loaded, s') ← load_entry mappings phnum i phdr s
    if not loaded then pure (loaded, s') else load_entries mappings phdrs phnum left (i + 1) s'

-- The loop that places the segments, with `left` iterations to go; each works on the first mapping.
unfoldable pub place_mappings : (mappings base_addr left : ℕ) → M (Unit {0})
place_mappings mappings base_addr zero = pure tt
place_mappings mappings base_addr (suc left) = do
  not_null mappings
  map ← gets (λ w. w.mapping_at mappings)
  let begin = u64 (map.begin + base_addr)
  let end = u64 (map.end + base_addr)
  store_mapping mappings (record map { begin = begin; end = end })
  memcpy begin map.data_ref (u64 (end + (0x1_0000_0000_0000_0000 - begin)))
  place_mappings mappings base_addr left

module _ (calls : Calls) (linked : Linked) (fuel hdr : ℕ) where
  -- The part of load_module behind the loop over the program headers.
  unfoldable pub place_module : (mappings : ℕ) → Loading → M ℕ
  place_module mappings s = if s.dynamic == 0 then pure 0 else do
    let memsize = u64 (s.max_vaddr + (0x1_0000_0000_0000_0000 - s.base_vaddr))
    let n_pages = u64 ((memsize / page_size + 1) * page_size)
    block ← request_pages 0 n_pages pg_write
    if block == 0 then pure 0 else do
      let base_addr = u64 (block + s.base_vaddr)
      place_mappings mappings base_addr s.mappings_len
      done ← resolve_syms linked fuel base_addr s.dynamic s.dynlen
      if not (done == 0)
          then pure 0
          else lookup_sym fuel base_addr s.dynamic s.dynlen linked.init_module_name

  -- `hdr` is the address of the header on the stack. NULL stands for a module that is not loaded.
  unfoldable pub load_module : (file : ℕ) → M ℕ
  load_module file = do
    ret ← read_file calls file hdr ehdr_size 0
    if negative ret then pure 0 else do
      ok ← gets (λ w. header_ok et_dyn w.mem hdr)
      if not ok then pure 0 else do
        phoff ← load_64 (hdr + 32)
        phentsize ← load_16 (hdr + 54)
        phnum ← load_16 (hdr + 56)
        let phsize = phentsize * phnum
        mappings ← kmalloc (mapping_size * phnum)
        phdrs ← kmalloc phsize
        ret' ← read_file calls file phdrs phsize phoff
        if negative ret' then pure 0 else do
          (loaded, s) ←
              load_entries calls file mappings phdrs phnum phnum 0 (record {
                mappings_len = 0;
                base_vaddr = 0;
                max_vaddr = 0;
                dynamic = 0;
                dynlen = 0;
              })
          if not loaded then pure 0 else place_module mappings s
