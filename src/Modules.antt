-- ===== src/Modules.antt =====
-- kernel/module/load_module.c, include/export.h: the relocation of a module's symbols
-- against the kernel's exported ones, and the
-- search of a symbol.
pub mod Load
pub mod Symbols
pub mod Resolve
pub mod Refuse
mod Tests
use modos.Base.{
  ℕ, zero, suc, ◌+◌, ◌-◌, ◌*◌, ◌/◌, ◌%◌, ◌^◌, Bool, true, List, [], ◌∷◌, ltb, ◌==◌, ◌||◌, not,
  if◌then◌else◌, some, u64,
}
use modos.Base.Int.{pos}
use modos.Str.{int_eq}
use modos.Str.Words.{same_bytes}
use modos.Mm.Layout.{page_size, pg_write}
use modos.Fs.{
  World, M, Calls, Mapping, pure, fault, gets, not_null, kmalloc, memcpy, strcmp, ◌>>=◌, ◌>>◌,
}
use modos.Fs.Pages.{request_pages}
use modos.Io.{load_16, load_32, load_64, store_64}
use modos.Elf.{
  Phdr, ehdr_size, phdr_size, mapping_size, et_dyn, pt_load, pt_dynamic, header_ok, load_phdr,
  negative, read_file, load_segment, store_mapping,
}

-- What the linker fixes: KERNEL_EXPORT_SYM_BEGIN, KERNEL_EXPORT_SYM_END and the address of the
-- literal "init_module".
pub record Linked : Type 0 where
  pub export_begin : ℕ
  pub export_end : ℕ
  pub init_module_name : ℕ

-- EXPORT_SYM_MAGIC, and sizeof(struct export_sym) with its fields at their natural alignment.
abbrev pub export_sym_magic : List ℕ
export_sym_magic = 0x45 ∷ 0x58 ∷ 0x50 ∷ 0x4F ∷ 0x52 ∷ 0x54 ∷ 0x20 ∷ 0x53 ∷ 0x59 ∷ 0x4D ∷ 0 ∷ []

abbrev pub export_sym_size : ℕ
export_sym_size = 32

-- sizeof(Elf64_Sym), sizeof(Elf64_Rela) and sizeof(Elf64_Dyn)
abbrev pub sym_size : ℕ
sym_size = 24

abbrev pub rela_size : ℕ
rela_size = 24

abbrev pub dyn_size : ℕ
dyn_size = 16

-- The variables that resolve_syms and lookup_sym take from the dynamic section.
pub record Dynamic : Type 0 where
  pub syms : ℕ
  pub symlen : ℕ
  pub strtab : ℕ
  pub strtlen : ℕ
  pub rela : ℕ
  pub relasz : ℕ
  pub pltrela : ℕ

abbrev pub no_dynamic : Dynamic
no_dynamic = record {
  syms = 0;
  symlen = 0;
  strtab = 0;
  strtlen = 0;
  rela = 0;
  relasz = 0;
  pltrela = 0;
}

-- The switch over an entry's tag: DT_SYMTAB, DT_STRTAB, DT_STRSZ, DT_HASH, DT_RELA, DT_RELASZ,
-- DT_PLTRELSZ and DT_JMPREL. lookup_sym looks at the first four.
unfoldable pub dynamic_entry : (base_addr tag val : ℕ) → Dynamic → M Dynamic
dynamic_entry base_addr tag val d =
    let at = u64 (val + base_addr) in
    if tag == 6
    then pure (record d { syms = at })
    else if tag == 5
    then pure (record d { strtab = at })
    else if tag == 10
    then pure (record d { strtlen = val })
    else if tag == 4
    then (load_32 (at + 4) >>= λ symlen. pure (record d { symlen = symlen }))
    else if tag == 7
    then pure (record d { rela = at })
    else if tag == 8 || tag == 2
    then pure (record d { relasz = u64 (d.relasz + val) })
    else if tag == 23
    then pure (record d { pltrela = at })
    else pure d

-- The loop over the dynamic section from entry `i` on.
unfoldable pub read_dynamic : (base_addr dynamic left i : ℕ) → Dynamic → M Dynamic
read_dynamic base_addr dynamic zero i d = pure d
read_dynamic base_addr dynamic (suc left) i d = do
  tag ← load_64 (dynamic + dyn_size * i)
  val ← load_64 (dynamic + dyn_size * i + 8)
  d' ← dynamic_entry base_addr tag val d
  read_dynamic base_addr dynamic left (i + 1) d'

-- The loop over the kernel's exported symbols: those found from `at` on are copied behind the `n`
-- that ksyms holds. A step goes on by a byte at least, so `end - at` steps are enough.
unfoldable pub copy_ksyms : (fuel at end ksyms n : ℕ) → M ℕ
copy_ksyms zero at end ksyms n = pure n
copy_ksyms (suc fuel) at end ksyms n = if not (ltb at end) then pure n else do
  magic ← gets (λ w. same_bytes w.mem at export_sym_magic)
  if not magic then copy_ksyms fuel (at + 1) end ksyms n else do
    memcpy (ksyms + export_sym_size * n) at export_sym_size
    copy_ksyms fuel (at + export_sym_size) end ksyms (n + 1)

-- The inner loop of a relocation at `place`, from exported symbol `j` on.
unfoldable pub resolve_sym : (fuel name place ksyms left j : ℕ) → M (Unit {0})
resolve_sym fuel name place ksyms zero j = pure tt
resolve_sym fuel name place ksyms (suc left) j = do
  sym_name ← load_64 (ksyms + export_sym_size * j + 24)
  differ ← strcmp fuel name sym_name
  if not (int_eq differ (pos 0))
      then resolve_sym fuel name place ksyms left (j + 1)
      else do reloc_addr ← load_64 (ksyms + export_sym_size * j + 16); store_64 place reloc_addr

-- The loop over the relocations from number `i` on.
unfoldable pub relocate : (fuel base_addr : ℕ) → Dynamic → (ksyms n_ksyms left i : ℕ) → M (Unit {0})
relocate fuel base_addr d ksyms n_ksyms zero i = pure tt
relocate fuel base_addr d ksyms n_ksyms (suc left) i = do
  r_offset ← load_64 (d.rela + rela_size * i)
  r_info ← load_64 (d.rela + rela_size * i + 8)
  let sym = r_info / 2 ^ 32
  st_name ← load_32 (d.syms + sym_size * sym)
  if sym == 0 || st_name == 0
      then pure tt
      else resolve_sym fuel (d.strtab + st_name) (u64 (r_offset + base_addr)) ksyms n_ksyms 0
  relocate fuel base_addr d ksyms n_ksyms left (i + 1)

-- The result is always 0.
unfoldable pub resolve_syms : Linked → (fuel base_addr dynamic dynlen : ℕ) → M ℕ
resolve_syms linked fuel base_addr dynamic dynlen = do
  d ← read_dynamic base_addr dynamic dynlen 0 no_dynamic
  let relalen = d.relasz / rela_size
  let d' : Dynamic = if d.rela == 0 then record d { rela = d.pltrela } else d
  if d'.syms == 0 || d'.strtab == 0 || d'.rela == 0 then pure 0 else do
    let export_len = linked.export_end - linked.export_begin
    ksyms ← kmalloc export_len
    n_ksyms ← copy_ksyms export_len linked.export_begin linked.export_end ksyms 0
    relocate fuel base_addr d' ksyms n_ksyms relalen 0
    pure 0

-- The loop of lookup_sym from symbol `i` on.
unfoldable pub lookup_from : (fuel base_addr : ℕ) → Dynamic → (sym left i : ℕ) → M ℕ
lookup_from fuel base_addr d sym zero i = pure 0
lookup_from fuel base_addr d sym (suc left) i = do
  st_name ← load_32 (d.syms + sym_size * i)
  if ltb d.strtlen st_name then lookup_from fuel base_addr d sym left (i + 1) else do
    differ ← strcmp fuel (d.strtab + st_name) sym
    if not (int_eq differ (pos 0))
        then lookup_from fuel base_addr d sym left (i + 1)
        else do st_value ← load_64 (d.syms + sym_size * i + 8); pure (u64 (st_value + base_addr))

unfoldable pub lookup_sym : (fuel base_addr dynamic dynlen sym : ℕ) → M ℕ
lookup_sym fuel base_addr dynamic dynlen sym = do
  d ← read_dynamic base_addr dynamic dynlen 0 no_dynamic
  if d.syms == 0 || d.strtab == 0 then pure 0 else lookup_from fuel base_addr d sym d.symlen 0
