-- ===== src/Modules/Tests.antt =====
-- A module with one named symbol, and instances of the theorems on modules and programs.
use modos.Base.{
  ℕ, zero, suc, ◌+◌, ◌<◌, ◌≤◌, ◌≢◌, ◌≡◌, length, refl, arith, write, some, none, List, [], ◌∷◌,
}
use modos.Str.{Memory}
use modos.Str.Words.{load16, load32, load64}
use mathlib.Core.List.{nil≢cons}
use modos.Elf.{read_file, et_exec, et_dyn}
use modos.Elf.Header.{IsElf}
use modos.Proc.{Fresh}
use modos.Proc.Exec.{exec_elf}
use modos.Modules.Load.{load_module}
use modos.Modules.Resolve.{IsExports, sym_name, Relocated, resolve_sym_lem}
use modos.Modules.Refuse.{exec_elf-load_module}
use modos.Fs.{World, load_file, load_node, load_fops, not_null}
use modos.Fs.Sample.{sample, sample_calls}
use modos.Io.{load_32, load_64}
use modos.Modules.{
  Dynamic, Linked, lookup_sym, read_dynamic, dynamic_entry, no_dynamic, resolve_sym,
}
use modos.Str.Strings.{CString}
use modos.Modules.Symbols.{st_name, Matches, lookup_sym_lem}

-- The dynamic section stands at 0x100, the symbols at 0x200, their names at 0x300, the table of
-- hashes at 0x400 and the wanted name at 0x500.
abbrev dynamic_bytes : Memory
dynamic_bytes =
    write
      (write
        (write (write (write (write (write (λ a. 0) 0x100 6) 0x109 2) 0x110 5) 0x119 3) 0x120 4)
        0x129 4)
      0x130 10

abbrev module_bytes : Memory
module_bytes =
    write
      (write (write (write (write (write dynamic_bytes 0x138 2) 0x404 2) 0x218 1) 0x220 0x50) 0x301
        0x61)
      0x500 0x61

abbrev with_module : World
with_module = record sample { mem = module_bytes }

abbrev section : Dynamic
section = record {
  syms = 0x200;
  symlen = 2;
  strtab = 0x300;
  strtlen = 2;
  rela = 0;
  relasz = 0;
  pltrela = 0;
}

section_read : read_dynamic 0 0x100 4 0 no_dynamic with_module ≡ some (section, with_module)
unfolding read_dynamic dynamic_entry load_32 load_64 load32 load64 load16
section_read = refl

-- The names of the two symbols.
abbrev names : ℕ → List ℕ
names zero = []
names (suc i) = 0x61 ∷ []

names_there :
    (i : ℕ)
    → i < 2
    → st_name module_bytes section i ≤ 2
    → CString module_bytes (0x300 + st_name module_bytes section i) (names i)
      × (length (names i) < 4)
unfolding load32 load16
names_there zero a b = (refl, omega arith)
names_there (suc zero) a b = ((refl, omega arith, refl), omega arith)
names_there (suc (suc i)) a b = absurd (omega arith)

unnamed : (j : ℕ) → j < 1 → ¬ Matches module_bytes section (0x61 ∷ []) names j
unnamed zero a (b, e) = nil≢cons e
unnamed (suc j) a m = absurd (omega arith)

lookup_sym_lem_example : lookup_sym 4 0 0x100 4 0x500 with_module ≡ some (0x50, with_module)
unfolding load32 load64 load16
lookup_sym_lem_example =
    (lookup_sym_lem 4 0 0x500 section (0x61 ∷ []) names with_module
        (record {
          bytes = λ a. ground arith;
          syms = omega arith;
          strtab = omega arith;
          at_given = omega arith;
          at_string = (refl, omega arith, refl);
          named = names_there;
        })
        0x100 4 section_read).0
      1 (omega arith) (omega arith, refl) unnamed

-- Every byte is 0, so nothing at the address of the header is the header of an ELF file.
abbrev with_file : World
with_file = record sample { files = λ p. record { vnode = 0x10; mountpoint = 0 } }

abbrev no_fresh : Fresh
no_fresh = record { cr3 = 0; user = λ a. 0; block = λ fd. 0; hdr = 0x6000 }

abbrev no_link : Linked
no_link = record { export_begin = 0; export_end = 0; init_module_name = 0x500 }

header_read : read_file sample_calls 0x20 0x6000 64 0 with_file ≡ some (64, with_file)
unfolding read_file load_file load_node load_fops not_null
header_read = refl

not-IsElf : (e_type : ℕ) → ¬ IsElf e_type with_file.mem 0x6000
not-IsElf e_type e = omega (arith, e.mag.0)

exec_elf-load_module_example :
    (exec_elf sample_calls no_fresh 4 0x20 1 with_file ≡ some (none, with_file))
    × (load_module sample_calls no_link 4 0x6000 0x20 with_file ≡ some (0, with_file))
exec_elf-load_module_example = (
  (exec_elf-load_module sample_calls no_fresh no_link 4 0x20 1 64 with_file with_file header_read).1
      (not-IsElf et_exec),
  (exec_elf-load_module sample_calls no_fresh no_link 4 0x20 1 64 with_file with_file header_read).2
      (not-IsElf et_dyn),
)

-- One exported symbol, at 0x700: its address is 0x1234, and its name stands at 0x500.
abbrev export_bytes : Memory
export_bytes = write (write (write (write (λ a. 0) 0x710 0x34) 0x711 0x12) 0x719 0x05) 0x500 0x61

abbrev with_export : World
with_export = record sample { mem = export_bytes }

export_given : (j : ℕ) → j < 1 → sym_name export_bytes 0x700 j ≢ 0
unfolding load64 load32 load16
export_given zero a = omega arith
export_given (suc j) a = absurd (omega arith)

export_named : (j : ℕ) → j < 1 → CString export_bytes (sym_name export_bytes 0x700 j) (0x61 ∷ [])
unfolding load64 load32 load16
export_named zero a = (refl, omega arith, refl)
export_named (suc j) a = absurd (omega arith)

one_export : IsExports export_bytes 4 0x500 0x700 1 (0x61 ∷ []) (λ j. 0x61 ∷ [])
unfolding load64 load32 load16
one_export = record {
  bytes = λ a. ground arith;
  at_given = omega arith;
  at_string = (refl, omega arith, refl);
  short = omega arith;
  given = export_given;
  named = export_named;
}

resolve_sym_lem_example :
    (mem' : Memory) × (resolve_sym 4 0x500 0x900 0x700 1 0 with_export
      ≡ some (tt, record with_export { mem = mem' }))
    × Relocated 4 0x500 0x900 0x700 1 (0x61 ∷ []) (λ j. 0x61 ∷ []) with_export one_export mem'
resolve_sym_lem_example =
    resolve_sym_lem 4 0x500 0x900 0x700 1 (0x61 ∷ []) (λ j. 0x61 ∷ []) with_export one_export
      (omega arith)
