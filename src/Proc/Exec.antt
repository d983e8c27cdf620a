-- ===== src/Proc/Exec.antt =====
-- kernel/proc/exec_elf.c, exec_file.c and do_exec.c: the program that a file holds.
use modos.Base.{
  ℕ, zero, suc, ◌+◌, ◌*◌, Bool, true, Option, none, some, ◌==◌, not, if◌then◌else◌, u64,
}
use modos.Fs.{M, Calls, pure, fault, gets, kmalloc, strlen, update_process, ◌>>=◌, ◌>>◌}
use modos.Fs.Open.{openat}
use modos.Io.{load_16, load_64}
use modos.Elf.{
  ehdr_size, phdr_size, mapping_size, et_exec, pt_load, header_ok, load_phdr, negative, read_file,
  load_segment, store_mapping,
}
use modos.Proc.{Switch, Fresh, hdr_max_len, aux_max, auxv_size, get_process, exec_process}

module _ (calls : Calls) (fresh : Fresh) (fuel : ℕ) where
  -- The loop of exec_elf over the program headers; false when a segment cannot be read.
  unfoldable pub load_segments : (file pid phdrs left i : ℕ) → M Bool
  load_segments file pid phdrs zero i = pure true
  load_segments file pid phdrs (suc left) i = do
    phdr ← load_phdr (phdrs + phdr_size * i)
    if not (phdr.p_type == pt_load) then load_segments file pid phdrs left (i + 1) else do
      (loaded, map) ← load_segment calls file phdr
      if not loaded then pure loaded else do
        p ← get_process pid
        store_mapping (p.mappings + mapping_size * p.mappings_len) map
        update_process pid (λ q. record q { mappings_len = u64 (q.mappings_len + 1) })
        load_segments file pid phdrs left (i + 1)

  -- none stands for a return.
  unfoldable pub exec_elf : (file pid : ℕ) → M (Option Switch)
  exec_elf file pid = do
    ret ← read_file calls file fresh.hdr ehdr_size 0
    if negative ret then pure none else do
      ok ← gets (λ w. header_ok et_exec w.mem fresh.hdr)
      if not ok then pure none else do
        e_entry ← load_64 (fresh.hdr + 24)
        update_process pid (λ p. record p { entry_point = e_entry })
        phoff ← load_64 (fresh.hdr + 32)
        phnum ← load_16 (fresh.hdr + 56)
        phentsize ← load_16 (fresh.hdr + 54)
        mappings ← kmalloc (mapping_size * phnum)
        update_process pid (λ p. record p { mappings = mappings })
        phdrs ← kmalloc (phentsize * phnum)
        ret' ← read_file calls file phdrs (phentsize * phnum) phoff
        if negative ret' then pure none else do
          loaded ← load_segments file pid phdrs phnum 0
          if not loaded then pure none else do s ← exec_process fresh fuel pid; pure (some s)

  -- A panic faults. The header that is read first is not looked at.
  unfoldable pub exec_file : (path pid : ℕ) → M Switch
  exec_file path pid = do
    p ← get_process pid
    init_file ← openat calls fuel p.root path
    if init_file == 0 then fault else do
      test_hdr ← kmalloc hdr_max_len
      ret ← read_file calls init_file test_hdr hdr_max_len 0
      s ← exec_elf init_file pid
      elim s [ none ↦ fault | some switch ↦ pure switch ]

  -- The sum of the lengths of the strings of a vector, from string `i` on.
  unfoldable pub strings_len : (vec left i len : ℕ) → M ℕ
  strings_len vec zero i len = pure len
  strings_len vec (suc left) i len = do
    str ← load_64 (vec + 8 * i)
    n ← strlen fuel str
    strings_len vec left (i + 1) (u64 (len + n))

  unfoldable pub do_exec : (file argv argc envv envc : ℕ) → M Switch
  do_exec file argv argc envv envc = do
    pid ← gets (λ w. w.current_pid)
    arglen ← strings_len argv argc 0 0
    update_process pid (λ p. record p { argc = argc; argv = argv; arglen = arglen })
    envlen ← strings_len envv envc 0 0
    update_process pid (λ p. record p { envc = envc; envv = envv; envlen = envlen })
    auxv ← kmalloc (auxv_size * aux_max)
    update_process pid (λ p. record p { auxc = 0; auxv = auxv })
    exec_file file pid
