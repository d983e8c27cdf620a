-- ===== src/Proc.antt =====
-- kernel/proc: the start of a program. A process is named by its number; the functions end with
-- switch_process, in assembly, whose arguments are their result.
pub mod Exec
pub mod Stack
pub mod Descriptors
mod Tests
use modos.Base.{
  ℕ, zero, suc, ◌+◌, ◌-◌, ◌*◌, ◌/◌, ◌%◌, ◌^◌, Bool, true, Option, none, some, List, [], ◌∷◌, ltb,
  ◌==◌, not, if◌then◌else◌, write, bit_or, u64, low12, clear12,
}
use modos.Str.{Memory}
use modos.Machine.{Regs, no_regs}
use modos.Mm.Layout.{page_size, p2v, pg_write, pg_user}
use modos.Mm.Paging
use modos.Mm.Setup.{stack_size}
use modos.Fs.{
  World, M, Calls, Process, Mapping, pure, fault, gets, not_null, kmalloc, memcpy, strlen, fd_max,
  update_process, ◌>>=◌, ◌>>◌,
}
use modos.Fs.Open.{openat}
use modos.Fs.Pages.{mapalloc_pages, alloc_pages, request_pages}
use modos.Io.{load_16, load_32, load_64, store_64}
use modos.Elf.{
  ehdr_size, phdr_size, mapping_size, et_exec, pt_load, header_ok, load_phdr, negative, read_file,
  load_segment, store_mapping,
}

-- USER_STACK_TOP, HDR_MAX_LEN, AUX_MAX, sizeof(struct auxv) and sizeof(struct regs)
abbrev pub user_stack_top : ℕ
user_stack_top = 0x7FFF_FFFF_FFFF

abbrev pub hdr_max_len : ℕ
hdr_max_len = 256

abbrev pub aux_max : ℕ
aux_max = 0x20

abbrev pub auxv_size : ℕ
auxv_size = 16

abbrev pub regs_size : ℕ
regs_size = 176

-- GDT_USER_CODE and GDT_USER_DATA with the privilege level of a user
abbrev pub user_code : ℕ
user_code = bit_or 0x18 3

abbrev pub user_data : ℕ
user_data = bit_or 0x20 3

-- The arguments of switch_process but the function it calls.
pub record Switch : Type 0 where
  pub rsp : ℕ
  pub dseg : ℕ

-- What the model cannot know: the control register cr3, the user half of memory behind new page
-- tables, the contents of a new block of descriptors, and the address of exec_elf's header on the
-- stack.
pub record Fresh : Type 0 where
  pub cr3 : ℕ
  pub user : Memory
  pub block : ℕ → ℕ
  pub hdr : ℕ

-- `a - b` of addresses
abbrev pub minus : ℕ → ℕ → ℕ
minus a b = u64 (a + (0x1_0000_0000_0000_0000 - b))

unfoldable pub get_process : ℕ → M Process
get_process pid = gets (λ w. w.procs pid)

-- The number of pages of load_mapping.
unfoldable pub mapping_pages : ℕ → ℕ
mapping_pages size = if low12 size == 0 then size / page_size else size / page_size + 1

unfoldable pub load_mapping : Mapping → M ℕ
load_mapping procmap = do
  let size = minus procmap.end procmap.begin
  ret ← mapalloc_pages procmap.begin (mapping_pages size) (bit_or procmap.flags pg_user)
  memcpy procmap.begin procmap.data_ref size
  pure ret

-- The loop over the mappings; the results are not looked at.
unfoldable pub load_mappings : (mappings left i : ℕ) → M (Unit {0})
load_mappings mappings zero i = pure tt
load_mappings mappings (suc left) i = do
  not_null mappings
  map ← gets (λ w. w.mapping_at (mappings + mapping_size * i))
  ret ← load_mapping map
  load_mappings mappings left (i + 1)

-- The copy of the kernel's half of the page tables into the page at `cr3_phys`, as 64-bit words.
unfoldable pub copy_half : (to from left i : ℕ) → (ℕ → ℕ) → ℕ → ℕ
copy_half to from zero i mem = mem
copy_half to from (suc left) i mem =
    copy_half to from left (i + 1) (write mem (to + 8 * i) (mem (from + 8 * i)))

-- New page tables with the kernel's half of the current ones.
unfoldable pub new_space : Fresh → M ℕ
new_space fresh = do
  cr3_phys ← alloc_pages 1
  let to = u64 (p2v cr3_phys + 0x800)
  let from = u64 (p2v fresh.cr3 + 0x800)
  λ w.
      let paging = w.heap.vm.paging in
      let space = record paging.space { mem = copy_half to from 0x100 0 paging.space.mem } in
      let paging' : Paging.Paging = record paging { space = Paging.set_toplevel cr3_phys space } in
      some (
        tt,
        record w {
          mem = λ a. if ltb a (2 ^ 47) then fresh.user a else w.mem a;
          heap = record w.heap { vm = record w.heap.vm { paging = paging' } };
        },
      )
  pure cr3_phys

-- The places on the initial stack: the strings of the arguments and of the environment, and the
-- first word.
pub record Layout : Type 0 where
  pub argvs : ℕ
  pub envvs : ℕ
  pub user_stack : ℕ

unfoldable pub stack_layout : Process → Layout
stack_layout p =
    let argvs = minus user_stack_top p.arglen in
    let envvs = minus argvs p.envlen in
    let auxvs = minus (minus envvs auxv_size) (u64 (auxv_size * p.auxc)) in
    let envs = minus (minus auxvs 8) (u64 (8 * p.envc)) in
    let args = minus (minus envs 8) (u64 (8 * p.argc)) in
    record { argvs = argvs; envvs = envvs; user_stack = minus args 8 }

-- initial_stack_size / PAGE_SIZE
unfoldable pub stack_pages : (user_stack : ℕ) → ℕ
stack_pages user_stack =
    let size = minus user_stack_top user_stack in
    if low12 size == 0
    then size / page_size
    else u64 ((size / page_size + 1) * page_size) / page_size

-- `((uint64_t*)user_stack)[k] = v`
unfoldable pub put_word : (user_stack k v : ℕ) → M (Unit {0})
put_word user_stack k v = store_64 (u64 (user_stack + 8 * k)) v

-- The loops that copy strings to `strings` and their addresses to the words from `k` on.
unfoldable pub put_strings : (fuel user_stack vec strings k left i written : ℕ) → M (Unit {0})
put_strings fuel user_stack vec strings k zero i written = pure tt
put_strings fuel user_stack vec strings k (suc left) i written = do
  let place = u64 (strings + written)
  put_word user_stack (k + i) place
  str ← load_64 (vec + 8 * i)
  n ← strlen fuel str
  memcpy place str n
  str' ← load_64 (vec + 8 * i)
  n' ← strlen fuel str'
  put_strings fuel user_stack vec strings k left (i + 1) (written + n')

-- The loop over the auxiliary vector; the words of two entries overlap.
unfoldable pub put_auxv : (user_stack auxv k left i : ℕ) → M (Unit {0})
put_auxv user_stack auxv k zero i = pure tt
put_auxv user_stack auxv k (suc left) i = do
  a_type ← load_32 (auxv + auxv_size * i)
  put_word user_stack (k + i) a_type
  a_val ← load_64 (auxv + auxv_size * i + 8)
  put_word user_stack (k + 1 + i) a_val
  put_auxv user_stack auxv k left (i + 1)

-- The words of the initial stack, from argc on.
unfoldable pub fill_stack : (fuel : ℕ) → Layout → Process → M (Unit {0})
fill_stack fuel l p = do
  put_word l.user_stack 0 p.argc
  put_strings fuel l.user_stack p.argv l.argvs 1 p.argc 0 0
  put_word l.user_stack (1 + p.argc) 0
  put_strings fuel l.user_stack p.envv l.envvs (2 + p.argc) p.envc 0 0
  put_word l.user_stack (2 + p.argc + p.envc) 0
  put_auxv l.user_stack p.auxv (3 + p.argc + p.envc) p.auxc 0
  put_word l.user_stack (3 + p.argc + p.envc) 0
  put_word l.user_stack (4 + p.argc + p.envc) 0

-- The registers that the program starts with.
unfoldable pub init_regs : (user_stack entry_point : ℕ) → Regs
init_regs user_stack entry_point = record no_regs {
  rsp = user_stack;
  cs = user_code;
  ss = user_data;
  rip = entry_point;
  rflags = 2;
  error_code = 0;
  irq = 0x80;
}

-- A struct regs in memory.
unfoldable pub regs_words : Regs → List ℕ
regs_words r =
    r.rbp ∷ r.r15 ∷ r.r14 ∷ r.r13 ∷ r.r12 ∷ r.r11 ∷ r.r10 ∷ r.r9 ∷ r.r8 ∷ r.rsi ∷ r.rdi ∷ r.rdx
    ∷ r.rcx ∷ r.rbx ∷ r.rax ∷ r.irq ∷ r.error_code ∷ r.rip ∷ r.cs ∷ r.rflags ∷ r.rsp ∷ r.ss ∷ []

unfoldable pub store_words : (at : ℕ) → List ℕ → M (Unit {0})
store_words at [] = pure tt
store_words at (v ∷ vs) = do store_64 at v; store_words (at + 8) vs

-- `memcpy(table, from, sizeof(fd)*n)` of descriptors
unfoldable pub copy_fds : (n : ℕ) (from table : ℕ → ℕ) → ℕ → ℕ
copy_fds n from table fd = if ltb fd n then from fd else table fd

-- The new table of process `pid`, which takes its place before the current process's is copied.
unfoldable pub renew_fds : Fresh → (pid : ℕ) → M (Unit {0})
renew_fds fresh pid = do
  n_fds ← gets (λ w. (w.procs w.current_pid).n_fds)
  update_process pid (λ p. record p { n_fds = n_fds })
  fdtable ← kmalloc (8 * fd_max)
  not_null fdtable
  update_process pid (λ p. record p { fdtable = fresh.block })
  from ← gets (λ w. (w.procs w.current_pid).fdtable)
  update_process pid (λ p. record p { fdtable = copy_fds p.n_fds from p.fdtable })

-- The kernel stack with the registers on its top.
unfoldable pub set_kernel_stack : (pid : ℕ) → Regs → M ℕ
set_kernel_stack pid regs = do
  update_process pid (λ p. record p { regs = regs })
  block ← request_pages 0 (stack_size / page_size) pg_write
  let stack = minus (u64 (block + stack_size)) regs_size
  update_process pid (λ p. record p { kernel_stack = stack })
  store_words stack (regs_words regs)
  pure stack

unfoldable pub exec_process : Fresh → (fuel pid : ℕ) → M Switch
exec_process fresh fuel pid = do
  cr3_phys ← new_space fresh
  update_process pid (λ p. record p { cr3_phys = cr3_phys })
  p ← get_process pid
  load_mappings p.mappings p.mappings_len 0
  let l = stack_layout p
  ret ← mapalloc_pages (clear12 l.user_stack) (stack_pages l.user_stack) (bit_or pg_write pg_user)
  fill_stack fuel l p
  renew_fds fresh pid
  stack ← set_kernel_stack pid (init_regs l.user_stack p.entry_point)
  λ w. some (tt, record w { current_pid = (w.procs pid).id })
  pure (record { rsp = stack; dseg = user_data })
