-- ===== src/Boot/Entry.antt =====
-- kernel/entry.c: the start of the kernel, from the boot loader to the first program. Assembly
-- between the calls (reload_gdt, the loading of tables and of the new stack) is left out.
use modos.Base.{ℕ, ◌*◌, none, some, Bool, Option}
use modos.Machine.{Devices}
use modos.Idt.{Idt, enable_idt, enable_traps}
use modos.Mm.Memmap.{Entry, MmapRecord, Kernel, setup_pm}
use modos.Mm.Hhdm.{setup_hhdm}
use modos.Mm.Setup.{setup_vm}
use modos.Mm.Paging.{Paging}
use modos.Fs.{M, Calls, pure, fault, gets, not_null, kmalloc, update_process, fd_max, ◌>>=◌, ◌>>◌}
use modos.Serial.{init_serial}
use modos.Boot.{init_tss, init_biosdata, create_initrd}
use modos.Acpi.{init_acpi}
use modos.Apic.{enable_apic}
use modos.Syscalls.Table.{Handler, register_syscalls}
use modos.Tar.{Disks}
use modos.Tar.Tree.{Fixed, create_vfs_tar}
use modos.Proc.{Switch, Fresh}
use modos.Proc.Exec.{do_exec}

-- What the boot loader's information says of memory, and the addresses that the build fixes.
pub record BootInfo : Type 0 where
  pub kernel : Kernel
  pub records : ℕ → MmapRecord
  pub has_map : Bool
  pub mmap_addr : ℕ
  pub mmap_len : ℕ
  pub old_list : ℕ → Entry
  pub static_hhdm : ℕ
  pub reloc : ℕ
  pub kernel_text : ℕ
  pub tss : ℕ
  pub gdt : ℕ
  pub shims : ℕ → ℕ
  pub default_trap_handler : ℕ
  pub page_fault_handler : ℕ
  pub irq_handler_at : ℕ
  pub init_path : ℕ
  pub init_argv : ℕ
  pub init_envv : ℕ

-- sizeof(struct process)
abbrev pub process_size : ℕ
process_size = 320

unfoldable pub set_paging : Paging → M (Unit {0})
set_paging paging w =
    some (tt, record w { heap = record w.heap { vm = record w.heap.vm { paging = paging } } })

-- A change of the interrupt table that may fault.
unfoldable pub change_idt : (Idt → Option Idt) → M (Unit {0})
change_idt f w = elim (f w.idt) [ none ↦ none | some idt' ↦ some (tt, record w { idt = idt' }) ]

-- setup_hhdm, setup_pm and setup_vm.
unfoldable pub setup_memory : BootInfo → Fresh → (fuel : ℕ) → M (Unit {0})
setup_memory boot fresh fuel = do
  paging ← gets (λ w. w.heap.vm.paging)
  elim (setup_pm boot.kernel boot.records boot.has_map boot.mmap_addr boot.mmap_len fuel
      boot.old_list) [
        | none ↦ fault
        | some pm ↦
            let mapped = setup_hhdm boot.static_hhdm boot.reloc fresh.cr3 paging.space.mem in
            let space = record paging.space { mem = mapped; pm = pm } in
            elim (setup_vm boot.kernel_text boot.reloc boot.kernel.size
              (record paging { space = space })) [
                | none ↦ fault
                | some (stack, paging') ↦ set_paging paging'
              ]
      ]

module _ (devices : Devices) (calls : Calls) (boot : BootInfo) (fresh : Fresh) (fuel : ℕ) where
  -- The parts that the processor and the devices need; the result is the table of system calls.
  unfoldable pub start_machine : M (ℕ → Handler)
  start_machine = do
    init_tss boot.tss boot.gdt
    init_biosdata
    init_acpi fuel
    change_idt (enable_traps boot.default_trap_handler boot.page_fault_handler)
    enable_apic devices boot.irq_handler_at
    change_idt (enable_idt boot.shims)
    pure (register_syscalls (λ n. Handler.unset_handler))

  -- Process 1, with the tree of the initial ram disk.
  unfoldable pub start_init : (disks : Disks) (fixed : Fixed) (mbbootinfo : ℕ) → M Switch
  start_init disks fixed mbbootinfo = do
    init_proc ← kmalloc process_size
    not_null init_proc
    λ w. some (tt, record w { n_procs = 1; current_pid = 1 })
    update_process 1 (λ p. record p { id = 1 })
    (initrd, disks') ← create_initrd disks mbbootinfo
    root ← create_vfs_tar disks' fixed initrd fuel
    update_process 1 (λ p. record p { root = root; cwd = root })
    fdtable ← kmalloc (8 * fd_max)
    update_process 1 (λ p. record p { fdtable = fresh.block; n_fds = 0 })
    do_exec calls fresh fuel boot.init_path boot.init_argv 1 boot.init_envv 0

  unfoldable pub entry :
      (disks : Disks) (fixed : Fixed) (mbbootinfo : ℕ) → M (Switch × (ℕ → Handler))
  entry disks fixed mbbootinfo = do
    serial ← init_serial devices
    setup_memory boot fresh fuel
    table ← start_machine
    switch ← start_init disks fixed mbbootinfo
    pure (switch, table)
