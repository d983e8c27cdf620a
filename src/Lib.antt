-- ===== src/Lib.antt =====
-- modos, a small x86-64 kernel: its memory management, files, system calls, interrupts, and the
-- start of programs and modules.
--
-- The parts and how they interact. The kernel takes physical pages from one arena
-- (kernel/mm/pm), maps them in four levels of page tables that it reaches through a direct map
-- of physical memory (kernel/mm/vm), hands out ranges of kernel addresses and cuts small blocks
-- from them (request_pages, kmalloc). The file system (kernel/fs) keeps nodes, open files and a
-- global table of them in such blocks, walks paths with the string functions of
-- kernel/_stdfuncs.c, and calls drivers through tables of function pointers: the tar archive of
-- the initial ram disk (kernel/tar, kernel/ramdisk) and character devices, such as the serial
-- ports (modules/drivers/serial_com). A system call enters
-- by a number, has its user pointer tested, and goes through the descriptors of the current
-- process to the file system (kernel/syscalls). The descriptor table (kernel/idt, kernel/traps)
-- leads interrupts to their handlers, which the firmware's tables (kernel/acpi) and the interrupt
-- controllers (kernel/apic) bring to the processor (kernel/irq). A program (kernel/proc) and a
-- module (kernel/module) are read from a file, placed in memory and started. kernel/entry.c
-- starts all of these in order.
--
-- The files.
--   Base       native numbers, tests, lists indexed by them, words and bits, signed integers,
--              and a memory of cells.
--   Mm.Layout  include/mm/mmhelpers.h, include/mm/vm.h: offsets of an address, flags of an entry.
--   Mm.Pm      kernel/mm/pm/alloc_pages.c: alloc_pages on the state Pm of the arena.
--   Mm.Memmap  kernel/mm/pm/parse_memory_map.c: parse_memmap over the boot loader's records, and
--              setup_pm (kernel/mm/pm/setup_pm.c), which chooses the arena.
--   Mm.Paging  kernel/mm/vm/map_pages.c: walk_table, map_page, map_pages, mapalloc_pages on the
--              state Paging of memory, arena, toplevel and the caches of the last walk. map_page
--              is composed of pml4e_step, pdpte_step and pde_step, one for each level, and fill
--              for its label `alloc`. Paging.Tree says what a tree of tables is and translates an
--              address by it, as the processor does; Paging.Cache ties the caches to the tree.
--   Mm.Arena   kernel/mm/vm/request_pages.c and kmalloc.c on the states Vm and Heap.
--   Mm.Hhdm    kernel/mm/hhdm.c: setup_hhdm.  Mm.Setup  kernel/mm/vm/setup_vm.c: setup_vm.
--   Str        kernel/_stdfuncs.c over a memory of bytes.
--   Fs         include/fs.h: nodes, files, fops and processes, in maps by address, with the
--              globals of kernel/fs in one state World, and the monad M of its code.
--   Fs.Gfid    kernel/fs/gfid.c.       Fs.Path    kernel/fs/fsutils.c and next_elem.
--   Fs.Walk    kernel/fs/walk_path.c.  Fs.Open    kernel/fs/open.c.
--   Fs.Chrdev  kernel/fs/register_chrdev.c.
--   Syscalls   kernel/syscalls/register_syscalls.c: a handler takes the registers and gives them
--              back; Syscalls.Table has register_syscalls and the handlers by their numbers.
--   Idt        kernel/idt/register_handler.c and kernel/traps/enable_traps.c.
--   Tar        kernel/tar/tar_fileops.c, kernel/ramdisk/new_ramdisk_mount.c and oct2bin of
--              kernel/tar/create_vfs.c; Tar.Tree has create_vfs_tar, the tree of an archive.
--   Machine    registers, interrupt controllers as data, and the history of accesses to devices.
--   Io         include/portio.h and accesses to device registers and words of memory.
--   Apic       kernel/apic and kernel/irq/irq_handler.c. Apic.Window is an IOAPIC as a device.
--   Acpi       kernel/acpi: the search for the tables and the walk over the MADT; Acpi.Table says
--              what its entries mean.
--   Elf        the ELF header, its program headers, and a segment's copy, as both loaders have them.
--   Proc       kernel/proc/exec_process.c; Proc.Exec has exec_elf, exec_file and do_exec.
--   Modules    kernel/module/load_module.c: resolve_syms and lookup_sym; Modules.Load has load_module.
--   Serial     modules/drivers/serial_com/init.c and the port of kernel/seriallog.c.
--   Boot       kernel/bios, kernel/tss and kernel/create_initrd.c; Boot.Entry has kernel/entry.c;
--              Boot.Drivers puts the drivers behind the function pointers; Boot.Start has
--              kernel/boot/p32/pmodeEntry.S and kernel/gdt/reload_gdt.S.
--   Asm        kernel/syscalls/sysentry.S and enable_syscalls.S, kernel/idt/entry_shim.S and
--              kernel/proc/switch_process.S, on the registers and memory of a processor; Asm.Stack has
--              kernel/mm/vm/switch_stack.S, Asm.Exception kernel/traps/exception_handlers.c.
--
-- How the code is written here. A pointer is a number and NULL is 0; uint64_t, size_t and
-- uintptr_t wrap around at 2^64, uint32_t at 2^32, where it is written out. C code that changes
-- state is a function from the state to its result and the next state. Code that may fault gives
-- none: at a NULL pointer, at an index out of an array, and where a loop has used up its fuel;
-- memory can be accessed at every other address, so page faults do not show. An access at NULL is
-- a fault here also in the code that runs while the boot tables still map page 0.
-- A structure lives in the map of its type at its address, so two objects of different types never
-- share memory, and a field that code does not set keeps what the block had. Calls of the log and
-- of panic messages are left out; a panic faults. Tables of the firmware, ELF files and headers of
-- the archive are bytes of memory, their fields at the natural alignment of the structures. An access to
-- a port or a device register is an event of a history, and an answer is a function of the events
-- before it. strlen counts in an int in the source and in a number here, which are the same for
-- strings below 2 GiB. An index is checked where it goes into an array of a fixed size (fdtable, gfids); a
-- directory's children are a block from the heap, behind which memory goes on, so an index past
-- CHILD_MAX reads or writes what lies there.
--
-- Fuel. A loop that only the data ends takes fuel: strlen, strcmp, strrchr, strtok, next_elem, the walk
-- of a path and its symbolic links, get_mount, the loop over the memory map, the walk over the MADT, the
-- files of an archive and the directories left between them, and the wait for a serial port. The
-- theorems on strcmp, strtok, walk_path, the memory map, the MADT and the serial port ask for enough fuel,
-- and show that the loop then returns. Every other loop is bounded by the program's own count and
-- is structural recursion on it; the search for exported symbols takes as many steps as its range
-- has bytes.
--
-- Parameters. The functions behind fops (Calls, which Boot.Drivers fills), what devices answer
-- (Devices), the handlers of device interrupts, load_module and the entry of a module in the system
-- calls (Env), the value that rax has when a function ends with no return, the user half of memory
-- behind new page tables and the contents of new blocks (Fresh), and addresses that the linker or
-- the stack fixes are arguments.
--
-- Not modelled. The instructions that load the processor's tables and segment registers; the
-- words that the boot code puts on its first stack; the formatting of messages, which is the
-- copied printf; and the headers taken from elsewhere (elf.h, multiboot.h), whose offsets are
-- written where they are used.
pub mod Base
pub mod Mm
pub mod Str
pub mod Machine
pub mod Fs
pub mod Io
pub mod Syscalls
pub mod Idt
pub mod Tar
pub mod Apic
pub mod Acpi
pub mod Boot
pub mod Serial
pub mod Elf
pub mod Modules
pub mod Proc
pub mod Asm
