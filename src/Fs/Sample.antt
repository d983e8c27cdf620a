-- ===== src/Fs/Sample.antt =====
-- A small state of kernel/fs to run it on: the root directory, mounted, with a path to it.
use modos.Base.{ℕ, ◌+◌, ◌==◌, ◌||◌, if◌then◌else◌, true, false}
use modos.Base.{[]}
use modos.Machine.{Board, no_regs}
use modos.Idt.{Gate}
use modos.Mm.Arena.{Heap, vm_begin_request}
use modos.Fs.{World, VfsNode, Fops, Process, Calls, pure}
use modos.Fs.NodeType.{vfs_dir, vfs_file}

abbrev pub sample_heap : Heap
sample_heap = record {
  vm = record {
    paging = record {
      space = record {
        mem = λ a. 0;
        pm = record { arena_begin = 0x1000; arena_head = 0x2000; arena_end = 0x10_0000 };
        toplevel = 0x1000;
      };
      caches = record {
        cached_pml4e_offset = 0;
        cached_pdpte_offset = 0;
        cached_pde_offset = 0;
        cached_pml4e_table = 0;
        cached_pdpte_table = 0;
        cached_pde_table = 0;
      };
    };
    vm_arena_head = vm_begin_request + 0x1000;
  };
  current_base = vm_begin_request;
  current_offset = 0x100;
  current_size = 0x1000;
}

-- The root, with no children and room for them at 0x5000.
abbrev pub sample_root : VfsNode
sample_root = record {
  node_type = vfs_dir;
  is_mount = true;
  fops = 0x300;
  name = 0;
  offset = 0;
  parent = 0;
  mount = 7;
  children = 0x5000;
  n_children = 0;
  symlink = 0;
  major = 0;
  minor = 0;
}

abbrev pub sample_fops : Fops
sample_fops = record { read = 1; write = 2; open_fn = 0; mkdir = 3 }

abbrev pub sample_process : Process
sample_process = record {
  id = 1;
  argv = 0;
  argc = 0;
  arglen = 0;
  envv = 0;
  envc = 0;
  envlen = 0;
  auxv = 0;
  auxc = 0;
  mappings = 0;
  mappings_len = 0;
  entry_point = 0;
  regs = no_regs;
  kernel_stack = 0;
  cr3_phys = 0;
  root = 0x100;
  cwd = 0x100;
  fdtable = λ fd. 0;
  n_fds = 0;
}

abbrev pub sample_board : Board
sample_board = record {
  lapics = λ i. 0;
  cpu_n = 0;
  ioapics = λ i. record { id = 0; ioapic_regs = 0; gsid_base = 0; relocate_len = 0 };
  n_ioapics = 0;
  legacymaps = λ i. record { legacy_irq = 0; gsi_irq = 0 };
  n_legacymaps = 0;
  rsdt = 0;
  madt = 0;
}

abbrev pub no_gate : Gate
no_gate = record {
  offset_0_15 = 0;
  segment_select = 0;
  ist = 0;
  flags = 0;
  offset_16_31 = 0;
  offset_32_63 = 0;
  reserved = 0;
}

-- All bytes are 0, so every address is that of an empty string.
abbrev pub sample : World
sample = record {
  mem = λ a. 0;
  nodes = λ p. sample_root;
  files = λ p. record { vnode = 0; mountpoint = 0 };
  fops_at = λ p. sample_fops;
  mapping_at = λ p. record { begin = 0; end = 0; data_ref = 0; flags = 0 };
  heap = sample_heap;
  gfids = λ id. 0;
  n_gfids = 1;
  procs = λ pid. sample_process;
  current_pid = 1;
  board = sample_board;
  idt = record { idt = λ i. no_gate; handlers = λ i. 0 };
  irq_handlers = λ i. 0;
  ebda_begin = 0;
  serial_port = 0;
  state_flags = 0;
  n_procs = 1;
  trace = [];
}

-- Drivers that answer with the length they are asked for.
abbrev pub sample_calls : Calls
sample_calls = record {
  call_open = λ f node file. pure 0;
  call_mkdir = λ f parent child. pure 0;
  call_read = λ f file buf len offset. pure len;
  call_write = λ f file buf len offset. pure len;
}

-- A root with the one child "ba" at 0x5000, and the path "b" at 0x200.
abbrev pub texts : ℕ → ℕ
texts a = if a == 0x200 || a == 0x400 then 0x62 else if a == 0x401 then 0x61 else 0

abbrev pub child_file : VfsNode
child_file = record sample_root {
  node_type = vfs_file;
  is_mount = false;
  name = 0x400;
  parent = 0x100;
}

abbrev pub one_child : World
one_child = record sample {
  mem = texts;
  nodes = λ p. if p == 0x100 then record sample_root { n_children = 1 } else child_file;
}
