-- ===== src/Fs.antt =====
-- kernel/fs: the nodes of the virtual file system, open files and their global table, over a
-- memory of structures by address. A program is a state monad that may fault: at a NULL pointer,
-- out of an array, or out of the fuel given to a loop.
pub mod Gfid
pub mod Path
pub mod Walk
pub mod Open
pub mod Chrdev
pub mod Access
pub mod Sample
pub mod Pages
mod Tests
use modos.Base.{
  ℕ, ◌+◌, ◌*◌, Bool, List, Option, none, some, ◌==◌, ◌&&◌, ◌||◌, not, if◌then◌else◌, write,
}
use modos.Base.Int.{ℤ}
use modos.Str.{Memory}
use modos.Str
use modos.Machine.{Regs, Event, Board}
use modos.Idt.{Idt}
use modos.Mm.Arena
use modos.Mm.Arena.{Heap}

-- enum vfs_node_types
pub data NodeType : Type 0 where
  vfs_file vfs_dir vfs_sym vfs_cdev : NodeType

-- struct file; pointers are addresses
pub record File : Type 0 where
  pub vnode : ℕ
  pub mountpoint : ℕ

-- struct fops, its function pointers as numbers, 0 for NULL
pub record Fops : Type 0 where
  pub read : ℕ
  pub write : ℕ
  pub open_fn : ℕ
  pub mkdir : ℕ

-- struct vfs_node
pub record VfsNode : Type 0 where
  pub node_type : NodeType
  pub is_mount : Bool
  pub fops : ℕ
  pub name : ℕ
  pub offset : ℕ
  pub parent : ℕ
  pub mount : ℕ
  pub children : ℕ
  pub n_children : ℕ
  pub symlink : ℕ
  pub major : ℕ
  pub minor : ℕ

-- struct process_mapping
pub record Mapping : Type 0 where
  pub begin : ℕ
  pub end : ℕ
  pub data_ref : ℕ
  pub flags : ℕ

-- struct process. The entries behind fdtable stand in it.
pub record Process : Type 0 where
  pub id : ℕ
  pub argv : ℕ
  pub argc : ℕ
  pub arglen : ℕ
  pub envv : ℕ
  pub envc : ℕ
  pub envlen : ℕ
  pub auxv : ℕ
  pub auxc : ℕ
  pub mappings : ℕ
  pub mappings_len : ℕ
  pub entry_point : ℕ
  pub regs : Regs
  pub kernel_stack : ℕ
  pub cr3_phys : ℕ
  pub root : ℕ
  pub cwd : ℕ
  pub fdtable : ℕ → ℕ
  pub n_fds : ℕ

-- Memory, one map for each type of object, the globals, and what devices were asked.
pub record World : Type 0 where
  pub mem : Memory
  pub nodes : ℕ → VfsNode
  pub files : ℕ → File
  pub fops_at : ℕ → Fops
  pub mapping_at : ℕ → Mapping
  pub heap : Heap
  pub gfids : ℕ → ℕ
  pub n_gfids : ℕ
  pub procs : ℕ → Process
  pub current_pid : ℕ
  pub board : Board
  pub idt : Idt
  pub irq_handlers : ℕ → ℕ
  pub ebda_begin : ℕ
  pub serial_port : ℕ
  pub state_flags : ℕ
  pub n_procs : ℕ
  pub trace : List Event

-- GFID_MAX, FD_MAX, CHRDEV_MAJOR_MAX, CHILD_MAX
abbrev pub gfid_max : ℕ
gfid_max = 0x10000

abbrev pub fd_max : ℕ
fd_max = 0x1000

abbrev pub chrdev_major_max : ℕ
chrdev_major_max = 0x100

abbrev pub child_max : ℕ
child_max = 0x1000

-- sizeof(struct vfs_node), sizeof(struct file), sizeof(struct fops)
abbrev pub node_size : ℕ
node_size = 88

abbrev pub file_size : ℕ
file_size = 16

abbrev pub fops_size : ℕ
fops_size = 32

abbrev pub M : Type 0 → Type 0
M A = World → Option (A × World)

abbrev pub pure : {A : Type 0} → A → M A
pure a w = some (a, w)

abbrev pub fault : {A : Type 0} → M A
fault w = none

abbrev pub and_then : {A B : Type 0} → Option (A × World) → (A → M B) → Option (B × World)
and_then none f = none
and_then (some (a, w)) f = f a w

infixl 5 ◌>>=◌ ◌>>◌
abbrev pub ◌>>=◌ : {A B : Type 0} → M A → (A → M B) → M B
m >>= f = λ w. and_then (m w) f

abbrev pub ◌>>◌ : {B : Type 0} → M (Unit {0}) → M B → M B
m >> k = m >>= λ _. k

-- Reads and writes of structures; NULL faults.
unfoldable pub load_node : ℕ → M VfsNode
load_node p w = if p == 0 then none else some (w.nodes p, w)

unfoldable pub store_node : ℕ → VfsNode → M (Unit {0})
store_node p n w = if p == 0 then none else some (tt, record w { nodes = write w.nodes p n })

unfoldable pub load_file : ℕ → M File
load_file p w = if p == 0 then none else some (w.files p, w)

unfoldable pub store_file : ℕ → File → M (Unit {0})
store_file p f w = if p == 0 then none else some (tt, record w { files = write w.files p f })

abbrev pub gets : {A : Type 0} → (World → A) → M A
gets f w = some (f w, w)

unfoldable pub kmalloc : ℕ → M ℕ
kmalloc size w = let (p, heap') = Arena.kmalloc size w.heap in some (p, record w { heap = heap' })

-- A pointer that the code goes through.
unfoldable pub not_null : ℕ → M (Unit {0})
not_null p w = if p == 0 then none else some (tt, w)

-- A copy of no bytes reads no pointer.
unfoldable pub memcpy : ℕ → ℕ → ℕ → M (Unit {0})
memcpy dest src n w =
    if (dest == 0 || src == 0) && not (n == 0)
    then none
    else some (tt, record w { mem = Str.memcpy dest src n w.mem })

unfoldable pub strlen : ℕ → ℕ → M ℕ
strlen fuel p w =
    if p == 0 then none else elim (Str.strlen fuel w.mem p) [ none ↦ none | some n ↦ some (n, w) ]

unfoldable pub strcmp : ℕ → ℕ → ℕ → M ℤ
strcmp fuel p1 p2 w =
    if p1 == 0 || p2 == 0
    then none
    else elim (Str.strcmp fuel w.mem p1 p2) [ none ↦ none | some d ↦ some (d, w) ]

-- `p[i] = c`
unfoldable pub store_byte : ℕ → ℕ → M (Unit {0})
store_byte p c w = if p == 0 then none else some (tt, record w { mem = write w.mem p c })

unfoldable pub load_fops : ℕ → M Fops
load_fops p w = if p == 0 then none else some (w.fops_at p, w)

-- current_process, state.procs[state.current_pid]
abbrev pub current_process : World → Process
current_process w = w.procs w.current_pid

unfoldable pub update_process : ℕ → (Process → Process) → M (Unit {0})
update_process pid f w = some (tt, record w { procs = write w.procs pid (f (w.procs pid)) })

abbrev pub store_process : Process → M (Unit {0})
store_process p w = some (tt, record w { procs = write w.procs w.current_pid p })

-- The functions that fops point to, by the number of the function: the drivers' own code. The
-- result of open and mkdir is an int and that of read and write a signed 64-bit number, by their
-- unsigned values.
pub record Calls : Type 0 where
  pub call_open : ℕ → ℕ → ℕ → M ℕ
  pub call_mkdir : ℕ → ℕ → ℕ → M ℕ
  pub call_read : ℕ → ℕ → ℕ → ℕ → ℕ → M ℕ
  pub call_write : ℕ → ℕ → ℕ → ℕ → ℕ → M ℕ
