-- ===== src/Proc/Tests.antt =====
-- Instances of the theorems on the start of a program.
use modos.Base.{ℕ, ◌+◌, ◌-◌, ◌*◌, ◌<◌, ◌≤◌, ◌≡◌, ◌≢◌, arith, some, low12, clear12}
use modos.Mm.Layout.{page_size}
use modos.Mm.Arena
use modos.Fs.{World, Process}
use modos.Fs.Sample.{sample, sample_heap, sample_process}
use modos.Proc.{Fresh, stack_layout, stack_pages, user_stack_top, renew_fds}
use modos.Proc.Stack.{stack_layout_lem}
use modos.Proc.Descriptors.{table_block, renew_fds_lem}

-- One argument of 9 bytes.
abbrev one_argument : Process
one_argument = record sample_process { argc = 1; arglen = 9 }

stack_layout_lem_example :
    ((stack_layout one_argument).user_stack + 8 * 6 ≡ (stack_layout one_argument).envvs)
    × ((stack_layout one_argument).envvs + 0 ≡ (stack_layout one_argument).argvs)
    × ((stack_layout one_argument).argvs + 9 ≡ user_stack_top)
    × (clear12 (stack_layout one_argument).user_stack ≤ (stack_layout one_argument).user_stack)
    × (low12 (user_stack_top - (stack_layout one_argument).user_stack) ≢ 0
        → user_stack_top
          < clear12 (stack_layout one_argument).user_stack
            + page_size * stack_pages (stack_layout one_argument).user_stack)
stack_layout_lem_example = stack_layout_lem one_argument (record {
  arglen = omega arith;
  envlen = omega arith;
  argc = omega arith;
  envc = omega arith;
  auxc = omega arith;
})

-- Room for a table of descriptors in the block that kmalloc cuts from, and one descriptor.
abbrev with_room : World
with_room = record sample {
  heap = record sample_heap { current_size = 0x10_0000 };
  procs = λ pid. record sample_process { fdtable = λ fd. 5; n_fds = 1 };
}

abbrev empty_block : Fresh
empty_block = record { cr3 = 0; user = λ a. 0; block = λ fd. 0; hdr = 0 }

room : table_block with_room ≢ 0
unfolding Arena.kmalloc
room = omega arith

renew_fds_lem_example :
    (w' : World) × (renew_fds empty_block 1 with_room ≡ some (tt, w'))
    × ((w'.procs 1).n_fds ≡ 1)
    × (1 ≢ with_room.current_pid → (fd : ℕ) → fd < 1 → (w'.procs 1).fdtable fd ≡ 5)
    × (1 ≡ with_room.current_pid → (fd : ℕ) → (w'.procs 1).fdtable fd ≡ 0)
renew_fds_lem_example = renew_fds_lem empty_block 1 with_room room
