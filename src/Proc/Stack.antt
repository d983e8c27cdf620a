-- ===== src/Proc/Stack.antt =====
-- kernel/proc/exec_process.c: the places on the initial stack of a program.
use modos.Base.{ℕ, ◌+◌, ◌-◌, ◌*◌, ◌^◌, ◌<◌, ◌≤◌, ◌≡◌, ◌≢◌, arith, ne→==, low12, clear12}
use modos.Mm.Layout.{page_size}
use modos.Fs.{Process}
use modos.Proc.{stack_layout, stack_pages, user_stack_top, minus}

-- Sizes that leave room on the stack.
pub record IsSmall (p : Process) : Type 0 where
  pub arglen : p.arglen < 2 ^ 40
  pub envlen : p.envlen < 2 ^ 40
  pub argc : p.argc < 2 ^ 40
  pub envc : p.envc < 2 ^ 40
  pub auxc : p.auxc < 2 ^ 40

stack_pages_lem :
    (user_stack : ℕ)
    → user_stack ≤ user_stack_top
    → low12 (user_stack_top - user_stack) ≢ 0
    → user_stack_top < clear12 user_stack + page_size * stack_pages user_stack
unfolding stack_pages
stack_pages_lem user_stack a ne =
    let size : minus user_stack_top user_stack ≡ user_stack_top - user_stack = omega (arith, a) in
    rw (size, ne→== (low12 (user_stack_top - user_stack)) 0 ne) (omega (arith, a, ne))

-- For sizes below 2^40: the words on the initial stack, argc, the pointers to the arguments and to the
-- environment, the auxiliary vector, and their null entries, end where the environment's strings begin,
-- these end where the arguments' strings begin, and these end at USER_STACK_TOP. When the stack
-- does not take a whole number of pages, the pages that are mapped for it start at or below its first
-- word and end above USER_STACK_TOP.
pub stack_layout_lem :
    (p : Process)
    → IsSmall p
    → ((stack_layout p).user_stack + 8 * (5 + p.argc + p.envc + 2 * p.auxc)
        ≡ (stack_layout p).envvs)
      × ((stack_layout p).envvs + p.envlen ≡ (stack_layout p).argvs)
      × ((stack_layout p).argvs + p.arglen ≡ user_stack_top)
      × (clear12 (stack_layout p).user_stack ≤ (stack_layout p).user_stack)
      × (low12 (user_stack_top - (stack_layout p).user_stack) ≢ 0
          → user_stack_top
            < clear12 (stack_layout p).user_stack
              + page_size * stack_pages (stack_layout p).user_stack)
unfolding stack_layout
stack_layout_lem p s = (
  omega (arith, s.arglen, s.envlen, s.argc, s.envc, s.auxc),
  omega (arith, s.arglen, s.envlen),
  omega (arith, s.arglen),
  omega arith,
  (λ h.
      stack_pages_lem (stack_layout p).user_stack
        (omega (arith, s.arglen, s.envlen, s.argc, s.envc, s.auxc)) h),
)
