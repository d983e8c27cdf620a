-- ===== src/Asm/Frame.antt =====
-- include/asm/int_shim.h: the registers that SAVE_REGS puts on the stack, as struct regs has them, and
-- those that RESTORE_REGS takes from there.
use mathlib.Core.Path.{fun_ext}
use modos.Base.{
  ℕ, suc, Option, some, ◌+◌, ◌*◌, ◌^◌, ◌≤◌, ◌<◌, ◌≡◌, ◌⊎◌, inl, inr, refl, ap, ◌∙◌, arith, List, [],
  ◌∷◌, length, u64, Bool-cases, ◌==◌, ==_iff,
}
use modos.Str.{Memory}
use modos.Str.Words.{load16, load32, load64, store64}
use modos.Str.Stored.{load64-store64, store64-outside}
use modos.Asm.{
  Reg, rbp, r15, r14, r13, r12, r11, r10, r9, r8, rsi, rdi, rdx, rcx, rbx, rax, field_of, Core,
  set_reg, push, pop, push_all, pop_all, saved, restored, save_regs, restore_regs, add_rsp,
  load_regs, reg_of, call, top,
}

-- A word depends on its eight bytes.
pub load64-same :
    (m m' : Memory) (p : ℕ) → ((a : ℕ) → p ≤ a → a < p + 8 → m' a ≡ m a) → load64 m' p ≡ load64 m p
unfolding load64 load32 load16
load64-same m m' p same =
    rw
      (
        same p (omega arith) (omega arith),
        same (p + 1) (omega arith) (omega arith),
        same (p + 2) (omega arith) (omega arith),
        same (p + 2 + 1) (omega arith) (omega arith),
        same (p + 4) (omega arith) (omega arith),
        same (p + 4 + 1) (omega arith) (omega arith),
        same (p + 4 + 2) (omega arith) (omega arith),
        same (p + 4 + 2 + 1) (omega arith) (omega arith),
      )
      refl

-- `mem` with the stack at `rsp`.
abbrev pub with_stack : Core → (rsp : ℕ) → Memory → Core
with_stack c rsp mem = record c { rsp = rsp; world = record c.world { mem = mem } }

-- The registers `rs` stand in the words from `f` on, the last one lowest.
abbrev Stacked : List Reg → (f : ℕ) → Memory → (Reg → ℕ) → Type 0
Stacked [] f mem gpr = Unit {0}
Stacked (r ∷ rs) f mem gpr = (load64 mem (f + 8 * length rs) ≡ gpr r) × Stacked rs f mem gpr

abbrev pub AllWords : (Reg → ℕ) → Type 0
AllWords gpr = (r : Reg) → gpr r < 2 ^ 64

pub push_lem :
    (p v : ℕ) (c : Core)
    → c.rsp ≡ p + 8
    → c.rsp < 2 ^ 64
    → push v c ≡ with_stack c p (store64 p v c.world.mem)
unfolding push
push_lem p v c at fits =
    let next : u64 (c.rsp + 0xFFFF_FFFF_FFFF_FFF8) ≡ p = omega (arith, at, fits) in
    ap (λ q. with_stack c q (store64 q v c.world.mem)) next

push_all_lem :
    (rs : List Reg) (f : ℕ) (c : Core)
    → c.rsp ≡ f + 8 * length rs
    → c.rsp < 2 ^ 64
    → AllWords c.gpr
    → (mem : Memory) × (push_all rs c ≡ with_stack c f mem)
      × Stacked rs f mem c.gpr
      × ((a : ℕ) → (a < f) ⊎ (c.rsp ≤ a) → mem a ≡ c.world.mem a)
unfolding push_all push
push_all_lem [] f c at fits words =
    let here : c.rsp ≡ f = omega (arith, at) in
    (c.world.mem, ap (λ p. with_stack c p c.world.mem) here, tt, (λ a out. refl))
push_all_lem (r ∷ rs) f c at fits words =
    let p = f + 8 * length rs in
    let next : u64 (c.rsp + 0xFFFF_FFFF_FFFF_FFF8) ≡ p = omega (arith, at, fits) in
    let m1 = store64 p (c.gpr r) c.world.mem in
    let (mem, run, stacked, outside) =
      push_all_lem rs f (with_stack c p m1) refl (omega (arith, at, fits)) words in
    (
      mem,
      ap (λ q. push_all rs (with_stack c q (store64 q (c.gpr r) c.world.mem))) next ∙ run,
      (
        load64-same m1 mem p (λ a lo hi. outside a (inr lo))
            ∙ load64-store64 p (c.gpr r) c.world.mem (words r),
        stacked,
      ),
      (λ a out.
          outside a (omega (arith, out, at))
          ∙ store64-outside p (c.gpr r) c.world.mem a (omega (arith, out, at))),
    )

-- The registers are the words of the struct regs at `f`.
abbrev pub IsFrame : (f : ℕ) → Memory → (Reg → ℕ) → Type 0
IsFrame f mem gpr = (r : Reg) → load64 mem (f + 8 * field_of r) ≡ gpr r

Stacked-IsFrame :
    (f : ℕ) (mem : Memory) (gpr : Reg → ℕ) → Stacked saved f mem gpr → IsFrame f mem gpr
unfolding field_of
Stacked-IsFrame f mem gpr
      (
        at_rax,
        (
          at_rbx,
          (
            at_rcx,
            (
              at_rdx,
              (
                at_rdi,
                (
                  at_rsi,
                  (
                    at_r8,
                    (
                      at_r9,
                      (at_r10, (at_r11, (at_r12, (at_r13, (at_r14, (at_r15, (at_rbp, u))))))),
                    ),
                  ),
                ),
              ),
            ),
          ),
        ),
      ) =
    λ r. elim r as (λ q. load64 mem (f + 8 * field_of q) ≡ gpr q) [
      | rax ↦ at_rax
      | rbx ↦ at_rbx
      | rcx ↦ at_rcx
      | rdx ↦ at_rdx
      | rdi ↦ at_rdi
      | rsi ↦ at_rsi
      | r8 ↦ at_r8
      | r9 ↦ at_r9
      | r10 ↦ at_r10
      | r11 ↦ at_r11
      | r12 ↦ at_r12
      | r13 ↦ at_r13
      | r14 ↦ at_r14
      | r15 ↦ at_r15
      | rbp ↦ at_rbp
    ]

-- SAVE_REGS, with room for the registers below the stack pointer.
pub save_regs_lem :
    (f : ℕ) (c : Core)
    → c.rsp ≡ f + 0x78
    → c.rsp < 2 ^ 64
    → AllWords c.gpr
    → (mem : Memory) × (save_regs c ≡ with_stack c f mem)
      × IsFrame f mem c.gpr
      × ((a : ℕ) → (a < f) ⊎ (f + 0x78 ≤ a) → mem a ≡ c.world.mem a)
unfolding save_regs
save_regs_lem f c at fits words =
    let (mem, run, stacked, outside) = push_all_lem saved f c at fits words in
    (mem, run, Stacked-IsFrame f mem c.gpr stacked, (λ a out. outside a (omega (arith, out, at))))

-- The registers after those of `rs` were set to the words from word `i` at `f` on.
abbrev read_all : List Reg → (i f : ℕ) → Memory → (Reg → ℕ) → Reg → ℕ
read_all [] i f mem gpr = gpr
read_all (r ∷ rs) i f mem gpr = read_all rs (i + 1) f mem (set_reg r (load64 mem (f + 8 * i)) gpr)

pop_all_lem :
    (rs : List Reg) (i f : ℕ) (c : Core)
    → c.rsp ≡ f + 8 * i
    → f + 8 * (i + length rs) < 2 ^ 64
    → pop_all rs c
      ≡ record c { gpr = read_all rs i f c.world.mem c.gpr; rsp = f + 8 * (i + length rs) }
unfolding pop_all pop
pop_all_lem [] i f c at fits =
    let here : c.rsp ≡ f + 8 * (i + 0) = omega (arith, at) in ap (λ p. record c { rsp = p }) here
pop_all_lem (r ∷ rs) i f c at fits =
    let next : u64 (c.rsp + 8) ≡ f + 8 * (i + 1) = omega (arith, at, fits) in
    let end : i + 1 + length rs ≡ i + suc (length rs) = omega arith in
    let gpr = set_reg r (load64 c.world.mem (f + 8 * i)) c.gpr in
    let step =
      pop_all_lem rs (i + 1) f (record c { gpr = gpr; rsp = f + 8 * (i + 1) }) refl
        (omega (arith, fits)) in
    ap
      (λ q.
        pop_all rs
          (record c { gpr = set_reg r (load64 c.world.mem q) c.gpr; rsp = u64 (c.rsp + 8) }))
      at
    ∙ ap (λ q. pop_all rs (record c { gpr = gpr; rsp = q })) next
    ∙ step
    ∙ ap (λ n. record c { gpr = read_all (r ∷ rs) i f c.world.mem c.gpr; rsp = f + 8 * n }) end

-- The words of the struct regs at `f`, as the registers.
abbrev pub frame_regs : (f : ℕ) → Memory → Reg → ℕ
frame_regs f mem r = load64 mem (f + 8 * field_of r)

read_all-restored :
    (f : ℕ) (mem : Memory) (gpr : Reg → ℕ) (r : Reg)
    → read_all restored 0 f mem gpr r ≡ frame_regs f mem r
unfolding set_reg field_of
read_all-restored f mem gpr r =
    elim r as (λ q. read_all restored 0 f mem gpr q ≡ frame_regs f mem q) [
      | rax ↦ refl
      | rbx ↦ refl
      | rcx ↦ refl
      | rdx ↦ refl
      | rdi ↦ refl
      | rsi ↦ refl
      | r8 ↦ refl
      | r9 ↦ refl
      | r10 ↦ refl
      | r11 ↦ refl
      | r12 ↦ refl
      | r13 ↦ refl
      | r14 ↦ refl
      | r15 ↦ refl
      | rbp ↦ refl
    ]

-- RESTORE_REGS, which also drops the two words above the registers.
pub restore_regs_lem :
    (f : ℕ) (c : Core)
    → c.rsp ≡ f
    → f + 0x88 < 2 ^ 64
    → restore_regs c ≡ record c { gpr = frame_regs f c.world.mem; rsp = f + 0x88 }
unfolding restore_regs add_rsp
restore_regs_lem f c at fits =
    let end : u64 (f + 8 * 15 + 0x10) ≡ f + 0x88 = omega (arith, fits) in
    ap (λ (d : Core). add_rsp 0x10 d)
      (pop_all_lem restored 0 f c (omega (arith, at)) (omega (arith, fits)))
    ∙ ap
        (λ (p : ℕ).
          let d : Core = record c { gpr = read_all restored 0 f c.world.mem c.gpr; rsp = p } in d)
        end
    ∙ ap (λ (g : Reg → ℕ). let d : Core = record c { gpr = g; rsp = f + 0x88 } in d)
        (fun_ext (read_all-restored f c.world.mem c.gpr))

pub field_of-lt : (r : Reg) → field_of r < 15
unfolding field_of
field_of-lt r = elim r as (λ q. field_of q < 15) [
  | rax ↦ omega arith
  | rbx ↦ omega arith
  | rcx ↦ omega arith
  | rdx ↦ omega arith
  | rdi ↦ omega arith
  | rsi ↦ omega arith
  | r8 ↦ omega arith
  | r9 ↦ omega arith
  | r10 ↦ omega arith
  | r11 ↦ omega arith
  | r12 ↦ omega arith
  | r13 ↦ omega arith
  | r14 ↦ omega arith
  | r15 ↦ omega arith
  | rbp ↦ omega arith
]

-- What C code finds in the struct regs.
pub load_regs-IsFrame :
    (f : ℕ) (mem : Memory) (gpr : Reg → ℕ) → IsFrame f mem gpr → reg_of (load_regs mem f) ≡ gpr
unfolding load_regs reg_of field_of
load_regs-IsFrame f mem gpr frame = fun_ext λ r.
    elim r as (λ q. reg_of (load_regs mem f) q ≡ gpr q) [
      | rax ↦ frame rax
      | rbx ↦ frame rbx
      | rcx ↦ frame rcx
      | rdx ↦ frame rdx
      | rdi ↦ frame rdi
      | rsi ↦ frame rsi
      | r8 ↦ frame r8
      | r9 ↦ frame r9
      | r10 ↦ frame r10
      | r11 ↦ frame r11
      | r12 ↦ frame r12
      | r13 ↦ frame r13
      | r14 ↦ frame r14
      | r15 ↦ frame r15
      | rbp ↦ frame rbp
    ]

-- A frame in whose word for rax the value `v` was put, with its other bytes as they were.
pub frame_regs-store :
    (f v : ℕ) (m m' : Memory) (gpr : Reg → ℕ)
    → v < 2 ^ 64
    → IsFrame f m gpr
    → ((a : ℕ) → f ≤ a → a < f + 0x78 → m' a ≡ m a)
    → frame_regs f (store64 (f + 0x70) v m') ≡ set_reg rax v gpr
unfolding set_reg field_of
frame_regs-store f v m m' gpr small frame same = fun_ext go
  where
    go : (r : Reg) → frame_regs f (store64 (f + 0x70) v m') r ≡ set_reg rax v gpr r
    go r = elim (Bool-cases (field_of r == 14)) [
      | inl is_rax ↦
          let at : f + 8 * field_of r ≡ f + 0x70 =
            omega (arith, (==_iff (field_of r) 14).0 is_rax) in
          rw is_rax
            (ap (load64 (store64 (f + 0x70) v m')) at ∙ load64-store64 (f + 0x70) v m' small)
      | inr other ↦
          let below : field_of r < 14 = ground (arith, other, field_of-lt r) in
          rw other (
            load64-same m (store64 (f + 0x70) v m') (f + 8 * field_of r) (λ a lo hi.
              store64-outside (f + 0x70) v m' a (inl (omega arith))
              ∙ same a (omega arith) (omega arith))
            ∙ frame r)
    ]

-- A call of a function that returns.
pub call_lem :
    (function : ℕ → Core → Option Core) (return_at address : ℕ) (c c' : Core)
    → function address (push return_at c) ≡ some c'
    → call function return_at address c ≡ some (record c' { rip = top c'; rsp = u64 (c'.rsp + 8) })
unfolding call
call_lem function return_at address c c' run = rw (call, run) refl
