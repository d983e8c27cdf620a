-- ===== src/Asm/Stack.antt =====
-- kernel/mm/vm/switch_stack.S: the move of the kernel's stack to other memory.
use modos.Base.{
  ℕ, ◌+◌, ◌-◌, ◌^◌, ◌≤◌, ◌<◌, ◌≡◌, ◌⊎◌, inr, refl, ap, ◌∙◌, arith, Option, none, some, u64,
}
use modos.Str.{Memory, memcpy}
use modos.Str.Bytes.{memcpy-IsCopy}
use modos.Str.Words.{load16, load32, load64, store64}
use modos.Str.Stored.{load64-store64, store64-outside}
use modos.Asm.{rdi, rsi, rdx, rbx, rax, field_of, Core, set_reg, mov, push, call, top}
use modos.Asm.Frame.{load64-same, call_lem}

-- `mov` of a register to memory.
abbrev store : ℕ → ℕ → Core → Core
store p v c = record c { world = record c.world { mem = store64 p v c.world.mem } }

unfoldable pub ret : Core → Core
ret c = record c { rip = top c; rsp = u64 (c.rsp + 8) }

-- switch_stack up to the call of memcpy, with the addresses of its two variables.
unfoldable pub stack_enter : (stack_top stack_bottom : ℕ) → Core → Core
stack_enter stack_top stack_bottom c =
    let c1 = mov rbx (c.gpr rsi) c in
    let c2 = mov rdx (load64 c1.world.mem stack_top) c1 in
    let c3 = store stack_bottom (c2.gpr rdi) c2 in
    let c4 = store stack_top (c3.gpr rsi) c3 in
    let c5 = mov rdi (c4.gpr rsi) c4 in
    let c6 = mov rdx (u64 (c5.gpr rdx + (0x1_0000_0000_0000_0000 - c5.rsp))) c5 in
    let c7 = mov rsi c6.rsp c6 in
    mov rdi (u64 (c7.gpr rdi + (0x1_0000_0000_0000_0000 - c7.gpr rdx))) c7

module _ (function : ℕ → Core → Option Core) (return_at memcpy_at : ℕ) where
  unfoldable pub switch_stack : (stack_top stack_bottom : ℕ) → Core → Option Core
  switch_stack stack_top stack_bottom c =
      elim (call function return_at memcpy_at (stack_enter stack_top stack_bottom c)) [
        | none ↦ none
        | some c1 ↦ some (ret (record c1 { rsp = c1.gpr rax }))
      ]

-- The same word at another place.
load64-moved :
    (m m' : Memory) (p q : ℕ)
    → ((i : ℕ) → i < 8 → m' (p + i) ≡ m (q + i))
    → load64 m' p ≡ load64 m q
unfolding load64 load32 load16
load64-moved m m' p q same =
    let at : (a b i : ℕ) → a ≡ p + i → q + i ≡ b → i < 8 → m' a ≡ m b =
      λ a b i from to lt. ap m' from ∙ same i lt ∙ ap m to in
    rw
      (
        at p q 0 (omega arith) (omega arith) (omega arith),
        at (p + 1) (q + 1) 1 refl refl (omega arith),
        at (p + 2) (q + 2) 2 refl refl (omega arith),
        at (p + 2 + 1) (q + 2 + 1) 3 (omega arith) (omega arith) (omega arith),
        at (p + 4) (q + 4) 4 refl refl (omega arith),
        at (p + 4 + 1) (q + 4 + 1) 5 (omega arith) (omega arith) (omega arith),
        at (p + 4 + 2) (q + 4 + 2) 6 (omega arith) (omega arith) (omega arith),
        at (p + 4 + 2 + 1) (q + 4 + 2 + 1) 7 (omega arith) (omega arith) (omega arith),
      )
      refl

-- A stack of `used` bytes under the old top, and place for it under the new one, which is in rsi. The two
-- variables, the old stack with a word and `frame` bytes below it, and the new one are apart.
pub record HasPlace (stack_top stack_bottom used frame : ℕ) (c : Core) : Type 0 where
  pub old : load64 c.world.mem stack_top ≡ c.rsp + used
  pub full : 8 ≤ used
  pub room : frame + 8 ≤ c.rsp
  pub old_lt : c.rsp + used < 2 ^ 64
  pub place : used ≤ c.gpr rsi
  pub place_lt : c.gpr rsi < 2 ^ 64
  pub bottom_lt : c.gpr rdi < 2 ^ 64
  pub apart : (c.gpr rsi + frame + 8 ≤ c.rsp) ⊎ (c.rsp + used + used ≤ c.gpr rsi)
  pub variables : (stack_top + 8 ≤ stack_bottom) ⊎ (stack_bottom + 8 ≤ stack_top)
  pub top_old : (stack_top + frame + 16 ≤ c.rsp) ⊎ (c.rsp + used ≤ stack_top)
  pub bottom_old : (stack_bottom + frame + 16 ≤ c.rsp) ⊎ (c.rsp + used ≤ stack_bottom)
  pub top_new : (stack_top + 8 ≤ c.gpr rsi - used) ⊎ (c.gpr rsi ≤ stack_top)
  pub bottom_new : (stack_bottom + 8 ≤ c.gpr rsi - used) ⊎ (c.gpr rsi ≤ stack_bottom)

module _ (function : ℕ → Core → Option Core)
    (return_at memcpy_at stack_top stack_bottom used frame : ℕ) (c : Core)
    (h : HasPlace stack_top stack_bottom used frame c) where
  -- The state in which memcpy starts.
  abbrev pub started : Core
  started = push return_at (stack_enter stack_top stack_bottom c)

  -- The lower end of the new stack.
  abbrev pub moved : ℕ
  moved = c.gpr rsi - used

  abbrev kept_mem : Memory
  kept_mem =
      store64 (c.rsp - 8) return_at
        (store64 stack_top (c.gpr rsi) (store64 stack_bottom (c.gpr rdi) c.world.mem))

  started_lem :
      (started.gpr rdi ≡ moved)
      × (started.gpr rsi ≡ c.rsp)
      × (started.gpr rdx ≡ used)
      × (started.rsp ≡ c.rsp - 8)
      × (started.world.mem ≡ kept_mem)
  unfolding stack_enter set_reg field_of push
  started_lem =
      let below : u64 (c.rsp + 0xFFFF_FFFF_FFFF_FFF8) ≡ c.rsp - 8 =
        omega (arith, h.room, h.old_lt) in
      let size : u64 (load64 c.world.mem stack_top + (0x1_0000_0000_0000_0000 - c.rsp)) ≡ used =
        omega (arith, h.old, h.old_lt) in
      let lower : u64 (c.gpr rsi + (0x1_0000_0000_0000_0000 - used)) ≡ moved =
        omega (arith, h.place, h.place_lt) in
      (
        ap (λ (n : ℕ). u64 (c.gpr rsi + (0x1_0000_0000_0000_0000 - n))) size ∙ lower,
        refl,
        size,
        below,
        ap
            (λ (p : ℕ).
              store64 p return_at
                (store64 stack_top (c.gpr rsi) (store64 stack_bottom (c.gpr rdi) c.world.mem)))
            below,
      )

  -- The old stack, as memcpy finds it.
  old_stack : (a : ℕ) → c.rsp ≤ a → a < c.rsp + used → kept_mem a ≡ c.world.mem a
  old_stack a lo hi =
      let m1 = store64 stack_bottom (c.gpr rdi) c.world.mem in
      let m2 = store64 stack_top (c.gpr rsi) m1 in
      store64-outside (c.rsp - 8) return_at m2 a (inr (omega (arith, h.room, lo)))
      ∙ store64-outside stack_top (c.gpr rsi) m1 a (omega (arith, h.top_old, lo, hi))
      ∙ store64-outside stack_bottom (c.gpr rdi) c.world.mem a (omega (arith, h.bottom_old, lo, hi))

  abbrev copied : Memory
  copied = memcpy moved c.rsp used kept_mem

  copied_lem :
      ((i : ℕ) → i < used → copied (moved + i) ≡ c.world.mem (c.rsp + i))
      × (load64 copied stack_top ≡ c.gpr rsi)
      × (load64 copied stack_bottom ≡ c.gpr rdi)
  copied_lem =
      let m1 = store64 stack_bottom (c.gpr rdi) c.world.mem in
      let m2 = store64 stack_top (c.gpr rsi) m1 in
      let copy = memcpy-IsCopy used moved c.rsp kept_mem (omega (arith, h.apart, h.place)) in
      (
        (λ i lt. copy.inside i lt ∙ old_stack (c.rsp + i) (omega arith) (omega (arith, lt))),
        load64-same m2 copied stack_top (λ a lo hi.
              copy.outside a (omega (arith, h.top_new, h.place, lo, hi))
              ∙ store64-outside (c.rsp - 8) return_at m2 a
                  (omega (arith, h.top_old, h.room, h.full, lo, hi)))
            ∙ load64-store64 stack_top (c.gpr rsi) m1 h.place_lt,
        load64-same m1 copied stack_bottom (λ a lo hi.
              copy.outside a (omega (arith, h.bottom_new, h.place, lo, hi))
              ∙ store64-outside (c.rsp - 8) return_at m2 a
                  (omega (arith, h.bottom_old, h.room, h.full, lo, hi))
              ∙ store64-outside stack_top (c.gpr rsi) m1 a (omega (arith, h.variables, lo, hi)))
            ∙ load64-store64 stack_bottom (c.gpr rdi) c.world.mem h.bottom_lt,
      )

  -- When memcpy is called and behaves as it is modelled outside its own `frame` bytes of stack:
  -- switch_stack returns to where its caller called it, with the stack pointer as far below the new top as
  -- it was below the old one, every byte of the old stack at the same distance from the top of the
  -- new one, and the two variables set to the new stack.
  pub switch_stack-moved :
      (d : Core)
      → function memcpy_at started ≡ some d
      → d.gpr rax ≡ started.gpr rdi
      → ((a : ℕ)
          → (a + frame < started.rsp) ⊎ (started.rsp ≤ a)
          → d.world.mem a
            ≡ memcpy (started.gpr rdi) (started.gpr rsi) (started.gpr rdx) started.world.mem a)
      → (c' : Core) × (switch_stack function return_at memcpy_at stack_top stack_bottom c ≡ some c')
        × (c'.rip ≡ load64 c.world.mem c.rsp)
        × (c'.rsp + used ≡ c.gpr rsi + 8)
        × ((i : ℕ) → i < used → c'.world.mem (c.gpr rsi - used + i) ≡ c.world.mem (c.rsp + i))
        × (load64 c'.world.mem stack_top ≡ c.gpr rsi)
        × (load64 c'.world.mem stack_bottom ≡ c.gpr rdi)
  unfolding switch_stack ret
  switch_stack-moved d ran dest copies =
      let (at_rdi, at_rsi, at_rdx, at_rsp, at_mem) = started_lem in
      let (inside, top_word, bottom_word) = copied_lem in
      let same_copy : memcpy (started.gpr rdi) (started.gpr rsi) (started.gpr rdx) started.world.mem
          ≡ copied =
        rw (at_rdi, at_rsi, at_rdx, at_mem) refl in
      let here : (a : ℕ) → (a + frame < c.rsp - 8) ⊎ (c.rsp - 8 ≤ a) → d.world.mem a ≡ copied a =
        λ a out. copies a (omega (arith, at_rsp, out)) ∙ ap (λ (m : Memory). m a) same_copy in
      let new : (i : ℕ) → i < used → d.world.mem (moved + i) ≡ c.world.mem (c.rsp + i) =
        λ i lt. here (moved + i) (omega (arith, h.apart, h.place, h.room, lt)) ∙ inside i lt in
      let at_moved = dest ∙ at_rdi in
      (
        ret (record d { rip = top d; rsp = d.gpr rax }),
        ap
            (λ (o : Option Core). elim o [
              | none ↦ none
              | some c1 ↦ some (ret (record c1 { rsp = c1.gpr rax }))
            ])
            (call_lem function return_at memcpy_at (stack_enter stack_top stack_bottom c) d ran),
        ap (load64 d.world.mem) at_moved
            ∙ load64-moved c.world.mem d.world.mem moved c.rsp
                (λ i lt. new i (omega (arith, lt, h.full))),
        omega (arith, at_moved, h.place, h.place_lt, h.full),
        new,
        load64-same copied d.world.mem stack_top
              (λ a lo hi. here a (omega (arith, h.top_old, h.room, h.full, lo, hi)))
            ∙ top_word,
        load64-same copied d.world.mem stack_bottom
              (λ a lo hi. here a (omega (arith, h.bottom_old, h.room, h.full, lo, hi)))
            ∙ bottom_word,
      )
