-- ===== src/Idt/Gates.antt =====
-- kernel/idt/register_handler.c: the gates after enable_idt.
use mathlib.Core.Path.{subst}
use modos.Base.{
  ℕ, zero, suc, ◌+◌, ◌*◌, ◌^◌, ◌≤◌, ◌<◌, ◌≡◌, refl, ◌∙◌, arith, true, some, ◌==◌, if◌then◌else◌,
  write, write_self, write_ne, lt→ltb, has_bit, Bool-cases, ==_iff, inl, inr,
}
use modos.Idt.{
  Gate, Idt, idt_len, gate_kernel, gdt_kernel_code, gate_flags, set_offset, new_gate, load_idtentry,
  enable_idt_from, enable_idt,
}

-- The address that a gate jumps to.
abbrev pub target : Gate → ℕ
target g = g.offset_0_15 + g.offset_16_31 * 2 ^ 16 + g.offset_32_63 * 2 ^ 32

-- A gate of the kernel's code segment for `handler`, made from an old gate: one that is present
-- keeps its flags and stack, and any other becomes a trap gate of the kernel.
pub record IsEnabled (old : Gate) (handler : ℕ) (new : Gate) : Type 0 where
  pub reaches : target new ≡ handler
  pub segment : new.segment_select ≡ gdt_kernel_code
  pub flags : new.flags ≡ (if has_bit 7 old.flags then old.flags else gate_flags gate_kernel true)
  pub stack : new.ist ≡ (if has_bit 7 old.flags then old.ist else 0)

new_gate-IsEnabled :
    (old : Gate) (handler : ℕ)
    → handler < 2 ^ 64
    → IsEnabled old handler (new_gate old handler true 0)
unfolding new_gate set_offset
new_gate-IsEnabled old handler h = record {
  reaches = omega (arith, h);
  segment = refl;
  flags = refl;
  stack = refl;
}

module _ (entries : ℕ → ℕ) (words : (i : ℕ) → entries i < 2 ^ 64) where
  load_lem :
      (i : ℕ) (s : Idt)
      → i < idt_len
      → load_idtentry entries i true 0 s
        ≡ some (0, record s { idt = write s.idt i (new_gate (s.idt i) (entries i) true 0) })
  unfolding load_idtentry
  load_lem i s h = rw (lt→ltb i idt_len h) refl

  from_lem :
      (left i : ℕ) (s : Idt)
      → i + left ≤ idt_len
      → (s' : Idt) × (enable_idt_from entries left i s ≡ some s')
        × (s'.handlers ≡ s.handlers)
        × ((j : ℕ) → i ≤ j → j < i + left → IsEnabled (s.idt j) (entries j) (s'.idt j))
        × ((j : ℕ) → j < i → s'.idt j ≡ s.idt j)
  unfolding enable_idt_from
  from_lem zero i s h = (s, refl, refl, (λ j a b. absurd (omega arith)), (λ j a. refl))
  from_lem (suc left) i s h =
      let g = new_gate (s.idt i) (entries i) true 0 in
      let s1 : Idt = record s { idt = write s.idt i g } in
      let (s', run, same, done, before) = from_lem left (i + 1) s1 (omega arith) in
      (
        s',
        rw (enable_idt_from, load_lem i s (omega arith)) run,
        same,
        (λ j a b. elim (Bool-cases (i == j)) [
          | inl e ↦
              let ij = (==_iff i j).0 e in
              subst (λ k. IsEnabled (s.idt k) (entries k) (s'.idt k)) ij
                (rw (before i (omega arith), write_self s.idt i g)
                  (new_gate-IsEnabled (s.idt i) (entries i) (words i)))
          | inr ne ↦
              let step = done j (ground (arith, ne)) (omega arith) in
              rw (write_ne s.idt i g j (ground (arith, ne))) at step
        ]),
        (λ j a. before j (omega arith) ∙ write_ne s.idt i g j (omega arith)),
      )

  -- When the addresses of the shims are words, enable_idt returns, and then every one of the 255 gates leads to its shim in the kernel's code
  -- segment: a gate that was present keeps its flags and stack, any other is a trap gate of the
  -- kernel. The handlers are as before.
  pub enable_idt_lem :
      (s : Idt)
      → (s' : Idt) × (enable_idt entries s ≡ some s')
        × (s'.handlers ≡ s.handlers)
        × ((j : ℕ) → j < idt_len → IsEnabled (s.idt j) (entries j) (s'.idt j))
  unfolding enable_idt
  enable_idt_lem s =
      let (s', run, same, done, before) = from_lem 0xFF 0 s (omega arith) in
      (s', run, same, (λ j h. done j (omega arith) (omega arith)))
