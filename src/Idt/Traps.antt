-- ===== src/Idt/Traps.antt =====
-- kernel/traps/enable_traps.c: the handlers and gates of the processor's exceptions.
use mathlib.Core.Path.{subst}
use modos.Base.{
  ℕ, zero, suc, ◌+◌, ◌≤◌, ◌<◌, ◌≡◌, ◌≢◌, ◌⊎◌, inl, inr, refl, sym, ap, ◌∙◌, arith, true, false,
  some, ◌==◌, write, write_self, write_ne, lt→ltb, Bool-cases, ==_iff,
}
use modos.Idt.{
  Gate, Idt, idt_len, gate_user, gate_flags, register_handler, default_traps, enable_traps,
  trap_pgf,
}

-- The gate that register_handler leaves when the shim stays.
abbrev registered : Gate → Gate
registered g = record g { flags = gate_flags gate_user true; ist = 0 }

-- Handler and gate number `j` of a state.
pub record IsTrap (s : Idt) (j h : ℕ) (s' : Idt) : Type 0 where
  pub handler : s'.handlers j ≡ h
  pub gate : s'.idt j ≡ registered (s.idt j)

pub record IsKept (s : Idt) (j : ℕ) (s' : Idt) : Type 0 where
  pub handler : s'.handlers j ≡ s.handlers j
  pub gate : s'.idt j ≡ s.idt j

abbrev after : ℕ → ℕ → Idt → Idt
after handler i s = record {
  idt = write s.idt i (registered (s.idt i));
  handlers = write s.handlers i handler;
}

register_lem :
    (handler i : ℕ) (s : Idt)
    → i < idt_len
    → register_handler handler i true 0 false s ≡ some (0, after handler i s)
unfolding register_handler
register_lem handler i s h = rw (lt→ltb i idt_len h) refl

after-IsTrap : (handler i : ℕ) (s : Idt) → IsTrap s i handler (after handler i s)
after-IsTrap handler i s = record {
  handler = write_self s.handlers i handler;
  gate = write_self s.idt i (registered (s.idt i));
}

after-IsKept : (handler i j : ℕ) (s : Idt) → i ≢ j → IsKept s j (after handler i s)
after-IsKept handler i j s ne = record {
  handler = write_ne s.handlers i handler j ne;
  gate = write_ne s.idt i (registered (s.idt i)) j ne;
}

IsKept-IsTrap :
    (s s1 s' : Idt) (j handler : ℕ) → IsKept s j s1 → IsTrap s1 j handler s' → IsTrap s j handler s'
IsKept-IsTrap s s1 s' j handler k t = record {
  handler = t.handler;
  gate = t.gate ∙ ap registered k.gate;
}

IsTrap-IsKept :
    (s s1 s' : Idt) (j handler : ℕ) → IsTrap s j handler s1 → IsKept s1 j s' → IsTrap s j handler s'
IsTrap-IsKept s s1 s' j handler t k = record {
  handler = k.handler ∙ t.handler;
  gate = k.gate ∙ t.gate;
}

IsKept-IsKept : (s s1 s' : Idt) (j : ℕ) → IsKept s j s1 → IsKept s1 j s' → IsKept s j s'
IsKept-IsKept s s1 s' j a b = record { handler = b.handler ∙ a.handler; gate = b.gate ∙ a.gate }

default_traps_lem :
    (handler left i : ℕ) (s : Idt)
    → i + left ≤ idt_len
    → (s' : Idt) × (default_traps handler left i s ≡ some s')
      × ((j : ℕ) → i ≤ j → j < i + left → IsTrap s j handler s')
      × ((j : ℕ) → (j < i) ⊎ (i + left ≤ j) → IsKept s j s')
unfolding default_traps
default_traps_lem handler zero i s h =
    (s, refl, (λ j a b. absurd (omega arith)), (λ j c. record { handler = refl; gate = refl }))
default_traps_lem handler (suc left) i s h =
    let s1 = after handler i s in
    let (s', run, done, kept) = default_traps_lem handler left (i + 1) s1 (omega arith) in
    (
      s',
      rw (default_traps, register_lem handler i s (omega arith)) run,
      (λ j a b. elim (Bool-cases (i == j)) [
        | inl e ↦
            subst (λ k. IsTrap s k handler s') ((==_iff i j).0 e)
              (IsTrap-IsKept s s1 s' i handler (after-IsTrap handler i s)
                (kept i (inl (omega arith))))
        | inr ne ↦
            IsKept-IsTrap s s1 s' j handler (after-IsKept handler i j s (ground (arith, ne)))
              (done j (ground (arith, ne)) (omega arith))
      ]),
      (λ j c.
          IsKept-IsKept s s1 s' j (after-IsKept handler i j s (omega (arith, c)))
            (kept j (omega (arith, c)))),
    )

-- enable_traps returns. After it, exception 14 has the page fault handler, every other number below
-- 0x20 the default handler, all of them with present trap gates that user code may call and no
-- stack of their own, and every other entry is as before.
pub enable_traps_lem :
    (default_trap_handler page_fault_handler : ℕ) (s : Idt)
    → (s' : Idt) × (enable_traps default_trap_handler page_fault_handler s ≡ some s')
      × IsTrap s trap_pgf page_fault_handler s'
      × ((j : ℕ) → j < 0x20 → j ≢ trap_pgf → IsTrap s j default_trap_handler s')
      × ((j : ℕ) → 0x20 ≤ j → IsKept s j s')
unfolding enable_traps
enable_traps_lem handler fault s =
    let (s1, run, done, kept) = default_traps_lem handler 0x20 0 s (omega arith) in
    let s' = after fault trap_pgf s1 in
    let pgf = done trap_pgf (omega arith) (omega arith) in
    (
      s',
      rw (enable_traps, run, register_lem fault trap_pgf s1 (omega arith)) refl,
      record {
        handler = (after-IsTrap fault trap_pgf s1).handler;
        gate = (after-IsTrap fault trap_pgf s1).gate ∙ ap registered pgf.gate;
      },
      (λ j a ne.
          IsTrap-IsKept s s1 s' j handler (done j (omega arith) (omega arith))
            (after-IsKept fault trap_pgf j s1 (λ e. ne (sym e)))),
      (λ j a.
          IsKept-IsKept s s1 s' j (kept j (inr (omega arith)))
            (after-IsKept fault trap_pgf j s1 (omega arith))),
    )
