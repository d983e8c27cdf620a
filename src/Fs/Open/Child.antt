-- ===== src/Fs/Open/Child.antt =====
-- kernel/fs/open.c and kernel/fs/walk_path.c: a node put behind a directory's children, and the search
-- of the children afterwards.
use mathlib.Core.Path.{subst}
use mathlib.Core.Option.{or_else}
use modos.Base.{
  ℕ, zero, suc, ◌+◌, ◌*◌, ◌^◌, ◌≤◌, ◌<◌, ◌≡◌, ◌≢◌, inl, inr, refl, sym, ◌∙◌, arith, Bool, true,
  false, not, ◌&&◌, Option, none, some, ◌==◌, Bool-cases, write, write_self, write_ne, u64,
}
use modos.Base.Int.{pos}
use modos.Str.{Memory, strncmp, int_eq}
use modos.Fs.{World, VfsNode, node_size}
use modos.Fs.Access.{load_node_lem, store_node_lem, not_null_lem}
use modos.Fs.Walk.{find_child}
use modos.Fs.Open.{append_child}

-- Whether a node has a name that strncmp takes for the element.
abbrev pub is_named : Memory → VfsNode → (path_elem len : ℕ) → Bool
is_named mem n path_elem len =
    not (n.name == 0) && int_eq (strncmp mem n.name path_elem len) (pos 0)

-- The address when the test holds.
abbrev pub when : Bool → ℕ → Option ℕ
when true p = some p
when false p = none

-- The children before and after the array has one more.
module _ (w : World) (nodes' : ℕ → VfsNode) (children path_elem len n : ℕ) (new : VfsNode)
    (given : children ≢ 0)
    (kept : (i : ℕ)
      → i < n
      → nodes' (children + i * node_size) ≡ w.nodes (children + i * node_size))
    (added : nodes' (children + n * node_size) ≡ new) where
  -- What the search of the first `k` children from number `i` on finds afterwards.
  abbrev Finds : (k i : ℕ) → Option ℕ → Type 0
  Finds k i r =
      find_child k i children path_elem len (record w { nodes = nodes' })
      ≡ some (r, record w { nodes = nodes' })

  find_added : Finds 1 n (when (is_named w.mem new path_elem len) (children + n * node_size))
  unfolding find_child
  find_added =
      let w' = record w { nodes = nodes' } in
      let p = children + n * node_size in
      rw (not_null_lem children given w', load_node_lem p (omega (arith, given)) w', added)
        (elim (Bool-cases (is_named w.mem new path_elem len)) [
          | inl named ↦ rw named refl
          | inr other ↦ rw other refl
        ])

  find_child-after :
      (left i : ℕ)
      → i + left ≡ n
      → (r : Option ℕ) × (find_child left i children path_elem len w ≡ some (r, w))
        × Finds
            (left + 1)
            i
            (or_else r (when (is_named w.mem new path_elem len) (children + n * node_size)))
  unfolding find_child or_else
  find_child-after zero i all =
      let here : n ≡ i = omega arith in
      (
        none,
        refl,
        subst (λ j. Finds 1 j (when (is_named w.mem new path_elem len) (children + n * node_size)))
            here find_added,
      )
  find_child-after (suc left) i all =
      let (r, run, run') = find_child-after left (i + 1) (omega arith) in
      let p = children + i * node_size in
      let w' = record w { nodes = nodes' } in
      let count : suc left + 1 ≡ suc (left + 1) = omega arith in
      let at = load_node_lem p (omega (arith, given)) w in
      let at' = load_node_lem p (omega (arith, given)) w' in
      elim (Bool-cases (is_named w.mem (w.nodes p) path_elem len)) [
        | inl named ↦ (
          some p,
          rw (not_null_lem children given w, at, named) refl,
          rw (count, not_null_lem children given w', at', kept i (omega arith), named) refl,
        )
        | inr other ↦ (
          r,
          rw (not_null_lem children given w, at, other) run,
          rw (count, not_null_lem children given w', at', kept i (omega arith), other) run',
        )
      ]

module _ (w : World) (parent node path_elem len : ℕ) where
  -- For a directory with an array for its children, which has no other node and not the directory itself
  -- in it: append_child returns, the directory has one child more, and a search of its children
  -- gives what it gave before, and where it gave nothing the new child when that is named as
  -- the element; the new child is as the given node was.
  pub append_child-find_child :
      parent ≢ 0
      → node ≢ 0
      → (w.nodes parent).children ≢ 0
      → (w.nodes parent).n_children + 1 < 2 ^ 64
      → ((i : ℕ)
          → i ≤ (w.nodes parent).n_children
          → (w.nodes parent).children + i * node_size ≢ parent)
      → (r : Option ℕ) × (w' : World) × (find_child
            (w.nodes parent).n_children
            0
            (w.nodes parent).children
            path_elem
            len
            w
          ≡ some (r, w))
        × (append_child parent node w ≡ some (tt, w'))
        × (w'.nodes parent
            ≡ record (w.nodes parent) { n_children = (w.nodes parent).n_children + 1 })
        × (w'.nodes ((w.nodes parent).children + (w.nodes parent).n_children * node_size)
            ≡ w.nodes node)
        × (find_child (w'.nodes parent).n_children 0 (w'.nodes parent).children path_elem len w'
            ≡ some (
              or_else r (
                  when
                    (is_named w.mem (w.nodes node) path_elem len)
                    ((w.nodes parent).children + (w.nodes parent).n_children * node_size)),
              w',
            ))
  unfolding append_child
  append_child-find_child a b c room apart =
      let p = w.nodes parent in
      let slot = p.children + p.n_children * node_size in
      let p' : VfsNode = record p { n_children = p.n_children + 1 } in
      let w1 : World = record w { nodes = write w.nodes slot (w.nodes node) } in
      let w' : World = record w1 { nodes = write w1.nodes parent p' } in
      let fits : u64 (p.n_children + 1) ≡ p.n_children + 1 = omega (arith, room) in
      let own : w1.nodes parent ≡ p =
        write_ne w.nodes slot (w.nodes node) parent (apart p.n_children (omega arith)) in
      let at_parent : w'.nodes parent ≡ p' = write_self w1.nodes parent p' in
      let at_slot : w'.nodes slot ≡ w.nodes node =
        write_ne w1.nodes parent p' slot (λ e. apart p.n_children (omega arith) (sym e))
        ∙ write_self w.nodes slot (w.nodes node) in
      let (r, run, run') =
        find_child-after w w'.nodes p.children path_elem len p.n_children (w.nodes node) c
          (λ i below.
            write_ne w1.nodes parent p' (p.children + i * node_size)
              (λ e. apart i (omega arith) (sym e))
            ∙ write_ne w.nodes slot (w.nodes node) (p.children + i * node_size) (omega arith))
          at_slot p.n_children 0 (omega arith) in
      (
        r,
        w',
        run,
        rw
            (
              load_node_lem parent a w,
              load_node_lem node b w,
              not_null_lem p.children c w,
              store_node_lem slot (omega (arith, c)) w (w.nodes node),
              load_node_lem parent a w1,
              own,
              fits,
            )
            (store_node_lem parent a w1 p'),
        at_parent,
        at_slot,
        rw at_parent run',
      )
