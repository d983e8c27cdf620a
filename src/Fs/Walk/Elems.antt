-- ===== src/Fs/Walk/Elems.antt =====
-- kernel/fs/walk_path.c: the walk of a path through directories.
use modos.Base.{
  ℕ, zero, suc, ◌+◌, ◌≤◌, ◌<◌, ◌≡◌, ◌≢◌, ◌⊎◌, inl, inr, refl, ◌∙◌, ap, arith, Option, none, some,
  ne→==,
}
use modos.Str.{Memory}
use modos.Fs.{World, M}
use modos.Fs.NodeType.{vfs_file, vfs_dir, vfs_cdev}
use modos.Fs.Access.{load_node_lem}
use modos.Fs.Path.{next_elem, next_elem_from, slash}
use modos.Fs.Walk.{walk_elems}
use modos.Fs.Walk.Child.{First, First-find_child}

-- The element of a path at `p` has `len` bytes, and `next` is the address behind its slash, or
-- NULL at the end of the path.
pub data Element (mem : Memory) : ℕ → ℕ → ℕ → Type 0 where
  at_end : (p : ℕ) → mem p ≡ 0 → Element mem p 0 0
  at_slash : (p : ℕ) → mem p ≡ slash → Element mem p 0 (p + 1)
  further :
      (p len next : ℕ)
      → mem p ≢ 0
      → mem p ≢ slash
      → Element mem (p + 1) len next
      → Element mem p (suc len) next

next_elem_from-Element :
    (fuel : ℕ) (mem : Memory) (p len next k : ℕ)
    → Element mem p len next
    → len < fuel
    → next_elem_from fuel mem p k ≡ some (next, k + len)
unfolding next_elem_from
next_elem_from-Element zero mem p len next k e h = absurd (omega arith)
next_elem_from-Element (suc fuel) mem p zero next k (at_end q z) h =
    rw z (ap (λ n. some (0, n)) (omega arith))
next_elem_from-Element (suc fuel) mem p zero next k (at_slash q s) h =
    rw s (ap (λ n. some (p + 1, n)) (omega arith))
next_elem_from-Element (suc fuel) mem p (suc len) next k (further q l n a b e) h =
    rw (ne→== (mem p) 0 a, ne→== (mem p) slash b)
      (next_elem_from-Element fuel mem (p + 1) len next (k + 1) e (omega arith)
        ∙ ap (λ n. some (next, n)) (omega arith))

-- With fuel for the element, next_elem returns its length and where the next one begins, and
-- changes nothing.
pub next_elem-Element :
    (fuel p len next : ℕ) (w : World)
    → Element w.mem p len next
    → len < fuel
    → next_elem fuel p w ≡ some ((next, len), w)
unfolding next_elem
next_elem-Element fuel p len next w e h =
    rw (next_elem, next_elem_from-Element fuel w.mem p len next 0 e h)
      (ap (λ n. some ((next, n), w)) (omega arith))

-- What a walk from a node by the elements from `elem` on comes to, as the code decides it: to
-- the first child whose name begins as the rest of the path does in `len` bytes, from where the next element is
-- compared in as many bytes as the element just entered has. No node on the way is a symbolic link.
pub data Walks (w : World) : ℕ → ℕ → ℕ → Option ℕ → Type 0 where
  arrives : (node len : ℕ) → Walks w node 0 len (some node)
  no_directory :
      (node elem len : ℕ)
      → node ≢ 0
      → elem ≢ 0
      → ((w.nodes node).node_type ≡ vfs_file) ⊎ ((w.nodes node).node_type ≡ vfs_cdev)
      → Walks w node elem len none
  not_found :
      (node elem len : ℕ)
      → node ≢ 0
      → elem ≢ 0
      → (w.nodes node).node_type ≡ vfs_dir
      → (w.nodes node).children ≢ 0
      → First w (w.nodes node).children elem len (w.nodes node).n_children 0 none
      → Walks w node elem len none
  enters :
      (node elem len child len' next : ℕ) (r : Option ℕ)
      → node ≢ 0
      → elem ≢ 0
      → (w.nodes node).node_type ≡ vfs_dir
      → (w.nodes node).children ≢ 0
      → First w (w.nodes node).children elem len (w.nodes node).n_children 0 (some child)
      → Element w.mem elem len' next
      → Walks w child next len' r
      → Walks w node elem len r

-- A walk of the relation is one that the code takes: with enough fuel, whatever the walk of
-- symbolic links does, walk_elems returns the node, or NULL, and changes nothing.
pub walk_elems-Walks :
    (w : World) (node elem len : ℕ) (r : Option ℕ)
    → Walks w node elem len r
    → (enough : ℕ) × ((walk : ℕ → ℕ → M ℕ) (fuel : ℕ)
        → enough ≤ fuel
        → walk_elems walk fuel node elem len w ≡ some (r, w))
unfolding walk_elems
walk_elems-Walks w node elem len r (arrives n l) = (1, go)
  where
    go :
        (walk : ℕ → ℕ → M ℕ) (fuel : ℕ)
        → 1 ≤ fuel
        → walk_elems walk fuel node 0 len w ≡ some (some node, w)
    go walk zero h = absurd (omega arith)
    go walk (suc fuel) h = refl
walk_elems-Walks w node elem len r (no_directory n e l given more type) = (1, go type)
  where
    go :
        ((w.nodes node).node_type ≡ vfs_file) ⊎ ((w.nodes node).node_type ≡ vfs_cdev)
        → (walk : ℕ → ℕ → M ℕ) (fuel : ℕ) → 1 ≤ fuel
        → walk_elems walk fuel node elem len w ≡ some (none, w)
    go t walk zero h = absurd (omega arith)
    go (inl file) walk (suc fuel) h =
        rw (walk_elems, ne→== elem 0 more, load_node_lem node given w, file) refl
    go (inr device) walk (suc fuel) h =
        rw (walk_elems, ne→== elem 0 more, load_node_lem node given w, device) refl
walk_elems-Walks w node elem len r (not_found n e l given more type room first) = (1, go)
  where
    go :
        (walk : ℕ → ℕ → M ℕ) (fuel : ℕ)
        → 1 ≤ fuel
        → walk_elems walk fuel node elem len w ≡ some (none, w)
    go walk zero h = absurd (omega arith)
    go walk (suc fuel) h =
        rw
          (
            walk_elems,
            ne→== elem 0 more,
            load_node_lem node given w,
            type,
            First-find_child w (w.nodes node).children elem len _ 0 none room first,
          )
          refl
walk_elems-Walks w node elem len r
      (enters n e l child len' next r' given more type room first at rest) =
    let (enough, run) = walk_elems-Walks w child next len' r rest in
    (suc (enough + suc len'), go enough run)
  where
    go :
        (enough : ℕ)
        → ((walk : ℕ → ℕ → M ℕ) (fuel : ℕ)
            → enough ≤ fuel
            → walk_elems walk fuel child next len' w ≡ some (r, w))
        → (walk : ℕ → ℕ → M ℕ) (fuel : ℕ) → suc (enough + suc len') ≤ fuel
        → walk_elems walk fuel node elem len w ≡ some (r, w)
    go enough run walk zero h = absurd (omega arith)
    go enough run walk (suc fuel) h =
        rw
          (
            walk_elems,
            ne→== elem 0 more,
            load_node_lem node given w,
            type,
            First-find_child w (w.nodes node).children elem len _ 0 (some child) room first,
            next_elem-Element fuel elem len' next w at (omega arith),
          )
          (run walk fuel (omega arith))
