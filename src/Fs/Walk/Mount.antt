-- ===== src/Fs/Walk/Mount.antt =====
-- kernel/fs/walk_path.c: the mount of a node.
use modos.Base.{ℕ, zero, suc, ◌<◌, ◌≡◌, ◌≢◌, refl, arith, true, false, some, ne→==}
use modos.Fs.{World}
use modos.Fs.Access.{load_node_lem}
use modos.Fs.Walk.{get_mount}

-- `depth` steps up from a node lies its nearest mounted ancestor, with this mount; no node on the
-- way is NULL.
pub data Nearest (w : World) : ℕ → ℕ → ℕ → Type 0 where
  here :
      (node : ℕ)
      → node ≢ 0
      → (w.nodes node).is_mount ≡ true
      → Nearest w zero node (w.nodes node).mount
  above :
      (depth node mount : ℕ)
      → node ≢ 0
      → (w.nodes node).is_mount ≡ false
      → Nearest w depth (w.nodes node).parent mount
      → Nearest w (suc depth) node mount

-- With fuel for the way up to the nearest mounted ancestor, get_mount returns its mount and
-- changes nothing.
pub get_mount-Nearest :
    (fuel depth node mount : ℕ) (w : World)
    → Nearest w depth node mount
    → depth < fuel
    → get_mount fuel node w ≡ some (mount, w)
unfolding get_mount
get_mount-Nearest zero depth node mount w n h = absurd (omega arith)
get_mount-Nearest (suc fuel) zero node mount w (here p given top) h =
    rw (load_node_lem node given w, top, ne→== node 0 given) refl
get_mount-Nearest (suc fuel) (suc depth) node mount w (above d p m given inner up) h =
    rw (load_node_lem node given w, inner, ne→== node 0 given)
      (get_mount-Nearest fuel depth (w.nodes node).parent mount w up (omega arith))
