-- ===== src/Fs/Walk/Whole.antt =====
-- kernel/fs/walk_path.c: walk_path as a whole, from the copy of the path to the open file.
use mathlib.Core.List.{append-nil}
use mathlib.Core.Path.{subst}
use modos.Base.{
  ℕ, zero, suc, ◌+◌, ◌≤◌, ◌<◌, ◌≡◌, ◌≢◌, ◌⊎◌, refl, sym, ◌∙◌, arith, Option, none, some, eq→==,
  ne→==, List, [], length, write,
}
use modos.Str
use modos.Str.{Memory}
use modos.Str.Bytes.{memcpy-IsCopy}
use modos.Str.Strings.{CString, CString-copy, strlen_lem}
use modos.Mm.Arena
use modos.Fs.{
  World, M, pure, ◌>>=◌, ◌>>◌, file_size, strlen, memcpy, kmalloc, store_file, current_process,
}
use modos.Fs.Access.{store_file_lem}
use modos.Fs.Path.{slash}
use modos.Fs.Walk.{get_mount, check_path_init, resolve, walk_path}
use modos.Fs.Walk.Mount.{Nearest, get_mount-Nearest}
use modos.Fs.Walk.Elems.{Element, Walks, next_elem-Element, walk_elems-Walks}

-- Where a walk starts: slashes at the front lead to the root.
pub data Starts (w : World) : (node path node' path' : ℕ) → Type 0 where
  here : (node path : ℕ) → w.mem path ≢ slash → Starts w node path node path
  at_root :
      (node path node' path' : ℕ)
      → w.mem path ≡ slash
      → Starts w (current_process w).root (path + 1) node' path'
      → Starts w node path node' path'

check_path_init-Starts :
    (w : World) (node path node' path' : ℕ)
    → Starts w node path node' path'
    → (enough : ℕ) × ((fuel : ℕ)
        → enough ≤ fuel
        → check_path_init fuel node path w ≡ some ((node', path'), w))
unfolding check_path_init
check_path_init-Starts w node path node' path' (here n p no_slash) = (1, go)
  where
    go : (fuel : ℕ) → 1 ≤ fuel → check_path_init fuel n p w ≡ some ((n, p), w)
    go zero h = absurd (omega arith)
    go (suc fuel) h = rw (ne→== (w.mem p) slash no_slash) refl
check_path_init-Starts w node path node' path' (at_root n p n' p' is_slash rest) =
    let (enough, run) = check_path_init-Starts w (current_process w).root (p + 1) n' p' rest in
    (suc enough, go enough run)
  where
    go :
        (enough : ℕ)
        → ((fuel : ℕ)
            → enough ≤ fuel
            → check_path_init fuel (current_process w).root (p + 1) w ≡ some ((n', p'), w))
        → (fuel : ℕ) → suc enough ≤ fuel
        → check_path_init fuel n p w ≡ some ((n', p'), w)
    go enough run zero h = absurd (omega arith)
    go enough run (suc fuel) h = rw (eq→== (w.mem p) slash is_slash) (run fuel (omega arith))

-- What a path of `n` bytes at `path` leads to from a directory: the empty one to the directory itself, and
-- another one by its elements from where it starts.
pub data Leads (w : World) (dir path : ℕ) : ℕ → Option ℕ → Type 0 where
  empty : Leads w dir path 0 (some dir)
  walks :
      (n node elem len next : ℕ) (r : Option ℕ)
      → n ≢ 0
      → Starts w dir path node elem
      → Element w.mem elem len next
      → Walks w node elem len r
      → Leads w dir path n r

resolve-Leads :
    (w : World) (dir path n : ℕ) (r : Option ℕ)
    → Leads w dir path n r
    → (enough : ℕ) × ((walk : ℕ → ℕ → M ℕ) (fuel : ℕ)
        → enough ≤ fuel
        → resolve walk fuel dir path n w ≡ some (r, w))
unfolding resolve
resolve-Leads w dir path n r empty = (0, λ walk fuel h. refl)
resolve-Leads w dir path n r (walks k node elem len next s more starts element walk_there) =
    let (a, start) = check_path_init-Starts w dir path node elem starts in
    let (b, run) = walk_elems-Walks w node elem len s walk_there in
    (
      a + suc len + b,
      (λ walk fuel h.
          rw
            (
              resolve,
              ne→== k 0 more,
              start fuel (omega arith),
              next_elem-Element fuel elem len next w element (omega arith),
            )
            (run walk fuel (omega arith))),
    )

-- The block for the file, and the state with it and the copy of a path of `n` bytes.
abbrev pub file_block : World → ℕ
file_block w = (Arena.kmalloc file_size w.heap).0

abbrev pub copy_block : ℕ → World → ℕ
copy_block n w = (Arena.kmalloc n (Arena.kmalloc file_size w.heap).1).0

abbrev pub copied : (n path : ℕ) → World → World
copied n path w =
    let (p, heap) = Arena.kmalloc n (Arena.kmalloc file_size w.heap).1 in
    record w { heap = heap; mem = Str.memcpy p path n w.mem }

-- The string at `path`, and memory for walk_path: the copy of the path gets no NUL byte, so one must
-- stand behind its block.
pub record HasCopy (w : World) (path : ℕ) (s : List ℕ) : Type 0 where
  pub given : path ≢ 0
  pub string : CString w.mem path s
  pub file : file_block w ≢ 0
  pub block : copy_block (length s) w ≢ 0
  pub apart : (copy_block (length s) w ≤ path) ⊎ (path + length s ≤ copy_block (length s) w)
  pub ends : w.mem (copy_block (length s) w + length s) ≡ 0

copied-CString :
    (w : World) (path : ℕ) (s : List ℕ)
    → HasCopy w path s
    → CString (copied (length s) path w).mem (copy_block (length s) w) s
copied-CString w path s h =
    let p = copy_block (length s) w in
    let copy = memcpy-IsCopy (length s) p path w.mem h.apart in
    let all = subst (λ t. CString w.mem path t) (sym (append-nil s)) h.string in
    CString-copy s [] w.mem (copied (length s) path w).mem path p all copy.inside
      (copy.outside (p + length s) (omega arith) ∙ h.ends)

-- What walk_path makes of the node that a path leads to: NULL of none, and else the file, which
-- is the node with the mount of its nearest mounted ancestor.
pub data Opens (w : World) (f : ℕ) : Option ℕ → ℕ → World → Type 0 where
  no_node : Opens w f none 0 w
  at_node :
      (depth node mount : ℕ)
      → Nearest w depth node mount
      → Opens w f
          (some node)
          f
          (record w { files = write w.files f (record { vnode = node; mountpoint = mount }) })

strlen_run :
    (s : List ℕ) (fuel p : ℕ) (w : World)
    → p ≢ 0
    → CString w.mem p s
    → length s < fuel
    → strlen fuel p w ≡ some (length s, w)
unfolding strlen
strlen_run s fuel p w given string enough =
    rw (ne→== p 0 given, strlen_lem s fuel w.mem p string enough) refl

memcpy_run :
    (n p path : ℕ) (w : World)
    → p ≢ 0
    → path ≢ 0
    → memcpy p path n w ≡ some (tt, record w { mem = Str.memcpy p path n w.mem })
unfolding memcpy
memcpy_run n p path w block given = rw (ne→== p 0 block, ne→== path 0 given) refl

-- What walk_path does from the label `found` on.
abbrev opens : ℕ → ℕ → Option ℕ → M ℕ
opens fuel f node = elim node [
  | none ↦ pure 0
  | some current_node ↦ do
    mount ← get_mount fuel current_node
    store_file f (record { vnode = current_node; mountpoint = mount })
    pure f
]

opens-Opens :
    (w : World) (f : ℕ) (found : Option ℕ) (result : ℕ) (w' : World)
    → f ≢ 0
    → Opens w f found result w'
    → (enough : ℕ) × ((fuel : ℕ) → enough ≤ fuel → opens fuel f found w ≡ some (result, w'))
opens-Opens w f found result w' given no_node = (0, λ fuel h. refl)
opens-Opens w f found result w' given (at_node depth n mount nearest) = (
  suc depth,
  (λ fuel h.
      rw
        (
          get_mount-Nearest fuel depth n mount w nearest (omega arith),
          store_file_lem f given w (record { vnode = n; mountpoint = mount }),
        )
        refl),
)

walk_path-opens :
    (w : World) (dir path fuel : ℕ) (s : List ℕ) (r : Option ℕ)
    → HasCopy w path s
    → length s < fuel
    → resolve
        (walk_path fuel)
        fuel
        dir
        (copy_block (length s) w)
        (length s)
        (copied (length s) path w)
      ≡ some (r, copied (length s) path w)
    → walk_path (suc fuel) dir path w ≡ opens fuel (file_block w) r (copied (length s) path w)
unfolding walk_path kmalloc
walk_path-opens w dir path fuel s r h enough leads =
    let p = copy_block (length s) w in
    let w1 : World = record w { heap = (Arena.kmalloc file_size w.heap).1 } in
    let w2 : World = record w { heap = (Arena.kmalloc (length s) w1.heap).1 } in
    rw
      (
        strlen_run s fuel path w1 h.given h.string enough,
        memcpy_run (length s) p path w2 h.block h.given,
        strlen_run s fuel p (copied (length s) path w) h.block (copied-CString w path s h) enough,
        leads,
      )
      refl

-- With a block for the file, one for the copy of the path and a NUL byte behind that one, for a
-- path whose walk meets directories and at most a last file or device, no symbolic link: with enough fuel, walk_path
-- returns NULL where the copy leads to no node from the directory; where it leads to one, it
-- returns the file, which holds that node and the mount of its nearest mounted ancestor. From a
-- directory the path leads to the first child whose name and the rest of the path begin with the
-- same bytes, as many as the first element has for that one, and as many as the element before has for
-- a later one, which is how the code compares: "b" leads to a child "ba" that comes first. Its state
-- is the one with the two blocks and the copy, and changes in the file alone.
pub walk_path-Leads :
    (w : World) (dir path : ℕ) (s : List ℕ) (r : Option ℕ) (result : ℕ) (w' : World)
    → HasCopy w path s
    → Leads (copied (length s) path w) dir (copy_block (length s) w) (length s) r
    → Opens (copied (length s) path w) (file_block w) r result w'
    → (enough : ℕ) × ((fuel : ℕ) → enough ≤ fuel → walk_path fuel dir path w ≡ some (result, w'))
walk_path-Leads w dir path s r result w' h leads outcome =
    let w1 = copied (length s) path w in
    let (a, reach) = resolve-Leads w1 dir (copy_block (length s) w) (length s) r leads in
    let (b, finish) = opens-Opens w1 (file_block w) r result w' h.file outcome in
    (suc (a + suc (length s) + b), go a b reach finish)
  where
    go :
        (a b : ℕ)
        → ((walk : ℕ → ℕ → M ℕ) (fuel : ℕ)
            → a ≤ fuel
            → resolve walk fuel dir (copy_block (length s) w) (length s) (copied (length s) path w)
              ≡ some (r, copied (length s) path w))
        → ((fuel : ℕ)
            → b ≤ fuel
            → opens fuel (file_block w) r (copied (length s) path w) ≡ some (result, w'))
        → (fuel : ℕ) → suc (a + suc (length s) + b) ≤ fuel
        → walk_path fuel dir path w ≡ some (result, w')
    go a b reach finish zero enough = absurd (omega arith)
    go a b reach finish (suc fuel) enough =
        walk_path-opens w dir path fuel s r h (omega arith)
          (reach (walk_path fuel) fuel (omega arith))
        ∙ finish fuel (omega arith)
