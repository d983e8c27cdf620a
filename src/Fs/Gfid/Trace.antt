-- ===== src/Fs/Gfid/Trace.antt =====
-- kernel/fs/gfid.c: what an id means from the call of add_file that gave it on.
use modos.Base.{
  ℕ, ◌+◌, ◌<◌, ◌≡◌, ◌≢◌, inl, inr, refl, some, arith, ltb, ◌==◌, write, write_ne, guard-some,
  lt→ltb, true, Bool-cases, sym, ap, write_self, if◌then◌else◌, List, [], ◌∷◌, ltb→lt,
}
use modos.Fs.{World, gfid_max}
use modos.Fs.Gfid.{resolve_gfid, add_file, remove_file}

-- The calls that change the table.
pub data Op : Type 0 where
  adds : ℕ → Op
  removes : ℕ → Op

-- One call, and a sequence of them that all return.
pub data Step : World → Op → World → Type 0 where
  added : (file id : ℕ) (w w' : World) → add_file file w ≡ some (id, w') → Step w (adds file) w'
  removed : (id : ℕ) (w w' : World) → remove_file id w ≡ some (tt, w') → Step w (removes id) w'

pub data Steps : World → List Op → World → Type 0 where
  stop : (w : World) → Steps w [] w
  step :
      (op : Op) (ops : List Op) (w w' w'' : World)
      → Step w op w'
      → Steps w' ops w''
      → Steps w (op ∷ ops) w''

-- What `id` means after the calls, when it meant `file` before: only its own removal changes that.
abbrev pub meaning : (id file : ℕ) → List Op → ℕ
meaning id file [] = file
meaning id file (adds new ∷ ops) = meaning id file ops
meaning id file (removes gone ∷ ops) = meaning id (if gone == id then 0 else file) ops

-- `id` has been given out, and means `file`.
abbrev Means : ℕ → ℕ → World → Type 0
Means id file w = (id < w.n_gfids) × (w.gfids id ≡ file)

-- What a call of add_file that returns has done.
record Added (file id : ℕ) (w w' : World) : Type 0 where
  pub room : w.n_gfids < gfid_max
  pub given : id ≡ w.n_gfids
  pub next : w'.n_gfids ≡ w.n_gfids + 1
  pub table : w'.gfids ≡ write w.gfids w.n_gfids file

add_file-Added : (file id : ℕ) (w w' : World) → add_file file w ≡ some (id, w') → Added file id w w'
unfolding add_file
add_file-Added file id w w' h =
    let (room, e) = guard-some (ltb w.n_gfids gfid_max) h in
    record {
      room = ltb→lt w.n_gfids gfid_max room;
      given = sym (ap (λ r. r.0) e);
      next = sym (ap (λ r. r.1.n_gfids) e);
      table = sym (ap (λ r. r.1.gfids) e);
    }

Step-Means :
    (id file : ℕ) (op : Op) (w w' : World)
    → Step w op w'
    → Means id file w
    → Means id (meaning id file (op ∷ [])) w'
unfolding remove_file
Step-Means id file op w w' (added f new v v' h) (old, m) =
    let a = add_file-Added f new w w' h in
    (omega (arith, a.next), rw (a.table, write_ne w.gfids w.n_gfids f id (omega arith)) m)
Step-Means id file op w w' (removed gone v v' h) (old, m) =
    let (room, e) = guard-some (ltb gone gfid_max) h in
    let n = ap (λ r. r.1.n_gfids) e in
    let t : w'.gfids ≡ write w.gfids gone 0 = sym (ap (λ r. r.1.gfids) e) in
    (
      omega (arith, n),
      elim (Bool-cases (gone == id)) [ inl same ↦ rw (t, same) refl | inr other ↦ rw (t, other) m ],
    )

Steps-Means :
    (id file : ℕ) (ops : List Op) (w w' : World)
    → Steps w ops w'
    → Means id file w
    → Means id (meaning id file ops) w'
Steps-Means id file ops w w' (stop v) m = m
Steps-Means id file ops w w' (step (adds new) rest v w1 v' s after) m =
    Steps-Means id file rest w1 w' after (Step-Means id file (adds new) w w1 s m)
Steps-Means id file ops w w' (step (removes gone) rest v w1 v' s after) m =
    Steps-Means id (if gone == id then 0 else file) rest w1 w' after
      (Step-Means id file (removes gone) w w1 s m)

-- The id that add_file gives is not 0. After any sequence of calls of add_file and remove_file that return, it
-- resolves to NULL when one of them removed that id, and else to the file; and no call of add_file gives
-- it again.
pub add_file-Steps :
    (file id : ℕ) (ops : List Op) (w w1 w2 : World)
    → 0 < w.n_gfids
    → add_file file w ≡ some (id, w1)
    → Steps w1 ops w2
    → (id ≢ 0)
      × (resolve_gfid id w2 ≡ some (meaning id file ops, w2))
      × ((file' id' : ℕ) (w3 : World) → add_file file' w2 ≡ some (id', w3) → id' ≢ id)
unfolding resolve_gfid
add_file-Steps file id ops w w1 w2 some_id h s =
    let a = add_file-Added file id w w1 h in
    let first : w1.gfids id ≡ file = rw (a.table, a.given) (write_self w.gfids w.n_gfids file) in
    let (old, m) = Steps-Means id file ops w1 w2 s (omega (arith, a.given, a.next), first) in
    let in_table : ltb id gfid_max ≡ true = lt→ltb id gfid_max (omega (arith, a.given, a.room)) in
    (
      omega (arith, a.given),
      rw (in_table, m) refl,
      (λ file' id' w3 h'. omega (arith, (add_file-Added file' id' w2 w3 h').given)),
    )
