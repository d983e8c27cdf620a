-- ===== src/Fs/Walk/Tests.antt =====
-- An instance of the theorem on walk_path.
use modos.Base.{ℕ, ◌+◌, ◌≡◌, ◌≤◌, inr, refl, arith, some, [], ◌∷◌, write}
use modos.Str
use modos.Mm.Arena
use modos.Fs.{World}
use modos.Fs.Sample.{one_child}
use modos.Fs.Walk.{walk_path}
use modos.Fs.Walk.Child.{Fits, First}
use modos.Fs.Walk.Mount.{Nearest}
use modos.Fs.Walk.Elems.{Element, Walks}
use modos.Fs.Walk.Whole.{Starts, Leads, Opens, HasCopy, copied, walk_path-Leads}

-- The blocks of a file and of a copy of the path "b".
abbrev file_at : ℕ
file_at = 0xFFFF_FFFF_0000_0100

abbrev copy_at : ℕ
copy_at = 0xFFFF_FFFF_0000_0110

-- The copy of the path "b" at 0x200.
abbrev with_copy : World
with_copy = copied 1 0x200 one_child

-- The name "ba" and the path "b" begin with the same byte.
ba-Fits : Fits with_copy 0x5000 copy_at 1 0
unfolding Arena.kmalloc Str.memcpy
ba-Fits = record {
  given = omega arith;
  name = 0x62 ∷ 0x61 ∷ [];
  path = 0x62 ∷ [];
  is_name = (refl, omega arith, (refl, omega arith, refl));
  is_path = (refl, omega arith, refl);
  same = refl;
}

-- The path "b" leads to the file "ba".
b-Leads : Leads with_copy 0x100 copy_at 1 (some 0x5000)
unfolding Arena.kmalloc Str.memcpy
b-Leads =
    Leads.walks 1 0x100 copy_at 1 0 (some 0x5000) (omega arith)
      (Starts.here 0x100 copy_at (omega arith))
      (Element.further copy_at 0 0 (omega arith) (omega arith) (Element.at_end (copy_at + 1) refl))
      (Walks.enters 0x100 copy_at 1 0x5000 1 0 (some 0x5000) (omega arith) (omega arith) refl
        (omega arith) (First.this_child 0 0 ba-Fits)
        (Element.further copy_at 0 0 (omega arith) (omega arith)
          (Element.at_end (copy_at + 1) refl))
        (Walks.arrives 0x5000 1))

b-HasCopy : HasCopy one_child 0x200 (0x62 ∷ [])
unfolding Arena.kmalloc
b-HasCopy = record {
  given = omega arith;
  string = (refl, omega arith, refl);
  file = omega arith;
  block = omega arith;
  apart = inr (omega arith);
  ends = refl;
}

b-Opens : Opens with_copy file_at (some 0x5000) file_at (record with_copy {
  files = write with_copy.files file_at (record { vnode = 0x5000; mountpoint = 7 });
})
b-Opens =
    Opens.at_node 1 0x5000 7
      (Nearest.above 0 0x5000 7 (omega arith) refl (Nearest.here 0x100 (omega arith) refl))

walk_path-Leads_example :
    (enough : ℕ) × ((fuel : ℕ)
      → enough ≤ fuel
      → walk_path fuel 0x100 0x200 one_child
        ≡ some (
          file_at,
          record with_copy {
            files = write with_copy.files file_at (record { vnode = 0x5000; mountpoint = 7 });
          },
        ))
unfolding Arena.kmalloc
walk_path-Leads_example =
    walk_path-Leads one_child 0x100 0x200 (0x62 ∷ []) (some 0x5000) file_at
      (record with_copy {
        files = write with_copy.files file_at (record { vnode = 0x5000; mountpoint = 7 });
      })
      b-HasCopy b-Leads b-Opens
