-- ===== src/Fs/Access.antt =====
-- The accesses of kernel/fs to memory, where their pointers are not NULL.
use modos.Base.{ℕ, ◌≡◌, ◌≢◌, refl, write, ne→==, some}
use modos.Fs.{
  World, VfsNode, File, load_node, store_node, load_file, store_file, load_fops, not_null,
  store_byte,
}

module _ (p : ℕ) (given : p ≢ 0) (w : World) where
  pub load_node_lem : load_node p w ≡ some (w.nodes p, w)
  unfolding load_node
  load_node_lem = rw (ne→== p 0 given) refl

  pub store_node_lem :
      (n : VfsNode) → store_node p n w ≡ some (tt, record w { nodes = write w.nodes p n })
  unfolding store_node
  store_node_lem n = rw (ne→== p 0 given) refl

  pub load_file_lem : load_file p w ≡ some (w.files p, w)
  unfolding load_file
  load_file_lem = rw (ne→== p 0 given) refl

  pub store_file_lem :
      (f : File) → store_file p f w ≡ some (tt, record w { files = write w.files p f })
  unfolding store_file
  store_file_lem f = rw (ne→== p 0 given) refl

  pub load_fops_lem : load_fops p w ≡ some (w.fops_at p, w)
  unfolding load_fops
  load_fops_lem = rw (ne→== p 0 given) refl

  pub not_null_lem : not_null p w ≡ some (tt, w)
  unfolding not_null
  not_null_lem = rw (ne→== p 0 given) refl

  pub store_byte_lem : (c : ℕ) → store_byte p c w ≡ some (tt, record w { mem = write w.mem p c })
  unfolding store_byte
  store_byte_lem c = rw (ne→== p 0 given) refl
