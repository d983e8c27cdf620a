-- ===== src/Boot/Initrd.antt =====
-- kernel/create_initrd.c: the boot loader's module that becomes the initial ram disk.
use modos.Base.{
  ℕ, zero, suc, ◌+◌, ◌-◌, ◌*◌, ◌<◌, ◌≤◌, ◌≡◌, ◌≢◌, refl, sym, ◌∙◌, arith, true, Bool-cases, inl,
  inr, ◌==◌, ==_iff, ne→==, eq→==, some, has_bit, u32, write,
}
use mathlib.Core.Bool.{false≢true}
use modos.Str.{Memory}
use modos.Str.Words.{load32, same_bytes}
use modos.Mm.Layout.{p2v}
use modos.Mm.Arena
use modos.Fs.{World, kmalloc}
use modos.Fs.Access.{not_null_lem}
use modos.Io.{load_32}
use modos.Tar.{Disks, Mops, Ramdisk, new_ramdisk_mount}
use modos.Boot.{initrd_cmdline, find_initrd, create_initrd}

-- Module `i` of the boot loader's list has the command line "initrd", and the memory it takes.
abbrev pub Named : Memory → (mods i : ℕ) → Type 0
Named mem mods i = same_bytes mem (p2v (load32 mem (mods + 16 * i + 8))) initrd_cmdline ≡ true

abbrev pub module_disk : Memory → (mods i : ℕ) → Ramdisk
module_disk mem mods i = record {
  begin = p2v (load32 mem (mods + 16 * i));
  size = u32 (load32 mem (mods + 16 * i + 4) + (0x1_0000_0000 - load32 mem (mods + 16 * i)));
}

module _ (mods : ℕ) (w : World) (given : mods ≢ 0) where
  -- One step, for a module that has the name or not.
  find_step :
      (left i : ℕ) (found : ℕ × ℕ)
      → (Named w.mem mods i
          → find_initrd mods (suc left) i found w
            ≡ find_initrd mods left
                (i + 1)
                ((module_disk w.mem mods i).begin, (module_disk w.mem mods i).size)
                w)
        × (¬ Named w.mem mods i
            → find_initrd mods (suc left) i found w ≡ find_initrd mods left (i + 1) found w)
  unfolding find_initrd load_32
  find_step left i found =
      let at = ne→== (mods + 16 * i) 0 (omega (arith, given)) in
      let at4 = ne→== (mods + 16 * i + 4) 0 (omega arith) in
      let at8 = ne→== (mods + 16 * i + 8) 0 (omega arith) in
      (
        (λ named. rw (at, at4, at8, named) refl),
        (λ unnamed.
            elim (Bool-cases
              (same_bytes w.mem (p2v (load32 w.mem (mods + 16 * i + 8))) initrd_cmdline)) [
                | inl same ↦ absurd (unnamed same)
                | inr differ ↦ rw (at, at4, at8, differ) refl
              ]),
      )

  find_rest :
      (left k : ℕ) (found : ℕ × ℕ)
      → ((j : ℕ) → k ≤ j → j < k + left → ¬ Named w.mem mods j)
      → find_initrd mods left k found w ≡ some (found, w)
  unfolding find_initrd
  find_rest zero k found free = refl
  find_rest (suc left) k found free =
      (find_step left k found).1 (free k (omega arith) (omega arith))
      ∙ find_rest left (k + 1) found (λ j a b. free j (omega (arith, a)) (omega (arith, b)))

  find_last :
      (left k i : ℕ) (found : ℕ × ℕ)
      → k ≤ i
      → i < k + left
      → Named w.mem mods i
      → ((j : ℕ) → i < j → j < k + left → ¬ Named w.mem mods j)
      → find_initrd mods left k found w
        ≡ some (((module_disk w.mem mods i).begin, (module_disk w.mem mods i).size), w)
  find_last zero k i found a b named after = absurd (omega arith)
  find_last (suc left) k i found a b named after = elim (Bool-cases (k == i)) [
    | inl e ↦
        let same = (==_iff k i).0 e in
        let step = (find_step left i found).0 named in
        let rest =
          find_rest left (i + 1) ((module_disk w.mem mods i).begin, (module_disk w.mem mods i).size)
            (λ j c d. after j (omega (arith, c)) (omega (arith, d, same))) in
        rw same (step ∙ rest)
    | inr ne ↦
        let later = λ (f : ℕ × ℕ).
          find_last left (k + 1) i f (ground (arith, ne)) (omega arith) named
            (λ j c d. after j c (omega (arith, d))) in
        elim (Bool-cases
          (same_bytes w.mem (p2v (load32 w.mem (mods + 16 * k + 8))) initrd_cmdline)) [
            | inl same ↦ (find_step left k found).0 same ∙ later _
            | inr differ ↦
                (find_step left k found).1 (λ same. false≢true (sym differ ∙ same)) ∙ later _
          ]
  ]

-- The boot loader's information at physical address `info`: the flag for its modules is set, and
-- their list is at `mods_addr` and has `n` entries.
pub record HasModules (mem : Memory) (info mods_addr n : ℕ) : Type 0 where
  pub place : p2v info ≢ 0
  pub flag : has_bit 3 (load32 mem (p2v info)) ≡ true
  pub address : load32 mem (p2v info + 24) ≡ mods_addr
  pub count : load32 mem (p2v info + 20) ≡ n
  pub list : p2v mods_addr ≢ 0

-- The first block that create_initrd takes, and the second.
abbrev pub disk_block : World → ℕ
disk_block w = (Arena.kmalloc 16 w.heap).0

abbrev pub mount_block : World → ℕ
mount_block w = (Arena.kmalloc 24 (Arena.kmalloc 16 w.heap).1).0

-- When the boot loader lists modules, number `i` is the last whose command line is "initrd", it is not empty
-- or at an address that wraps around to NULL, and there is memory: create_initrd returns a mount, the
-- mount has the functions of a ram disk, and its disk is the memory of that module.
pub create_initrd_lem :
    (disks : Disks) (info mods_addr n i : ℕ) (w : World)
    → HasModules w.mem info mods_addr n
    → i < n
    → Named w.mem (p2v mods_addr) i
    → ((j : ℕ) → i < j → j < n → ¬ Named w.mem (p2v mods_addr) j)
    → (module_disk w.mem (p2v mods_addr) i).begin ≢ 0
    → (module_disk w.mem (p2v mods_addr) i).size ≢ 0
    → disk_block w ≢ 0
    → mount_block w ≢ 0
    → (disks' : Disks) × (w' : World) × (create_initrd disks info w
        ≡ some ((mount_block w, disks'), w'))
      × ((disks'.mounts (mount_block w)).mops ≡ Mops.rdisk_mops)
      × (disks'.rdisks (disks'.mounts (mount_block w)).disk ≡ module_disk w.mem (p2v mods_addr) i)
unfolding create_initrd new_ramdisk_mount load_32 kmalloc
create_initrd_lem disks info mods_addr n i w m a named after begin size room room' =
    let found = module_disk w.mem (p2v mods_addr) i in
    let w1 : World = record w { heap = (Arena.kmalloc 16 w.heap).1 } in
    let w2 : World = record w1 { heap = (Arena.kmalloc 24 w1.heap).1 } in
    let disks1 : Disks = record disks { rdisks = write disks.rdisks (disk_block w) found } in
    let disks2 : Disks = record disks1 {
      mounts =
          write disks.mounts (mount_block w)
            (record { type = 1; disk = disk_block w; mops = Mops.rdisk_mops });
    } in
    let self = eq→== (mount_block w) (mount_block w) refl in
    (
      disks2,
      w2,
      rw
          (
            ne→== (p2v info) 0 m.place,
            m.flag,
            ne→== (p2v info + 24) 0 (omega arith),
            ne→== (p2v info + 20) 0 (omega arith),
            m.address,
            m.count,
            find_last (p2v mods_addr) w m.list n 0 i (0, 0) (omega arith) (omega (arith, a)) named
                (λ j c d. after j c (omega (arith, d))),
            ne→== found.begin 0 begin,
            ne→== found.size 0 size,
            not_null_lem (disk_block w) room w1,
            not_null_lem (mount_block w) room' w2,
            not_null_lem (disk_block w) room w2,
          )
          refl,
      rw self refl,
      rw (self, eq→== (disk_block w) (disk_block w) refl) refl,
    )
