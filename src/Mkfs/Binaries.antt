-- ===== src/Mkfs/Binaries.antt =====
-- tools/mkfs.c: where the images hold the binaries of the kernel and the servers.
use egos.Base.{
  ℕ, suc, ◌+◌, ◌-◌, ◌*◌, ◌≤◌, ◌<◌, ◌≡◌, refl, ◌∙◌, false, leb, ltb, lt→ltb, le→leb, arith, List, [],
  ◌∷◌,
}
use egos.FileSystem.Ramdisk.{Disk}
use egos.Mkfs.{Bytes, HostFile, egos_bin_max_nbyte, size_2mb, write_binaries, disk_image, rom_image}

-- Binaries that leave each other their 128 KB.
abbrev pub AreSmall : List HostFile → Type 0
AreSmall [] = Unit {0}
AreSmall (file ∷ files) = (file.st_size ≤ egos_bin_max_nbyte) × AreSmall files

-- The binaries from number i on are in the array.
abbrev pub BinariesAt : ℕ → List HostFile → Bytes → Type 0
BinariesAt i [] image = Unit {0}
BinariesAt i (file ∷ files) image =
    ((k : ℕ) → k < file.st_size → image (i * egos_bin_max_nbyte + k) ≡ file.contents k)
    × BinariesAt (suc i) files image

-- The loop leaves what is in front of number i.
before :
    (files : List HostFile) (i : ℕ) (exec : Bytes) (k : ℕ)
    → k < i * egos_bin_max_nbyte
    → write_binaries files i exec k ≡ exec k
unfolding write_binaries
before [] i exec k lt = refl
before (file ∷ files) i exec k lt =
    let out : leb (i * egos_bin_max_nbyte) k ≡ false = ground (arith, lt) in
    before files (suc i) _ k (omega (arith, lt)) ∙ rw out refl

pub write_binaries_lem :
    (files : List HostFile) (i : ℕ) (exec : Bytes)
    → AreSmall files
    → BinariesAt i files (write_binaries files i exec)
unfolding write_binaries
write_binaries_lem [] i exec small = tt
write_binaries_lem (file ∷ files) i exec small = (
  λ k lt.
      let at : i * egos_bin_max_nbyte + k - i * egos_bin_max_nbyte ≡ k = omega arith in
      let hi =
        lt→ltb (i * egos_bin_max_nbyte + k) (i * egos_bin_max_nbyte + file.st_size)
          (omega (arith, lt)) in
      let lo = le→leb (i * egos_bin_max_nbyte) (i * egos_bin_max_nbyte + k) (omega arith) in
      before files (suc i) _ (i * egos_bin_max_nbyte + k) (omega (arith, small.0, lt))
      ∙ rw (lo, hi, at) refl,
  write_binaries_lem files (suc i) _ small.1,
)

-- Their place is the same in the disk image, and 4 MB later in the ROM image.
pub images_lem :
    (vexriscv exec : Bytes) (fs : Disk) (k : ℕ)
    → k < size_2mb
    → (disk_image exec fs k ≡ exec k) × (rom_image vexriscv exec fs (2 * size_2mb + k) ≡ exec k)
unfolding disk_image rom_image
images_lem vexriscv exec fs k lt =
    let at : 2 * size_2mb + k - size_2mb * 2 ≡ k = omega arith in
    let behind : ltb (2 * size_2mb + k) (size_2mb * 2) ≡ false = ground arith in
    let inside = lt→ltb k size_2mb lt in (rw inside refl, rw (behind, at, inside) refl)
