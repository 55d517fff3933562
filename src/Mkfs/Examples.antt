-- ===== src/Mkfs/Examples.antt =====
-- tools/mkfs.c with its own texts and two programs.
use Prim.Native.Char.{code}
use Prim.Native.String.{String}
use egos.Base.{ℕ, ◌≡◌, refl, List, [], ◌∷◌, arith}
use egos.FileSystem.Block.{null_block}
use egos.FileSystem.Ramdisk.{Disk}
use egos.FileSystem.Run.{Returns}
use egos.Servers.Directory.{listing, dir_entry, entry}
use egos.Mkfs.{HostFile, is_elf, mkfs}
use egos.Mkfs.Loop.{executables}
use egos.Mkfs.Image.{bin_text, IsImage, mkfs-IsImage}

abbrev codes : String → List ℕ
codes String.[] = []
codes (String.◌∷◌ c s) = code c ∷ codes s

abbrev texts : List (List ℕ)
texts =
    codes "./   0 ../   0 home/   1 bin/   6 "
    ∷ codes "./   1 ../   0 yunhao/   2 rvr/   3 yacqub/   4 "
    ∷ codes "./   2 ../   1 README   5 "
    ∷ codes "./   3 ../   1 "
    ∷ codes "./   4 ../   1 "
    ∷ codes "With only 2000 lines of code"
    ∷ []

abbrev bin_dir : List ℕ
bin_dir = codes "./   6 ../   0 "

abbrev cat : HostFile
cat = record { d_name = codes "cat.elf"; st_size = 1000; contents = λ k. 7 }

abbrev ls : HostFile
ls = record { d_name = codes "ls.elf"; st_size = 10; contents = λ k. 9 }

abbrev notes : HostFile
notes = record { d_name = codes "notes"; st_size = 3; contents = λ k. 1 }

abbrev apps : List HostFile
apps = cat ∷ notes ∷ ls ∷ []

abbrev blank : Disk
blank n = null_block

programs : executables apps ≡ cat ∷ ls ∷ []
unfolding executables is_elf
programs = refl

-- The directory that mkfs starts with is one of its listings.
starts : bin_dir ≡ listing (entry (codes "./") 6 ∷ entry (codes "../") 0 ∷ [])
unfolding listing dir_entry
starts = refl

mkfs-IsImage_example :
    Returns
      (λ text t.
        (text ≡ bin_text texts bin_dir apps (λ k. 0) (λ k. 0) blank)
        × IsImage texts text (executables apps) t)
      (mkfs texts bin_dir apps (λ k. 0) (λ k. 0) blank)
unfolding executables is_elf listing dir_entry
mkfs-IsImage_example =
    mkfs-IsImage texts bin_dir apps (λ k. 0) (λ k. 0) blank refl refl (omega arith)
      ((omega arith, λ k lt. omega arith), ((omega arith, λ k lt. omega arith), tt)) (omega arith)
      (omega arith) (omega arith) (omega arith)
