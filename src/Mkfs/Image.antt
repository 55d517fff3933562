-- ===== src/Mkfs/Image.antt =====
-- tools/mkfs.c: what the file system of the disk image holds.
use egos.Base.{
  ℕ, suc, ◌+◌, ◌-◌, ◌*◌, ◌≤◌, ◌<◌, ◌≡◌, refl, sym, ap, ◌∙◌, subst, true, ◌&&◌, arith, List, [], ◌∷◌,
  ◌++◌, length, ltb, lt→ltb,
}
use egos.FileSystem.Block.{n_inodeblocks}
use egos.FileSystem.Run.{pure, ◌>>=◌, ◌>>◌, Run, Returns, returns, Returns-and_then, ok}
use egos.FileSystem.Files.{File, Files, no_files, block_of}
use egos.FileSystem.Ramdisk.{Disk, ramdisk_array}
use egos.FileSystem.Treedisk.{treedisk_init}
use egos.FileSystem.Treedisk.Files.Read.{treedisk_read-block_of}
use egos.FileSystem.Treedisk.Files.Fresh.{treedisk_create-IsFs}
use egos.Servers.Directory.{listing}
use egos.Mkfs.{
  Bytes, HostFile, Mkfs, bin_bytes, bin_dir_inode, filesys, asserted, mkfs, write_apps, write_inode,
}
use egos.Mkfs.Bytes.{HasBytes, HasText, AreChars, char_at-lt}
use egos.Mkfs.Store.{Holds, Writing, Writing-byte, write_first_lem, EmptyFrom, Writing-KeepsBelow}
use egos.Mkfs.Texts.{AreTexts, TextsAt, TextsAt-KeepsBelow, write_contents_lem}
use egos.Mkfs.Loop.{
  executables, total_blocks, entries_from, ProgramsAt, AreHostFiles, executables-AreElf,
  write_apps-executables, write_apps_lem,
}

ProgramsAt-keeps :
    (ino : ℕ) (apps : List HostFile) (files files' : Files)
    → ((j : ℕ) → ino ≤ j → files' j ≡ files j)
    → ProgramsAt ino apps files
    → ProgramsAt ino apps files'
ProgramsAt-keeps ino [] files files' keeps at = tt
ProgramsAt-keeps ino (app ∷ apps) files files' keeps at = (
  subst (HasBytes app.st_size app.contents) (sym (keeps ino (omega arith))) at.0,
  ProgramsAt-keeps (suc ino) apps files files' (λ j le. keeps j (omega (arith, le))) at.1,
)

-- The first 256 bytes of the block are the array.
HasText-bin_bytes :
    (files files' : Files) (ino : ℕ) (text : List ℕ) (beyond : Bytes)
    → length text < 256
    → AreChars text
    → Writing files files' ino 1 (bin_bytes text beyond)
    → HasText text (files' ino)
HasText-bin_bytes files files' ino text beyond short chars w = (
  w.nblocks,
  λ x le.
      let within : x < 256 = omega (arith, le, short) in
      Writing-byte files files' ino 1 (bin_bytes text beyond) x w (omega (arith, within))
        (λ j le'. rw (lt→ltb j 256 (omega (arith, le', within))) (char_at-lt text j chars))
      ∙ rw (lt→ltb x 256 within) refl,
)

-- The blocks of a file are what a read returns.
abbrev pub Reads : Files → Disk → Type 0
Reads files fs =
    (ino offset : ℕ)
    → ino < 128
    → offset < (files ino).nblocks
    → filesys.read ino offset fs ≡ ok (block_of (files ino) offset) fs

Holds-Reads : (room : ℕ) (files : Files) (fs : Disk) → Holds room files fs → Reads files fs
unfolding filesys treedisk_init
Holds-Reads room files fs holds ino offset lt lt' =
    let inside : (ltb ino (2 * 64) && ltb offset (files ino).nblocks) ≡ true = ground arith in
    treedisk_read-block_of (ramdisk_array 0) 2 room ino offset files fs holds ∙ rw inside refl

-- What an image holds: the texts, the directory and the programs.
abbrev pub IsImage : List (List ℕ) → List ℕ → List HostFile → Disk → Type 0
IsImage contents bin_dir apps fs =
    (files : Files) × Reads files fs
    × TextsAt 0 contents files
    × HasText bin_dir (files bin_dir_inode)
    × ProgramsAt (bin_dir_inode + 1) apps files

asserted-Returns :
    {S A : Type 0} {P : A → S → Type 0} {r : Run S A} → Returns P r → Returns P (asserted r)
asserted-Returns (returns p) = returns p

module _ (contents : List (List ℕ)) (bin_dir : List ℕ) (apps : List HostFile) (inode beyond : Bytes)
    (fs : Disk) where
  abbrev programs : List HostFile
  programs = executables apps

  -- The whole /bin directory.
  abbrev pub bin_text : List ℕ
  bin_text = bin_dir ++ listing (entries_from 7 programs)

  -- The loop over the programs, and the directory.
  with_texts :
      (inode1 : Bytes) (t : Disk) (files : Files) (left : ℕ)
      → Holds (11 * total_blocks programs + (11 + left)) files t
      → TextsAt 0 contents files
      → EmptyFrom 6 files
      → length contents ≡ bin_dir_inode
      → AreHostFiles programs
      → length programs ≤ 121
      → length bin_text < 256
      → AreChars bin_text
      → Returns
          (λ text t. (text ≡ bin_text) × IsImage contents text programs t)
          ((do
            m ← write_apps apps (record { inode = inode1; app_ino = 7; bin_dir = bin_dir })
            write_inode bin_dir_inode 0 (bin_bytes m.bin_dir beyond)
            pure m.bin_dir)
            t)
  with_texts inode1 t files left holds at empty six are few short chars =
      let m0 : Mkfs = record { inode = inode1; app_ino = 7; bin_dir = bin_dir } in
      rw (write_apps-executables apps m0 t) (
        Returns-and_then _
          (write_apps_lem programs (11 + left) files m0 t holds (omega (arith, few)) are
            (executables-AreElf apps) short (λ j le. empty j (omega (arith, le))))
          λ m u (files2, holds2, dir, progs, keeps2).
            Returns-and_then _
              (write_first_lem left 6 (bin_bytes m.bin_dir beyond) files2 u holds2 (omega arith)
                (ap (λ (f : File). f.nblocks) (keeps2 6 (omega arith)) ∙ empty 6 (omega arith)))
              λ a v (files3, w, holds3).
                let keeps3 = Writing-KeepsBelow files2 files3 6 1 _ w in
                returns (
                  dir,
                  (
                    files3,
                    Holds-Reads left files3 v holds3,
                    TextsAt-KeepsBelow 0 6 contents files files3 (omega (arith, six))
                        (λ j lt. keeps3 j lt ∙ keeps2 j (omega (arith, lt))) at,
                    HasText-bin_bytes files2 files3 6 m.bin_dir beyond
                        (subst (λ (d : List ℕ). length d < 256) (sym dir) short)
                        (subst AreChars (sym dir) chars) w,
                    ProgramsAt-keeps 7 programs files2 files3
                        (λ j le. w.others j (ground (arith, le))) progs,
                  ),
                ))

  -- On a blank array, let the six texts be shorter than a block, the programs of the host
  -- directory at most 121 and small enough for 11 blocks of the array for each block of a
  -- file, and the /bin directory shorter than its array. Then mkfs makes a file system without
  -- an error. Reading it gives the texts in inodes 0 to 5, in inode 6 the directory with an
  -- entry for each program, and from inode 7 on the bytes of the programs, each in as many
  -- blocks as its size needs; files whose names do not contain .elf are left out.
  pub mkfs-IsImage :
      n_inodeblocks (fs 0) ≡ 0
      → length contents ≡ bin_dir_inode
      → AreTexts contents
      → AreHostFiles programs
      → length programs ≤ 121
      → length bin_text < 256
      → AreChars bin_text
      → 11 * (7 + total_blocks programs) ≤ 4093
      → Returns
          (λ text t. (text ≡ bin_text) × IsImage contents text programs t)
          (mkfs contents bin_dir apps inode beyond fs)
  unfolding mkfs ramdisk_array
  mkfs-IsImage blank six texts are few short chars room =
      let left : ℕ = 4016 - 11 * total_blocks programs in
      let for_texts : 4093 ≡ 11 * length contents + 4027 = omega (arith, six) in
      let sixth : 0 + length contents ≡ 6 = omega (arith, six) in
      let for_apps : 4027 ≡ 11 * total_blocks programs + (11 + left) = omega (arith, room) in
      Returns-and_then _
        (asserted-Returns
          (treedisk_create-IsFs (ramdisk_array 0) 128 fs blank (omega arith) (omega arith)))
        λ a t holds.
          Returns-and_then _
            (write_contents_lem contents 0 4027 inode no_files t
              (subst (λ n. Holds n no_files t) for_texts holds) (omega (arith, six)) texts
              (λ j le. refl))
            λ inode1 t1 (files1, holds1, at, keeps1, empty1).
              with_texts inode1 t1 files1 left (subst (λ n. Holds n files1 t1) for_apps holds1) at
                (subst (λ n. EmptyFrom n files1) sixth empty1) six are few short chars
