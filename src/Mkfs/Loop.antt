-- ===== src/Mkfs/Loop.antt =====
-- tools/mkfs.c: all programs of the directory of the host.
use egos.Base.{
  ℕ, suc, ◌+◌, ◌*◌, ◌≤◌, ◌<◌, ◌≡◌, refl, sym, ap, ◌∙◌, subst, true, arith, Bool-cases, inl, inr,
  List, [], ◌∷◌, ◌++◌, length, length-append, if◌then◌else◌, fun_ext,
}
use mathlib.Core.List.{append_assoc, append-nil}
use egos.FileSystem.Run.{Returns, returns, Returns-and_then, Returns-weaken, and_then}
use egos.FileSystem.Files.{Files}
use egos.FileSystem.Ramdisk.{Disk}
use egos.Servers.Directory.{dir_entry, Entry, entry, listing}
use egos.Mkfs.{HostFile, Mkfs, app_name, is_elf, write_elf, write_app, write_apps}
use egos.Mkfs.Bytes.{HasBytes}
use egos.Mkfs.Store.{Holds, KeepsBelow, EmptyFrom}
use egos.Mkfs.Apps.{blocks_of, IsHostFile, write_elf_lem}

-- The files that are programs, and so are written.
unfoldable pub executables : List HostFile → List HostFile
executables [] = []
executables (app ∷ apps) =
    let rest = executables apps in if is_elf app.d_name then app ∷ rest else rest

abbrev pub total_blocks : List HostFile → ℕ
total_blocks [] = 0
total_blocks (app ∷ apps) = blocks_of app + total_blocks apps

-- The entries of the programs, which get the inodes from `ino` on.
abbrev pub entries_from : ℕ → List HostFile → List Entry
entries_from ino [] = []
entries_from ino (app ∷ apps) = entry (app_name app) ino ∷ entries_from (suc ino) apps

abbrev pub ProgramsAt : ℕ → List HostFile → Files → Type 0
ProgramsAt ino [] files = Unit {0}
ProgramsAt ino (app ∷ apps) files =
    HasBytes app.st_size app.contents (files ino) × ProgramsAt (suc ino) apps files

abbrev pub AreHostFiles : List HostFile → Type 0
AreHostFiles [] = Unit {0}
AreHostFiles (app ∷ apps) = IsHostFile app × AreHostFiles apps

abbrev AreElf : List HostFile → Type 0
AreElf [] = Unit {0}
AreElf (app ∷ apps) = (is_elf app.d_name ≡ true) × AreElf apps

pub executables-AreElf : (apps : List HostFile) → AreElf (executables apps)
unfolding executables
executables-AreElf [] = tt
executables-AreElf (app ∷ apps) = elim (Bool-cases (is_elf app.d_name)) [
  | inl elf ↦ rw elf (elf, executables-AreElf apps)
  | inr other ↦ rw other (executables-AreElf apps)
]

pub write_apps-executables :
    (apps : List HostFile) (m : Mkfs) (fs : Disk)
    → write_apps apps m fs ≡ write_apps (executables apps) m fs
unfolding write_apps write_app executables
write_apps-executables [] m fs = refl
write_apps-executables (app ∷ apps) m fs = elim (Bool-cases (is_elf app.d_name)) [
  | inl elf ↦
      rw (elf, elf)
        (ap (and_then (write_elf app m fs))
          (fun_ext λ m. fun_ext λ fs. write_apps-executables apps m fs))
  | inr other ↦ rw other (write_apps-executables apps m fs)
]

pub write_apps_lem :
    (apps : List HostFile) (room : ℕ) (files : Files) (m : Mkfs) (fs : Disk)
    → Holds (11 * total_blocks apps + room) files fs
    → m.app_ino + length apps ≤ 128
    → AreHostFiles apps
    → AreElf apps
    → length (m.bin_dir ++ listing (entries_from m.app_ino apps)) < 256
    → EmptyFrom m.app_ino files
    → Returns
        (λ m' t.
          (files' : Files) × Holds room files' t
          × (m'.bin_dir ≡ m.bin_dir ++ listing (entries_from m.app_ino apps))
          × ProgramsAt m.app_ino apps files'
          × KeepsBelow m.app_ino files files')
        (write_apps apps m fs)
unfolding write_apps write_app listing
write_apps_lem [] room files m fs holds le are elf short empty = returns (
  files,
  subst (λ n. Holds n files fs) (omega arith) holds,
  sym (append-nil m.bin_dir),
  tt,
  λ j lt. refl,
)
write_apps_lem (app ∷ apps) room files m fs holds le (is_file, are) (is, elf) short empty =
    let cost : 11 * total_blocks (app ∷ apps) + room
        ≡ 11 * blocks_of app + (11 * total_blocks apps + room) =
      omega arith in
    let e = dir_entry (app_name app) m.app_ino in
    let rest = listing (entries_from (suc m.app_ino) apps) in
    let size = length-append (m.bin_dir ++ e) rest in
    let all : (m.bin_dir ++ e) ++ rest ≡ m.bin_dir ++ (e ++ rest) = append_assoc m.bin_dir e rest in
    let length_all = ap (length {A = ℕ}) all in
    rw is (
      Returns-and_then _
        (write_elf_lem (11 * total_blocks apps + room) files app m fs
          (subst (λ n. Holds n files fs) cost holds) (omega (arith, le)) is_file
          (omega (arith, size, length_all, short)) empty)
        λ m1 t (files1, holds1, ino1, dir1, has, keeps1, empty1).
          let dirs : m1.bin_dir ++ listing (entries_from m1.app_ino apps)
              ≡ m.bin_dir ++ (e ++ rest) =
            ap (λ ino. m1.bin_dir ++ listing (entries_from ino apps)) ino1
            ∙ ap (λ d. d ++ rest) dir1
            ∙ all in
          Returns-weaken
            (write_apps_lem apps room files1 m1 t holds1 (omega (arith, le, ino1)) are elf
              (subst (λ (d : List ℕ). length d < 256) (sym dirs) short)
              (subst (λ ino. EmptyFrom ino files1) (sym ino1) empty1))
            λ m2 u (files2, holds2, dir2, programs, keeps2).
              let keeps = subst (λ ino. KeepsBelow ino files1 files2) ino1 keeps2 in
              (
                files2,
                holds2,
                dir2 ∙ dirs,
                (
                  subst (HasBytes app.st_size app.contents) (sym (keeps m.app_ino (omega arith)))
                      has,
                  subst (λ ino. ProgramsAt ino apps files2) ino1 programs,
                ),
                λ j lt. keeps j (omega (arith, lt)) ∙ keeps1 j lt,
              ))
