-- ===== src/Mkfs/Texts.antt =====
-- tools/mkfs.c: the loop over the texts of the first inodes.
use egos.Base.{
  ℕ, suc, ◌+◌, ◌*◌, ◌≤◌, ◌<◌, ◌≡◌, refl, sym, ◌∙◌, subst, arith, List, [], ◌∷◌, length, lt→ltb,
}
use egos.FileSystem.Run.{Returns, returns, Returns-and_then, Returns-weaken}
use egos.FileSystem.Files.{Files}
use egos.FileSystem.Ramdisk.{Disk}
use egos.Mkfs.{Bytes, write_contents, strncpy}
use egos.Mkfs.Bytes.{HasText, AreChars, char_at-lt}
use egos.Mkfs.Store.{
  Holds, Writing, Writing-byte, write_first_lem, KeepsBelow, EmptyFrom, Writing-KeepsBelow,
  Writing-EmptyFrom,
}

-- Texts of less than a block.
abbrev pub AreTexts : List (List ℕ) → Type 0
AreTexts [] = Unit {0}
AreTexts (text ∷ texts) = (length text < 512) × AreChars text × AreTexts texts

-- The inodes from `ino` on hold the texts.
abbrev pub TextsAt : ℕ → List (List ℕ) → Files → Type 0
TextsAt ino [] files = Unit {0}
TextsAt ino (text ∷ texts) files = HasText text (files ino) × TextsAt (suc ino) texts files

copied-lt :
    (inode : Bytes) (text : List ℕ) (j : ℕ) → AreChars text → j < 512 → strncpy inode text j < 256
copied-lt inode text j chars lt = rw (lt→ltb j 512 lt) (char_at-lt text j chars)

-- A block of text that was copied into the buffer.
HasText-Writing :
    (files files' : Files) (ino : ℕ) (inode : Bytes) (text : List ℕ)
    → length text < 512
    → AreChars text
    → Writing files files' ino 1 (strncpy inode text)
    → HasText text (files' ino)
HasText-Writing files files' ino inode text short chars w = (
  w.nblocks,
  λ x le.
      let within : x < 512 = omega (arith, le, short) in
      Writing-byte files files' ino 1 (strncpy inode text) x w (omega (arith, within))
        (λ j le'. copied-lt inode text j chars (omega (arith, le', within)))
      ∙ rw (lt→ltb x 512 within) refl,
)

pub TextsAt-KeepsBelow :
    (ino n : ℕ) (texts : List (List ℕ)) (files files' : Files)
    → ino + length texts ≤ n
    → KeepsBelow n files files'
    → TextsAt ino texts files
    → TextsAt ino texts files'
TextsAt-KeepsBelow ino n [] files files' le keeps at = tt
TextsAt-KeepsBelow ino n (text ∷ texts) files files' le keeps at = (
  subst (HasText text) (sym (keeps ino (omega (arith, le)))) at.0,
  TextsAt-KeepsBelow (suc ino) n texts files files' (omega (arith, le)) keeps at.1,
)

pub write_contents_lem :
    (texts : List (List ℕ)) (ino room : ℕ) (inode : Bytes) (files : Files) (fs : Disk)
    → Holds (11 * length texts + room) files fs
    → ino + length texts ≤ 128
    → AreTexts texts
    → EmptyFrom ino files
    → Returns
        (λ _ t.
          (files' : Files) × Holds room files' t
          × TextsAt ino texts files'
          × KeepsBelow ino files files'
          × EmptyFrom (ino + length texts) files')
        (write_contents texts ino inode fs)
unfolding write_contents
write_contents_lem [] ino room inode files fs holds le texts empty = returns (
  files,
  subst (λ n. Holds n files fs) (omega arith) holds,
  tt,
  λ j lt. refl,
  λ j le. empty j (omega (arith, le)),
)
write_contents_lem (text ∷ texts) ino room inode files fs holds le (short, chars, are) empty =
    let cost : 11 * suc (length texts) + room ≡ 11 + (11 * length texts + room) = omega arith in
    Returns-and_then _
      (write_first_lem (11 * length texts + room) ino (strncpy inode text) files fs
        (subst (λ n. Holds n files fs) cost holds) (omega (arith, le)) (empty ino (omega arith)))
      λ a t (files1, w, holds1).
        Returns-weaken
          (write_contents_lem texts (suc ino) room (strncpy inode text) files1 t holds1
            (omega (arith, le)) are (Writing-EmptyFrom files files1 ino 1 _ w empty))
          λ b u (files2, holds2, at, keeps, empty2). (
            files2,
            holds2,
            (
              subst (HasText text) (sym (keeps ino (omega arith)))
                  (HasText-Writing files files1 ino inode text short chars w),
              at,
            ),
            λ j lt. keeps j (omega (arith, lt)) ∙ Writing-KeepsBelow files files1 ino 1 _ w j lt,
            λ j le. empty2 j (omega (arith, le)),
          )
