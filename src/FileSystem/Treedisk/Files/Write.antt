-- ===== src/FileSystem/Treedisk/Files/Write.antt =====
-- library/file/file1.c: what `treedisk_write` leaves when it walks down from an inode on the disk.
use egos.Base.{
  ℕ, suc, ◌+◌, ◌*◌, ◌/◌, ◌%◌, ◌≤◌, ◌<◌, ◌≡◌, ◌≢◌, inl, inr, ◌==◌, false, arith, refl, sym, ◌∙◌,
  Bool-cases, ==_iff, ==_refl, update, List, length,
}
use egos.FileSystem.Block.{Block, root_word}
use egos.FileSystem.Run.{Returns, Returns-weaken}
use egos.FileSystem.Store.{InodeStore, IsArray}
use egos.FileSystem.Treedisk.{Snapshot, descend}
use egos.FileSystem.Treedisk.Files.Shift.{shift}
use egos.FileSystem.Treedisk.Files.{Keys, content}
use egos.FileSystem.Treedisk.Files.Store.{same-content}
use egos.FileSystem.Treedisk.Files.State.{IsOpen, IsOpen-same}
use egos.FileSystem.Treedisk.Files.Grow.{IsAt}
use egos.FileSystem.Treedisk.Files.Descend.{descend-Descended}

module _ {S : Type 0} {below : InodeStore S} {below_ino : ℕ} (arr : IsArray below below_ino) where
  open arr use {size, contents, put, contents_put}

  -- The file has the new block at the offset, a tree of height `after`, and the inode words `ib`.
  pub record Written (cost n ino off after : ℕ) (block ib : Block) (old_levels : ℕ → ℕ)
      (xs : List ℕ) (e : ℕ → Block) (s t : S) : Type 0 where
    pub snap : Snapshot
    pub keys : Keys
    pub levels : ℕ → ℕ
    pub rest : List ℕ
    pub opened : IsOpen arr n keys levels rest snap t (contents t)
    pub height : levels ino ≡ after
    pub heights : (i : ℕ) → (i == ino) ≡ false → levels i ≡ old_levels i
    pub left : length xs ≤ cost + length rest
    pub others :
        (i o : ℕ)
        → i / 64 < n
        → (i ≡ ino → o ≡ off → ⊥)
        → content (contents t) levels i o ≡ content e old_levels i o
    pub written : content (contents t) levels ino off ≡ block
    pub words : (j : ℕ) → (j == 2 * (ino % 64)) ≡ false → contents t (1 + ino / 64) j ≡ ib j
    pub inodes : (b : ℕ) → 1 ≤ b → b ≤ n → b ≢ 1 + ino / 64 → contents t b ≡ contents s b

  pub Written-cost :
      {cost n ino off after : ℕ} {block ib : Block} {levels : ℕ → ℕ} {xs : List ℕ} {e : ℕ → Block}
      {s t : S} (cost' : ℕ)
      → cost ≤ cost'
      → Written cost n ino off after block ib levels xs e s t
      → Written cost' n ino off after block ib levels xs e s t
  Written-cost cost' le w = record {
    snap = w.snap;
    keys = w.keys;
    levels = w.levels;
    rest = w.rest;
    opened = w.opened;
    height = w.height;
    heights = w.heights;
    left = omega (arith, w.left, le);
    others = w.others;
    written = w.written;
    words = w.words;
    inodes = w.inodes;
  }

  module _ {n : ℕ} (ino off : ℕ) (block : Block) (lt : ino / 64 < n) (fits : n < size) where
    -- The walk, from the inode that is on the disk.
    pub walk-Written :
        {keys : Keys} {xs : List ℕ} (levels : ℕ → ℕ) (l : ℕ) (snap : Snapshot) (s : S)
        → IsOpen arr n keys levels xs snap s (contents s)
        → IsAt ino snap
        → contents s (1 + ino / 64) ≡ snap.inodeblock
        → levels ino ≡ l
        → l ≤ 5
        → shift off l ≡ 0
        → l < length xs
        → Returns
            (λ _ t. Written (suc l) n ino off l block snap.inodeblock levels xs (contents s) s t)
            (descend below below_ino off block l
              (root_word snap.inode)
              snap.inode_blockno
              snap.inodeblock
              snap
              s)
    unfolding content
    walk-Written {keys} {xs} levels l snap s o at flushed height few reach enough =
        let same : (b : ℕ)
            → update (contents s) snap.inode_blockno snap.inodeblock b ≡ contents s b =
          λ b. elim (Bool-cases (b == 1 + ino / 64)) [
            | inl here ↦ rw (at.1, here, (==_iff b _).0 here) (sym flushed)
            | inr other ↦ rw (at.1, other) refl
          ] in
        let slot : root_word snap.inode ≡ 2 * (ino % 64) = rw at.0 refl in
        Returns-weaken
          (descend-Descended arr ino off block lt l snap.inode_blockno (root_word snap.inode)
            snap.inodeblock keys xs snap s few enough (inl (lt, at.1, slot, sym height, reach))
            (λ _. rw at.1 flushed) (omega (arith, at.1, lt, fits))
            (IsOpen-same arr o _ λ b _. same b))
          λ _ t d. record {
            snap = d.kept.snap;
            keys = d.kept.keys;
            levels = levels;
            rest = d.kept.rest;
            opened = d.kept.opened;
            height = height;
            heights = λ i _. refl;
            left = omega (arith, d.kept.left, few);
            others = λ i o' lt' other.
                d.kept.others i o' lt' other
                ∙ same-content o.layout (update (contents s) snap.inode_blockno snap.inodeblock)
                    (λ b _. same b) i o' lt';
            written = rw (height, reach, ← at.1, ← slot) d.written;
            words = λ j other.
                let word = d.words j (rw slot other) in
                rw (← at.1) (word ∙ rw (==_refl snap.inode_blockno) refl);
            inodes = λ b lo hi other.
                d.upper b (inl (lo, hi)) (λ here. other (here ∙ at.1))
                  (λ h m _ keyed. absurd (omega (arith, o.layout.above b _ keyed, hi)))
                ∙ same b;
          }
