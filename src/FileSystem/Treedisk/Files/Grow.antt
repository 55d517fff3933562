-- ===== src/FileSystem/Treedisk/Files/Grow.antt =====
-- library/file/file1.c: the loop of `treedisk_write` that puts new roots above the tree of a file.
use egos.Base.{
  ℕ, zero, suc, ◌+◌, ◌*◌, ◌/◌, ◌%◌, ◌≤◌, ◌<◌, ◌≡◌, inl, some, ◌==◌, false, arith, refl, ◌∙◌,
  ==_refl, ne→==, update, List, [], ◌∷◌, length,
}
use egos.FileSystem.Block.{Block, null_block, root_word}
use egos.FileSystem.Run.{Returns, returns, Returns-weaken, Returns-and_then}
use egos.FileSystem.Store.{InodeStore, IsArray}
use egos.FileSystem.Treedisk.{Snapshot, grow, root_of}
use egos.FileSystem.Treedisk.Reading.{file_root}
use egos.FileSystem.Treedisk.Access.{write_or_panic_rule}
use egos.FileSystem.Treedisk.Files.{key, Keys, content}
use egos.FileSystem.Treedisk.Files.Store.{same-content}
use egos.FileSystem.Treedisk.Files.Raise.{Raised, Raised-IsLayout, Raised-content}
use egos.FileSystem.Treedisk.Files.State.{
  IsOpen, IsOpen-same, IsOpen-keyed, Popped, Popped-over, alloc-Popped, known_other,
}

-- The snapshot is of inode `ino`.
abbrev pub IsAt : ℕ → Snapshot → Type 0
IsAt ino snap = (snap.inode ≡ ino % 64) × (snap.inode_blockno ≡ 1 + ino / 64)

module _ {S : Type 0} {below : InodeStore S} {below_ino : ℕ} (arr : IsArray below below_ino) where
  open arr use {size, contents, put, contents_put}

  -- The disk with the inode block of the snapshot on it.
  abbrev pub over : ℕ → Snapshot → S → ℕ → Block
  over ino snap s = update (contents s) (1 + ino / 64) snap.inodeblock

  pub record Grown (n ino rounds : ℕ) (old_levels : ℕ → ℕ) (xs : List ℕ) (snap : Snapshot) (s : S)
      (r : Snapshot) (t : S) : Type 0 where
    pub keys : Keys
    pub levels : ℕ → ℕ
    pub rest : List ℕ
    pub opened : IsOpen arr n keys levels rest r t (over ino r t)
    pub at_inode : IsAt ino r
    pub raised : levels ino ≡ old_levels ino + rounds
    pub others : (i : ℕ) → (i == ino) ≡ false → levels i ≡ old_levels i
    pub left : length xs ≡ rounds + length rest
    pub words : (j : ℕ) → (j == 2 * (ino % 64)) ≡ false → r.inodeblock j ≡ snap.inodeblock j
    pub inodes : (b : ℕ) → 1 ≤ b → b ≤ n → contents t b ≡ contents s b
    pub holds :
        (i off : ℕ)
        → i / 64 < n
        → content (over ino r t) levels i off ≡ content (over ino snap s) old_levels i off

  module _ {n : ℕ} (ino : ℕ) (lt : ino / 64 < n) where
    -- One round.
    module _ {keys : Keys} {levels : ℕ → ℕ} {x : ℕ} {xs : List ℕ} {snap : Snapshot} {s : S}
        {r : ℕ × Snapshot} {t : S} (at : IsAt ino snap)
        (p : Popped arr n keys levels x xs snap s (over ino snap s) r t) where
      abbrev pub new_root : Block
      new_root = update null_block 0 (root_of r.1)

      abbrev pub raised_snap : Snapshot
      raised_snap = record r.1 { inodeblock = update r.1.inodeblock (root_word r.1.inode) x }

      round-IsOpen : IsOpen arr n keys levels xs r.1 t (over ino snap t)
      round-IsOpen =
          IsOpen-same arr p.opened (over ino snap t)
            (Popped-over arr p (1 + ino / 64) snap.inodeblock)

      round-Raised :
          Raised n size keys (over ino snap t) (over ino raised_snap (put t x new_root)) ino x
      round-Raised =
          let above = p.behind in
          let held : file_root (over ino snap t) ino ≡ snap.inodeblock (2 * (ino % 64)) =
            rw (==_refl (1 + ino / 64)) refl in
          let slot : r.1.inode ≡ ino % 64 = p.inode ∙ at.0 in
          let apart : (x == 1 + ino / 64) ≡ false = ground arith in
          record {
            same = λ b known other.
                let miss = ne→== b (1 + ino / 64) other in
                rw (miss, contents_put t x new_root, known_other arr p b known) refl;
            inode = λ j. rw (==_refl (1 + ino / 64), p.inodeblock, slot) refl;
            root = λ j.
                rw (apart, contents_put t x new_root, ==_refl x, held, p.inodeblock, slot) refl;
            new = p.new;
            above = p.behind;
            below = p.within;
          }

      pub round-opened :
          IsOpen arr n
            (update keys x (some (key ino (suc (levels ino)) 0)))
            (update levels ino (suc (levels ino)))
            xs
            raised_snap
            (put t x new_root)
            (over ino raised_snap (put t x new_root))
      round-opened =
          IsOpen-keyed arr round-IsOpen x _ x new_root _ raised_snap _ p.once refl
            (λ zero_at. absurd (omega (arith, p.behind, zero_at))) p.once
            (Raised-IsLayout round-IsOpen.layout round-Raised lt)

      pub round-content :
          (i off : ℕ)
          → i / 64 < n
          → content
              (over ino raised_snap (put t x new_root))
              (update levels ino (suc (levels ino)))
              i
              off
            ≡ content (over ino snap s) levels i off
      round-content i off lt' =
          Raised-content round-IsOpen.layout round-Raised lt i off lt'
          ∙ same-content p.opened.layout (over ino snap t)
              (Popped-over arr p (1 + ino / 64) snap.inodeblock) i off lt'

      pub round-IsAt : IsAt ino raised_snap
      round-IsAt = (p.inode ∙ at.0, p.inode_blockno ∙ at.1)

      -- What later rounds leave, after this one.
      pub round-Grown :
          (rounds : ℕ) (q : Snapshot) (u : S)
          → Grown n ino rounds
              (update levels ino (suc (levels ino)))
              xs
              raised_snap
              (put t x new_root)
              q
              u
          → Grown n ino (suc rounds) levels (x ∷ xs) snap s q u
      round-Grown rounds q u g = record {
        keys = g.keys;
        levels = g.levels;
        rest = g.rest;
        opened = g.opened;
        at_inode = g.at_inode;
        raised = rw (g.raised, ==_refl ino) (omega arith);
        others = λ i other. rw (g.others i other, other) refl;
        left = omega (arith, g.left);
        words = λ j other.
            let slot : r.1.inode ≡ ino % 64 = p.inode ∙ at.0 in
            g.words j other ∙ rw (slot, other, p.inodeblock) refl;
        inodes = λ b lo hi.
            let miss : (b == x) ≡ false = known_other arr p b (inl (lo, hi)) in
            rw (g.inodes b lo hi, contents_put t x new_root, miss) (p.same b (inl (lo, hi)));
        holds = λ i off lt'. g.holds i off lt' ∙ round-content i off lt';
      }

    -- The loop finds its free blocks and leaves the contents of all files.
    pub grow-Grown :
        (rounds : ℕ) (keys : Keys) (levels : ℕ → ℕ) (xs : List ℕ) (snap : Snapshot) (s : S)
        → IsOpen arr n keys levels xs snap s (over ino snap s)
        → IsAt ino snap
        → rounds ≤ length xs
        → Returns (Grown n ino rounds levels xs snap s) (grow below below_ino rounds snap s)
    unfolding grow
    grow-Grown zero keys levels xs snap s o at enough = returns (record {
      keys = keys;
      levels = levels;
      rest = xs;
      opened = o;
      at_inode = at;
      raised = omega arith;
      others = λ i other. refl;
      left = omega arith;
      words = λ j other. refl;
      inodes = λ b lo hi. refl;
      holds = λ i off lt'. refl;
    })
    grow-Grown (suc rounds) keys levels [] snap s o at enough = absurd (omega (arith, enough))
    grow-Grown (suc rounds) keys levels (x ∷ xs) snap s o at enough =
        Returns-and_then _ (alloc-Popped arr n keys levels x xs snap s (over ino snap s) o) λ r t p.
          rw p.block (
            write_or_panic_rule arr x t p.within (new_root at p) _ (
              Returns-weaken
                (grow-Grown rounds _ _ xs (raised_snap at p) (put t x (new_root at p))
                  (round-opened at p) (round-IsAt at p) (omega (arith, enough)))
                λ q u g. round-Grown at p rounds q u g))
