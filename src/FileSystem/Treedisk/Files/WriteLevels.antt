-- ===== src/FileSystem/Treedisk/Files/WriteLevels.antt =====
-- library/file/file1.c: `treedisk_write` below its guards: growing the tree and writing the inode.
use egos.Base.{
  ℕ, suc, ◌+◌, ◌-◌, ◌/◌, ◌≤◌, ◌<◌, ◌≡◌, ◌≢◌, inl, true, false, arith, refl, sym, ap, ◌∙◌, ==_refl,
  ne→==, List, length,
}
use egos.FileSystem.Block.{Block}
use egos.FileSystem.Run.{Returns, Returns-weaken, Returns-and_then}
use egos.FileSystem.Store.{InodeStore, IsArray}
use egos.FileSystem.Treedisk.{Snapshot, grow, write_levels, nblocks_of}
use egos.FileSystem.Treedisk.Access.{write_or_panic_rule}
use egos.FileSystem.Treedisk.Files.Shift.{shift}
use egos.FileSystem.Treedisk.Files.{Keys, content, IsKnown}
use egos.FileSystem.Treedisk.Files.State.{IsOpen, IsFree-put, known_apart}
use egos.FileSystem.Treedisk.Files.Grow.{over, IsAt, Grown, grow-Grown}
use egos.FileSystem.Treedisk.Files.Write.{Written, Written-cost, walk-Written}

module _ {S : Type 0} {below : InodeStore S} {below_ino : ℕ} (arr : IsArray below below_ino) where
  open arr use {size, contents, put, contents_put}

  module _ {n : ℕ} (ino off : ℕ) (block : Block) (lt : ino / 64 < n) (fits : n < size) where
    -- What the walk leaves after the loop that grows the tree.
    module _ {rounds : ℕ} {levels : ℕ → ℕ} {xs : List ℕ} {snap q : Snapshot} {s u : S}
        (g : Grown arr n ino rounds levels xs snap s q u) where
      abbrev flushed : S
      flushed = put u q.inode_blockno q.inodeblock

      on_disk : contents flushed ≡ over arr ino q u
      on_disk = rw (contents_put u q.inode_blockno q.inodeblock, g.at_inode.1) refl

      flushed_inode : contents flushed (1 + ino / 64) ≡ q.inodeblock
      flushed_inode = rw (on_disk, ==_refl (1 + ino / 64)) refl

      pub flushed-IsOpen : IsOpen arr n g.keys g.levels g.rest q flushed (contents flushed)
      flushed-IsOpen =
          let known : IsKnown n g.keys (1 + ino / 64) = inl (omega arith, omega (arith, lt)) in
          let (ne, out) = known_apart arr g.opened (1 + ino / 64) known in
          record {
            layout = rw on_disk g.opened.layout;
            free =
                IsFree-put arr q u g.rest q.inode_blockno q.inodeblock g.opened.free
                  (λ zero_at. ne (sym g.at_inode.1 ∙ zero_at)) (rw g.at_inode.1 out);
            apart = g.opened.apart;
            count = g.opened.count;
          }

      pub grown-Written :
          (after cost : ℕ) (t : S)
          → rounds + suc after ≤ cost
          → Written arr
              (suc after)
              n
              ino
              off
              after
              block
              q.inodeblock
              g.levels
              g.rest
              (contents flushed)
              flushed
              t
          → Written arr cost n ino off after block snap.inodeblock levels xs
              (over arr ino snap s)
              s
              t
      grown-Written after cost t cheap w = record {
        snap = w.snap;
        keys = w.keys;
        levels = w.levels;
        rest = w.rest;
        opened = w.opened;
        height = w.height;
        heights = λ i other. w.heights i other ∙ g.others i other;
        left = omega (arith, w.left, g.left, cheap);
        others = λ i o lt' other.
            w.others i o lt' other ∙ ap (λ e. content e g.levels i o) on_disk ∙ g.holds i o lt';
        written = w.written;
        words = λ j other. w.words j other ∙ g.words j other;
        inodes = λ b lo hi other.
            w.inodes b lo hi other
            ∙ ap (λ (e : ℕ → Block). e b) on_disk
            ∙ rw (ne→== b (1 + ino / 64) other) (g.inodes b lo hi);
      }

    module _ {keys : Keys} {xs : List ℕ} (levels : ℕ → ℕ) (nlevels : ℕ) (snap : Snapshot) (s : S)
        (some_blocks : nblocks_of snap ≢ 0) (at : IsAt ino snap)
        (height : levels ino ≡ nlevels) where
      -- The inode has changed.
      pub write_levels-dirty :
          (after : ℕ)
          → nlevels ≤ after
          → after ≤ 5
          → shift off after ≡ 0
          → 11 ≤ length xs
          → IsOpen arr n keys levels xs snap s (over arr ino snap s)
          → Returns
              (λ _ t.
                Written arr 11 n ino off after block snap.inodeblock levels xs
                  (over arr ino snap s)
                  s
                  t)
              (write_levels below below_ino off block nlevels after true snap s)
      unfolding write_levels
      write_levels-dirty after le few reach enough o =
          let sum : nlevels + (after - nlevels) ≡ after = omega (arith, le) in
          rw (ne→== (nblocks_of snap) 0 some_blocks, sum)
            (Returns-and_then _
              (grow-Grown arr ino lt (after - nlevels) keys levels xs snap s o at
                (omega (arith, enough, few)))
              λ q u g.
                write_or_panic_rule arr q.inode_blockno u (omega (arith, g.at_inode.1, lt, fits)) _
                  _
                  (Returns-weaken
                    (walk-Written arr ino off block lt fits g.levels after q (flushed g)
                      (flushed-IsOpen g) g.at_inode (flushed_inode g)
                      (omega (arith, g.raised, height, le)) few reach
                      (omega (arith, g.left, enough, few)))
                    λ _ t w. grown-Written g after 11 t (omega (arith, few)) w))

      -- It has not.
      pub write_levels-clean :
          nlevels ≤ 5
          → shift off nlevels ≡ 0
          → 11 ≤ length xs
          → contents s (1 + ino / 64) ≡ snap.inodeblock
          → IsOpen arr n keys levels xs snap s (contents s)
          → Returns
              (λ _ t.
                Written arr 11 n ino off nlevels block snap.inodeblock levels xs (contents s) s t)
              (write_levels below below_ino off block nlevels nlevels false snap s)
      unfolding write_levels grow
      write_levels-clean few reach enough held o =
          let none_new : nlevels - nlevels ≡ 0 = omega arith in
          let sum : nlevels + 0 ≡ nlevels = omega arith in
          rw (ne→== (nblocks_of snap) 0 some_blocks, none_new, sum)
            (Returns-weaken
              (walk-Written arr ino off block lt fits levels nlevels snap s o at held height few
                reach (omega (arith, enough, few)))
              λ _ t w. Written-cost arr 11 (omega (arith, few)) w)
