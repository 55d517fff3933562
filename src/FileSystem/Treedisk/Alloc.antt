-- ===== src/FileSystem/Treedisk/Alloc.antt =====
-- library/file/file1.c: `treedisk_alloc_block` pops the free list.
use egos.Base.{
  ℕ, ◌<◌, ◌≡◌, ◌≢◌, refl, sym, subst, inl, inr, false, List, [], ◌∷◌, ◌++◌, arith, update, has,
  ne→==, ==_refl,
}
use egos.FileSystem.Block.{free_list, n_inodeblocks}
use egos.FileSystem.Treedisk.{Snapshot, scan, alloc_block}
use egos.FileSystem.Treedisk.Access.{read_or_panic_rule, write_or_panic_rule}
use egos.FileSystem.Run.{Returns, returns, panic}
use egos.FileSystem.Store.{InodeStore, IsArray}
use egos.FileSystem.Treedisk.FreeList.{
  Distinct, FreeChain, FreeChain-update, InRange, cons_or_append, has-InRange, has-tail,
  head-Distinct, head-InRange, out_of_parts, scan-Scans, slots, tail-eq, end, link,
}

module _ {S : Type 0} {below : InodeStore S} {ino : ℕ} (arr : IsArray below ino) where
  open arr use {size, contents, put, read_ok, write_ok, contents_put}

  -- What the allocation of block x leaves: the rest of the list, the superblock on the disk, and
  -- every block that was neither free nor the superblock.
  pub record Taken (x : ℕ) (xs : List ℕ) (snap : Snapshot) (s : S) (r : ℕ × Snapshot) (t : S)
      : Type 0 where
    pub block : r.0 ≡ x
    pub rest : FreeChain (contents t) (free_list r.1.superblock) xs
    pub on_disk : contents t 0 ≡ r.1.superblock
    pub same : (a : ℕ) → a ≢ 0 → has a (x ∷ xs) ≡ false → contents t a ≡ contents s a
    pub inodes : n_inodeblocks r.1.superblock ≡ n_inodeblocks snap.superblock
    pub inodeblock : r.1.inodeblock ≡ snap.inodeblock
    pub inode_blockno : r.1.inode_blockno ≡ snap.inode_blockno
    pub inode : r.1.inode ≡ snap.inode

  -- The free block list of the disk is this one.
  pub record IsFree (snap : Snapshot) (s : S) (xs : List ℕ) : Type 0 where
    pub chain : FreeChain (contents s) (free_list snap.superblock) xs
    pub on_disk : contents s 0 ≡ snap.superblock
    pub distinct : Distinct xs
    pub in_range : InRange 1 size xs

  alloc_last :
      (b : ℕ) (rest : List ℕ) (snap : Snapshot) (s : S)
      → free_list snap.superblock ≡ b
      → FreeChain (contents s) (contents s b 0) rest
      → b ≢ 0
      → b < size
      → has 0 rest ≡ false
      → scan 127 (contents s b) ≡ 0
      → Returns (Taken b rest snap s) (alloc_block below ino snap s)
  unfolding alloc_block
  alloc_last b rest snap s head chain ne lt out none_left =
      rw (head, ne→== b 0 ne)
        (read_or_panic_rule arr b s lt _ (
          rw none_left (
            write_or_panic_rule arr 0 s (omega arith) _ _ (
              returns (record {
                block = refl;
                rest = rw (contents_put s 0 _) (FreeChain-update 0 _ chain out);
                on_disk = rw (contents_put s 0 _) refl;
                same = λ a ne0 _. rw (contents_put s 0 _, ne→== a 0 ne0) refl;
                inodes = refl;
                inodeblock = refl;
                inode_blockno = refl;
                inode = refl;
              })))))

  alloc_slot :
      (b i : ℕ) (xs rest : List ℕ) (snap : Snapshot) (s : S)
      → free_list snap.superblock ≡ b
      → FreeChain (contents s) (contents s b 0) rest
      → b ≢ 0
      → b < size
      → has b rest ≡ false
      → scan 127 (contents s b) ≡ i
      → i ≢ 0
      → xs ≡ slots 127 (update (contents s b) i 0) ++ b ∷ rest
      → contents s 0 ≡ snap.superblock
      → Returns (Taken (contents s b i) xs snap s) (alloc_block below ino snap s)
  unfolding alloc_block
  alloc_slot b i xs rest snap s head chain ne lt out found some_left left on_disk =
      rw (head, ne→== b 0 ne)
        (read_or_panic_rule arr b s lt _ (
          rw (found, ne→== i 0 some_left)
            (write_or_panic_rule arr b s lt _ _ (
              returns (record {
                block = refl;
                rest =
                    rw (contents_put s b _, head)
                      (link {rest = rest} {xs = xs} ne
                        (rw (==_refl b, ne→== 0 i (λ e. some_left (sym e)))
                          (FreeChain-update b _ chain out))
                        (rw (==_refl b) left));
                on_disk = rw (contents_put s b _, ne→== 0 b (λ e. ne (sym e))) on_disk;
                same = λ a ne0 o.
                    let miss =
                      out_of_parts a b (slots 127 (update (contents s b) i 0)) rest
                        (rw left at (has-tail a _ xs o)) in
                    rw (contents_put s b _, ne→== a b (λ e. miss.0 (sym e))) refl;
                inodes = refl;
                inodeblock = refl;
                inode_blockno = refl;
                inode = refl;
              })))))

  alloc_chain :
      (b x : ℕ) (xs : List ℕ) (snap : Snapshot) (s : S)
      → free_list snap.superblock ≡ b
      → FreeChain (contents s) b (x ∷ xs)
      → contents s 0 ≡ snap.superblock
      → Distinct (x ∷ xs)
      → InRange 1 size (x ∷ xs)
      → Returns (Taken x xs snap s) (alloc_block below ino snap s)
  alloc_chain b x xs snap s head (link {rest} ne chain e) on_disk distinct range =
      let bound =
        head-InRange b 1 size (slots 127 (contents s b)) rest (subst (InRange 1 size) e range) in
      let apart = head-Distinct b (slots 127 (contents s b)) rest (subst Distinct e distinct) in
      elim (scan-Scans 127 (contents s b)) [
        | inl (none_left, empty) ↦
            let (here, there) = tail-eq (rw empty at e) in
            let out = has-InRange 0 1 size (x ∷ xs) range (omega arith) in
            rw (here, there)
              (alloc_last b rest snap s head chain ne bound.1 (rw there at (has-tail 0 x xs out))
                none_left)
        | inr (some_left, le, found) ↦
            let (here, there) = tail-eq (rw found at e) in
            rw here (
              alloc_slot b _ xs rest snap s head chain ne bound.1 apart refl some_left there
                on_disk)
      ]

  -- If the free list of the disk is x followed by xs, without repetition and within the store,
  -- then `treedisk_alloc_block` returns x and leaves the list xs, with the superblock on the
  -- disk as in the snapshot, the inode of the snapshot as it was, and no change to any block
  -- that was neither free nor the superblock.
  pub alloc_block-pop :
      (snap : Snapshot) (s : S) (x : ℕ) (xs : List ℕ)
      → IsFree snap s (x ∷ xs)
      → Returns (Taken x xs snap s) (alloc_block below ino snap s)
  alloc_block-pop snap s x xs f =
      alloc_chain _ x xs snap s refl f.chain f.on_disk f.distinct f.in_range

  alloc_nil :
      (b : ℕ) (snap : Snapshot) (s : S)
      → free_list snap.superblock ≡ b
      → FreeChain (contents s) b []
      → alloc_block below ino snap s ≡ panic s
  unfolding alloc_block
  alloc_nil b snap s head end = rw head
  alloc_nil b snap s head (link {rest} ne chain e) = absurd (cons_or_append b _ rest (sym e))
