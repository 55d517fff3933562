-- ===== src/FileSystem/Treedisk/Files/State.antt =====
-- library/file/file1.c: the files of a tree file system in the middle of an operation, which holds a
-- block of the disk in memory: `e` is the disk with this block on it.
use egos.Base.{
  ℕ, ◌<◌, ◌≡◌, ◌≢◌, inl, inr, none, some, ◌==◌, true, false, arith, refl, sym, ap, ◌∙◌, Bool-cases,
  ==_iff, ==_refl, ne→==, update, List, ◌∷◌, has,
}
use egos.FileSystem.Block.{Block, n_inodeblocks}
use egos.FileSystem.Run.{Returns, Returns-weaken}
use egos.FileSystem.Store.{InodeStore, IsArray}
use egos.FileSystem.Treedisk.{Snapshot, alloc_block}
use egos.FileSystem.Treedisk.FreeList.{FreeChain-update}
use egos.FileSystem.Treedisk.Alloc.{IsFree, alloc_block-pop}
use egos.FileSystem.Treedisk.Files.{Key, Keys, IsLayout, IsKnown}
use egos.FileSystem.Treedisk.Files.Store.{same-IsLayout}

pub some-none : {at : Key} → some at ≡ none → ⊥
some-none e = cc

module _ {S : Type 0} {below : InodeStore S} {below_ino : ℕ} (arr : IsArray below below_ino) where
  open arr use {size, contents, put, contents_put}

  -- No block of the free list is an inode block or has a key.
  pub record IsOpen (n : ℕ) (keys : Keys) (levels : ℕ → ℕ) (xs : List ℕ) (snap : Snapshot) (s : S)
      (e : ℕ → Block) : Type 0 where
    pub layout : IsLayout n size e keys levels
    pub free : IsFree arr snap s xs
    pub apart : (b : ℕ) → has b xs ≡ true → (keys b ≡ none) × (n < b)
    pub count : n_inodeblocks snap.superblock ≡ n

  pub IsFree-put :
      (snap : Snapshot) (s : S) (xs : List ℕ) (a : ℕ) (v : Block)
      → IsFree arr snap s xs
      → a ≢ 0
      → has a xs ≡ false
      → IsFree arr snap (put s a v) xs
  IsFree-put snap s xs a v f ne out = record {
    chain = rw (contents_put s a v) (FreeChain-update a v f.chain out);
    on_disk = rw (contents_put s a v, ne→== 0 a (λ e. ne (sym e))) f.on_disk;
    distinct = f.distinct;
    in_range = f.in_range;
  }

  module _ {n : ℕ} {keys : Keys} {levels : ℕ → ℕ} {xs : List ℕ} {snap : Snapshot} {s : S}
      {e : ℕ → Block} (o : IsOpen n keys levels xs snap s e) where
    -- A known block is neither the superblock nor free.
    pub known_apart : (b : ℕ) → IsKnown n keys b → (b ≢ 0) × (has b xs ≡ false)
    known_apart b (inl (lo, hi)) = elim (Bool-cases (has b xs)) [
      | inl inside ↦ absurd (omega (arith, (o.apart b inside).1, hi))
      | inr outside ↦ (λ zero_at. absurd (omega (arith, lo, zero_at)), outside)
    ]
    known_apart b (inr (at, h)) = elim (Bool-cases (has b xs)) [
      | inl inside ↦ absurd (some-none (sym h ∙ (o.apart b inside).0))
      | inr outside ↦ (λ zero_at. absurd (omega (arith, o.layout.above b at h, zero_at)), outside)
    ]

    -- The known blocks stay.
    pub IsOpen-same :
        (e' : ℕ → Block)
        → ((b : ℕ) → IsKnown n keys b → e' b ≡ e b)
        → IsOpen n keys levels xs snap s e'
    IsOpen-same e' same = record {
      layout = same-IsLayout o.layout e' same;
      free = o.free;
      apart = o.apart;
      count = o.count;
    }

  -- What an allocation leaves.
  pub record Popped (n : ℕ) (keys : Keys) (levels : ℕ → ℕ) (x : ℕ) (xs : List ℕ) (snap : Snapshot)
      (s : S) (e : ℕ → Block) (r : ℕ × Snapshot) (t : S) : Type 0 where
    pub block : r.0 ≡ x
    pub opened : IsOpen n keys levels xs r.1 t e
    pub same : (b : ℕ) → IsKnown n keys b → contents t b ≡ contents s b
    pub new : keys x ≡ none
    pub behind : n < x
    pub within : x < size
    pub once : has x xs ≡ false
    pub inodeblock : r.1.inodeblock ≡ snap.inodeblock
    pub inode_blockno : r.1.inode_blockno ≡ snap.inode_blockno
    pub inode : r.1.inode ≡ snap.inode

  pub alloc-Popped :
      (n : ℕ) (keys : Keys) (levels : ℕ → ℕ) (x : ℕ) (xs : List ℕ) (snap : Snapshot) (s : S)
      (e : ℕ → Block)
      → IsOpen n keys levels (x ∷ xs) snap s e
      → Returns (Popped n keys levels x xs snap s e) (alloc_block below below_ino snap s)
  alloc-Popped n keys levels x xs snap s e o =
      Returns-weaken (alloc_block-pop arr snap s x xs o.free) λ r t p. record {
        block = p.block;
        opened = record {
          layout = o.layout;
          free = record {
            chain = p.rest;
            on_disk = p.on_disk;
            distinct = o.free.distinct.1;
            in_range = o.free.in_range.2;
          };
          apart = λ b h. o.apart b (ground (arith, h));
          count = p.inodes ∙ o.count;
        };
        same = λ b known. let (ne, out) = known_apart o b known in p.same b ne out;
        new = (o.apart x (rw (==_refl x) refl)).0;
        behind = (o.apart x (rw (==_refl x) refl)).1;
        within = o.free.in_range.1;
        once = o.free.distinct.0;
        inodeblock = p.inodeblock;
        inode_blockno = p.inode_blockno;
        inode = p.inode;
      }

  -- A block x that was free has a key now.
  pub IsOpen-keyed :
      {n : ℕ} {keys : Keys} {levels : ℕ → ℕ} {xs : List ℕ} {snap : Snapshot} {t : S} {e : ℕ → Block}
      (o : IsOpen n keys levels xs snap t e) (x : ℕ) (at : Key) (a : ℕ) (v : Block)
      (levels' : ℕ → ℕ) (snap' : Snapshot) (e' : ℕ → Block)
      → has x xs ≡ false
      → snap'.superblock ≡ snap.superblock
      → a ≢ 0
      → has a xs ≡ false
      → IsLayout n size e' (update keys x (some at)) levels'
      → IsOpen n (update keys x (some at)) levels' xs snap' (put t a v) e'
  IsOpen-keyed {xs} o x at a v levels' snap' e' once same ne out layout =
      let free = IsFree-put _ _ xs a v o.free ne out in
      record {
        layout = layout;
        free = record {
          chain = rw same free.chain;
          on_disk = free.on_disk ∙ sym same;
          distinct = free.distinct;
          in_range = free.in_range;
        };
        apart =
            λ b h. let miss : (b == x) ≡ false = ground (arith, h, once) in rw miss (o.apart b h);
        count = rw same o.count;
      }

  module _ {n : ℕ} {keys : Keys} {levels : ℕ → ℕ} {x : ℕ} {xs : List ℕ} {snap : Snapshot} {s : S}
      {e : ℕ → Block} {r : ℕ × Snapshot} {t : S} (p : Popped n keys levels x xs snap s e r t) where
    -- A known block is not the new one.
    pub known_other : (b : ℕ) → IsKnown n keys b → (b == x) ≡ false
    known_other b (inl (lo, hi)) = ground (arith, p.behind)
    known_other b (inr (at, h)) = elim (Bool-cases (b == x)) [
      | inl here ↦ absurd (some-none (sym h ∙ ap keys ((==_iff b x).0 here) ∙ p.new))
      | inr other ↦ other
    ]

    pub Popped-over :
        (pos : ℕ) (parent : Block) (b : ℕ)
        → IsKnown n keys b
        → update (contents t) pos parent b ≡ update (contents s) pos parent b
    Popped-over pos parent b known = elim (Bool-cases (b == pos)) [
      | inl here ↦ rw here refl
      | inr other ↦ rw other (p.same b known)
    ]
