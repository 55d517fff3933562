-- ===== src/FileSystem/Treedisk/Files/Kept.antt =====
-- library/file/file1.c: what the walk of `treedisk_write` leaves of the files, from each height of the
-- tree.
use egos.Base.{
  ℕ, suc, ◌+◌, ◌/◌, ◌≤◌, ◌<◌, ◌≡◌, ◌≢◌, inr, some, ◌==◌, if◌then◌else◌, false, arith, refl, ap, ◌∙◌,
  ==_refl, ne→==, update, List, length,
}
use egos.FileSystem.Block.{Block}
use egos.FileSystem.Store.{InodeStore, IsArray}
use egos.FileSystem.Treedisk.{Snapshot, index_at}
use egos.FileSystem.Treedisk.Files.Shift.{index_at-shift}
use egos.FileSystem.Treedisk.Files.{key, Keys, block_at, content, IsKnown}
use egos.FileSystem.Treedisk.Files.Store.{stored-IsLayout, stored-content}
use egos.FileSystem.Treedisk.Files.State.{IsOpen, IsFree-put, known_apart}

-- Block b is of no height below l in the tree of the inode.
abbrev pub IsUpper : Keys → ℕ → ℕ → ℕ → Type 0
IsUpper keys ino l b = (h m : ℕ) → h < l → keys b ≡ some (key ino h m) → ⊥

-- Word `slot` of `pos` refers to c now, on the disk e'.
pub record Linked (n ino l pos slot c : ℕ) (keys keys' : Keys) (levels : ℕ → ℕ) (xs xs' : List ℕ)
    (e e' : ℕ → Block) : Type 0 where
  pub there : c ≢ 0
  pub word : (j : ℕ) → e' pos j ≡ (if j == slot then c else e pos j)
  pub same : (b : ℕ) → IsKnown n keys b → b ≢ pos → e' b ≡ e b
  pub fits :
      (b : ℕ)
      → IsKnown n keys b
      → IsUpper keys ino (suc l) b
      → IsKnown n keys' b × (b ≢ c) × IsUpper keys' ino l b
  pub known : IsKnown n keys pos
  pub high : IsUpper keys ino (suc l) pos
  pub holds : (i o : ℕ) → i / 64 < n → content e' levels i o ≡ content e levels i o
  pub fewer : length xs ≤ suc (length xs')

module _ {S : Type 0} {below : InodeStore S} {below_ino : ℕ} (arr : IsArray below below_ino) where
  open arr use {size, contents, put, contents_put}

  -- The file has the new block at the offset, and the others have their contents, compared to
  -- the disk e, which has the block on it that was in memory.
  pub record Kept (n ino off l : ℕ) (levels : ℕ → ℕ) (xs : List ℕ) (e : ℕ → Block) (t : S)
      : Type 0 where
    pub snap : Snapshot
    pub keys : Keys
    pub rest : List ℕ
    pub opened : IsOpen arr n keys levels rest snap t (contents t)
    pub left : length xs ≤ l + length rest
    pub others :
        (i o : ℕ)
        → i / 64 < n
        → (i ≡ ino → o ≡ off → ⊥)
        → content (contents t) levels i o ≡ content e levels i o

  -- What the walk through block c of height l leaves.
  pub record Stored (n ino off l c : ℕ) (block : Block) (keys : Keys) (levels : ℕ → ℕ) (xs : List ℕ)
      (e : ℕ → Block) (t : S) : Type 0 where
    pub kept : Kept n ino off l levels xs e t
    pub reached : block_at (contents t) off l c ≡ block
    pub upper : (b : ℕ) → IsKnown n keys b → b ≢ c → IsUpper keys ino l b → contents t b ≡ e b

  -- What the walk from word `slot` of block `pos` leaves.
  pub record Descended (n ino off l pos slot : ℕ) (block : Block) (keys : Keys) (levels : ℕ → ℕ)
      (xs : List ℕ) (e : ℕ → Block) (t : S) : Type 0 where
    pub kept : Kept n ino off (suc l) levels xs e t
    pub written : block_at (contents t) off l (contents t pos slot) ≡ block
    pub words : (j : ℕ) → (j == slot) ≡ false → contents t pos j ≡ e pos j
    pub upper :
        (b : ℕ) → IsKnown n keys b → b ≢ pos → IsUpper keys ino (suc l) b → contents t b ≡ e b

  module _ {n ino off l pos slot c : ℕ} {block : Block} {keys keys' : Keys} {levels : ℕ → ℕ}
      {xs xs' : List ℕ} {e e' : ℕ → Block} {t : S}
      (k : Linked n ino l pos slot c keys keys' levels xs xs' e e')
      (d : Stored n ino off l c block keys' levels xs' e' t) where
    Stored-word : (j : ℕ) → contents t pos j ≡ (if j == slot then c else e pos j)
    Stored-word j =
        let (known, ne, up) = k.fits pos k.known k.high in
        ap (λ (b : Block). b j) (d.upper pos known ne up) ∙ k.word j

    pub Stored-Descended : Descended n ino off l pos slot block keys levels xs e t
    Stored-Descended = record {
      kept = record {
        snap = d.kept.snap;
        keys = d.kept.keys;
        rest = d.kept.rest;
        opened = d.kept.opened;
        left = omega (arith, d.kept.left, k.fewer);
        others = λ i o lt other. d.kept.others i o lt other ∙ k.holds i o lt;
      };
      written = rw (Stored-word slot, ==_refl slot) d.reached;
      words = λ j other. rw (Stored-word j, other) refl;
      upper = λ b known other up.
          let (known', ne, up') = k.fits b known up in
          d.upper b known' ne up' ∙ k.same b known other;
    }

  pub Descended-Stored :
      {n ino off l c : ℕ} {block : Block} {keys : Keys} {levels : ℕ → ℕ} {xs : List ℕ}
      {e : ℕ → Block} {t : S}
      → c ≢ 0
      → l < 5
      → Descended n ino off l c (index_at off l) block keys levels xs e t
      → Stored n ino off (suc l) c block keys levels xs e t
  unfolding block_at
  Descended-Stored {off} {l} {c} there few d = record {
    kept = d.kept;
    reached = rw (ne→== c 0 there, ← index_at-shift off l few) d.written;
    upper = d.upper;
  }

  -- A write to the data block c.
  module _ {n ino off c : ℕ} (w : Block) {keys : Keys} {levels : ℕ → ℕ} {xs : List ℕ}
      {snap : Snapshot} {s : S} (block : Block) (at : keys c ≡ some (key ino 0 off))
      (o : IsOpen arr n keys levels xs snap s (update (contents s) c w)) where
    pub write-Stored :
        Stored n ino off 0 c block keys levels xs (update (contents s) c w) (put s c block)
    unfolding block_at
    write-Stored =
        let (ne, out) = known_apart arr o c (inr (_, at)) in
        let same : (b : ℕ) → b ≢ c → contents (put s c block) b ≡ update (contents s) c w b =
          λ b other. rw (contents_put s c block, ne→== b c other) refl in
        record {
          kept = record {
            snap = snap;
            keys = keys;
            rest = xs;
            opened = record {
              layout = stored-IsLayout o.layout _ c ino off at λ b _ other. same b other;
              free = IsFree-put arr snap s xs c block o.free ne out;
              apart = o.apart;
              count = o.count;
            };
            left = omega arith;
            others = stored-content o.layout _ c ino off at λ b _ other. same b other;
          };
          reached = rw (ne→== c 0 ne, contents_put s c block, ==_refl c) refl;
          upper = λ b _ other _. same b other;
        }
