-- ===== src/FileSystem/Treedisk/Files/Descend.antt =====
-- library/file/file1.c: the walk of `treedisk_write` down to the data block, which it writes.
use egos.Base.{
  ℕ, zero, suc, ◌/◌, ◌≤◌, ◌<◌, ◌≡◌, ◌≢◌, inl, inr, some, ◌==◌, arith, refl, Bool-cases, ==_iff,
  ==_refl, update, List, [], ◌∷◌, length,
}
use egos.FileSystem.Block.{Block, null_block}
use egos.FileSystem.Run.{Returns, Returns-weaken, Returns-and_then}
use egos.FileSystem.Store.{InodeStore, IsArray}
use egos.FileSystem.Treedisk.{Snapshot, descend, index_at}
use egos.FileSystem.Treedisk.Access.{read_or_panic_rule, write_or_panic_rule, write_or_panic_last}
use egos.FileSystem.Treedisk.Files.Shift.{shift}
use egos.FileSystem.Treedisk.Files.{key, Keys}
use egos.FileSystem.Treedisk.Files.Attach.{IsCell, ne_of}
use egos.FileSystem.Treedisk.Files.State.{IsOpen, alloc-Popped}
use egos.FileSystem.Treedisk.Files.Kept.{
  Descended, Stored-Descended, Descended-Stored, write-Stored,
}
use egos.FileSystem.Treedisk.Files.Link.{
  child-IsCell, link-opened, link-Linked, ref_at, ref-opened, ref-Linked,
}

module _ {S : Type 0} {below : InodeStore S} {below_ino : ℕ} (arr : IsArray below below_ino) where
  open arr use {size, contents, put, contents_put}

  module _ {n : ℕ} (ino off : ℕ) {levels : ℕ → ℕ} (block : Block) (lt : ino / 64 < n) where
    -- The walk finds its free blocks, writes the block, and leaves the rest of the files.
    pub descend-Descended :
        (l pos slot : ℕ) (parent : Block) (keys : Keys) (xs : List ℕ) (snap : Snapshot) (s : S)
        → l ≤ 5
        → l < length xs
        → IsCell n keys levels pos slot ino l (shift off l)
        → (parent slot ≢ 0 → contents s pos ≡ parent)
        → pos < size
        → IsOpen arr n keys levels xs snap s (update (contents s) pos parent)
        → Returns
            (λ _ t.
              Descended arr n ino off l pos slot block keys levels xs
                (update (contents s) pos parent)
                t)
            (descend below below_ino off block l slot pos parent snap s)
    unfolding descend
    descend-Descended l pos slot parent keys [] snap s few enough cell flush within o =
        absurd (omega (arith, enough))
    descend-Descended zero pos slot parent keys (x ∷ xs) snap s few enough cell flush within o =
        elim (Bool-cases (parent slot == 0)) [
          | inl none_there ↦
              let hole : parent slot ≡ 0 = (==_iff _ 0).0 none_there in
              rw none_there (
                Returns-and_then _ (alloc-Popped arr n keys levels x xs snap s _ o) λ r t p.
                  rw p.block (
                    write_or_panic_rule arr pos t within _ _ (
                      write_or_panic_last arr x _ block p.within (
                        Stored-Descended arr
                          (link-Linked arr ino off lt pos slot 0 x parent cell hole p)
                          (write-Stored arr null_block block (rw (==_refl x) refl)
                            (link-opened arr ino off lt pos slot 0 x parent cell hole p))))))
          | inr some_there ↦
              let there = ne_of (parent slot) 0 some_there in
              rw some_there (
                write_or_panic_last arr (parent slot) s block
                  (o.layout.below (parent slot) _
                    (ref_at arr ino off lt pos slot 0 parent cell there (flush there) o))
                  (Stored-Descended arr
                    (ref-Linked arr ino off lt pos slot 0 parent cell there (flush there) o)
                    (write-Stored arr _ block
                      (ref_at arr ino off lt pos slot 0 parent cell there (flush there) o)
                      (ref-opened arr ino off lt pos slot 0 parent cell there (flush there) o))))
        ]
    descend-Descended (suc l) pos slot parent keys (x ∷ xs) snap s few enough cell flush within o =
        elim (Bool-cases (parent slot == 0)) [
          | inl none_there ↦
              let hole : parent slot ≡ 0 = (==_iff _ 0).0 none_there in
              rw none_there (
                Returns-and_then _ (alloc-Popped arr n keys levels x xs snap s _ o) λ r t p.
                  rw p.block (
                    write_or_panic_rule arr pos t within _ _ (
                      Returns-weaken
                        (descend-Descended l x (index_at off l) null_block _ xs r.1 _
                          (omega (arith, few)) (omega (arith, enough))
                          (child-IsCell n ino off levels
                            (update keys x (some (key ino (suc l) (shift off (suc l))))) l x
                            (omega (arith, few)) (rw (==_refl x) refl))
                          (λ no. absurd (no refl)) p.within
                          (link-opened arr ino off lt pos slot (suc l) x parent cell hole p))
                        λ _ u below_it.
                          let k =
                            link-Linked arr ino off lt pos slot (suc l) x parent cell hole p in
                          Stored-Descended arr k
                            (Descended-Stored arr k.there (omega (arith, few)) below_it))))
          | inr some_there ↦
              let there = ne_of (parent slot) 0 some_there in
              rw some_there (
                read_or_panic_rule arr (parent slot) s
                  (o.layout.below (parent slot) _
                    (ref_at arr ino off lt pos slot (suc l) parent cell there (flush there) o))
                  _
                  (let k =
                      ref-Linked arr ino off lt pos slot (suc l) parent cell there (flush there)
                        o in
                    Returns-weaken
                      (descend-Descended l (parent slot) (index_at off l) (contents s (parent slot))
                        keys (x ∷ xs) snap s (omega (arith, few)) (omega (arith, enough))
                        (child-IsCell n ino off levels keys l (parent slot) (omega (arith, few)) (
                          ref_at arr ino off lt pos slot (suc l) parent cell there (flush there) o))
                        (λ _. refl)
                        (o.layout.below (parent slot) _ (
                          ref_at arr ino off lt pos slot (suc l) parent cell there (flush there) o))
                        (ref-opened arr ino off lt pos slot (suc l) parent cell there (flush there)
                          o))
                      λ _ u below_it.
                        Stored-Descended arr k
                          (Descended-Stored arr there (omega (arith, few)) below_it)))
        ]
