-- ===== src/FileSystem/Treedisk/Files/Link.antt =====
-- library/file/file1.c: a step of the walk of `treedisk_write` to the next block, new or not.
use egos.Base.{
  ℕ, suc, ◌/◌, ◌<◌, ◌≡◌, ◌≢◌, inl, inr, some, ◌==◌, arith, refl, sym, ap, ◌∙◌, Bool-cases, ==_iff,
  ==_refl, ne→==, update, List, ◌∷◌,
}
use egos.FileSystem.Block.{Block, null_block}
use egos.FileSystem.Store.{InodeStore, IsArray}
use egos.FileSystem.Treedisk.{Snapshot, index_at}
use egos.FileSystem.Treedisk.Files.Shift.{shift, index_at-shift}
use egos.FileSystem.Treedisk.Files.{key, Keys, IsRef, IsLayout, content, IsKnown}
use egos.FileSystem.Treedisk.Files.Attach.{
  IsCell, Attached, Attached-IsLayout, Attached-content, key_eq, ne_of,
}
use egos.FileSystem.Treedisk.Files.Store.{same-content}
use egos.FileSystem.Treedisk.Files.State.{
  IsOpen, IsOpen-same, IsOpen-keyed, Popped, Popped-over, known_other, known_apart,
}
use egos.FileSystem.Treedisk.Files.Kept.{IsUpper, Linked}

-- The next word of the walk stands in the right place.
pub child-IsCell :
    (n ino off : ℕ) (levels : ℕ → ℕ) (keys : Keys) (l c : ℕ)
    → l < 5
    → keys c ≡ some (key ino (suc l) (shift off (suc l)))
    → IsCell n keys levels c (index_at off l) ino l (shift off l)
child-IsCell n ino off levels keys l c few at =
    rw (index_at-shift off l few) (inr (shift off (suc l), at, omega arith, omega arith))

module _ {S : Type 0} {below : InodeStore S} {below_ino : ℕ} (arr : IsArray below below_ino) where
  open arr use {size, contents, put, contents_put}

  -- The word of the block refers to what its place asks for, or is a hole.
  module _ {n ino l pos slot k : ℕ} {keys : Keys} {levels : ℕ → ℕ} {e : ℕ → Block}
      (s : IsLayout n size e keys levels) (cell : IsCell n keys levels pos slot ino l k) where
    cell-IsKnown : IsKnown n keys pos
    cell-IsKnown = elim cell [
      | inl (lt', at, _, _, _) ↦ inl (omega (arith, at), omega (arith, at, lt'))
      | inr (_, at, _, _) ↦ inr (_, at)
    ]

    cell_high : IsUpper keys ino (suc l) pos
    cell_high h m below at' = elim cell [
      | inl (lt', at, _, _, _) ↦ absurd (omega (arith, s.above pos _ at', at, lt'))
      | inr (k0, at, _, _) ↦
          absurd (omega (arith, (key_eq ino h m ino (suc l) k0 (sym at' ∙ at)).1, below))
    ]

    cell-IsRef : IsRef keys ino l k (e pos slot)
    cell-IsRef = elim cell [
      | inl (lt', at, at', height, first) ↦ rw (at, at', height, first) (s.roots ino lt')
      | inr (k0, at, small, place) ↦ rw place (s.children pos ino l k0 slot at small)
    ]

  module _ {n : ℕ} (ino off : ℕ) {levels : ℕ → ℕ} (lt : ino / 64 < n) where
    -- The hole at `slot` of `pos` is filled with x.
    module _ (pos slot l x : ℕ) (parent : Block) {keys : Keys} {xs : List ℕ} {snap : Snapshot}
        {s : S} {r : ℕ × Snapshot} {t : S}
        (cell : IsCell n keys levels pos slot ino l (shift off l)) (hole : parent slot ≡ 0)
        (p : Popped arr n keys levels x xs snap s (update (contents s) pos parent) r t) where
      abbrev pub linked : S
      linked = put t pos (update parent slot x)

      abbrev pub keyed : Keys
      keyed = update keys x (some (key ino l (shift off l)))

      link-IsOpen : IsOpen arr n keys levels xs r.1 t (update (contents t) pos parent)
      link-IsOpen =
          IsOpen-same arr p.opened (update (contents t) pos parent) (Popped-over arr p pos parent)

      link-Attached :
          Attached n size keys
            (update (contents t) pos parent)
            (update (contents linked) x null_block)
            pos
            slot
            x
      link-Attached =
          let miss = known_other arr p pos (cell-IsKnown link-IsOpen.layout cell) in
          record {
            same = λ b known other.
                rw
                  (
                    known_other arr p b known,
                    contents_put t pos (update parent slot x),
                    ne→== b pos other,
                  )
                  refl;
            at_pos = λ j. rw (miss, contents_put t pos (update parent slot x), ==_refl pos) refl;
            empty = rw (==_refl x) refl;
            hole = rw (==_refl pos) hole;
            new = p.new;
            above = p.behind;
            below = p.within;
          }

      pub link-opened :
          IsOpen arr n keyed levels xs r.1 linked (update (contents linked) x null_block)
      link-opened =
          let (ne, out) = known_apart arr link-IsOpen pos (cell-IsKnown link-IsOpen.layout cell) in
          IsOpen-keyed arr link-IsOpen x _ pos _ levels r.1 _ p.once refl ne out
            (Attached-IsLayout link-IsOpen.layout link-Attached cell)

      pub link-content :
          (i o : ℕ)
          → i / 64 < n
          → content (update (contents linked) x null_block) levels i o
            ≡ content (update (contents s) pos parent) levels i o
      link-content i o lt' =
          Attached-content link-IsOpen.layout link-Attached cell i o lt'
          ∙ same-content p.opened.layout (update (contents t) pos parent)
              (Popped-over arr p pos parent) i o lt'

      pub link-Linked :
          Linked n ino l pos slot x keys keyed levels
            (x ∷ xs)
            xs
            (update (contents s) pos parent)
            (update (contents linked) x null_block)
      link-Linked =
          let known = cell-IsKnown link-IsOpen.layout cell in
          let miss = known_other arr p pos known in
          record {
            there = λ zero_at. absurd (omega (arith, p.behind, zero_at));
            word = λ j. rw (miss, contents_put t pos (update parent slot x), ==_refl pos) refl;
            same = λ b known' other.
                rw
                  (
                    known_other arr p b known',
                    contents_put t pos (update parent slot x),
                    ne→== b pos other,
                  )
                  (p.same b known');
            fits = λ b known' up.
                let miss' = known_other arr p b known' in
                (
                  elim known' [ inl range ↦ inl range | inr (at, h) ↦ inr (at, rw miss' h) ],
                  ne_of b x miss',
                  λ h m below h'. up h m (omega (arith, below)) (rw miss' at h'),
                );
            known = known;
            high = cell_high link-IsOpen.layout cell;
            holds = link-content;
            fewer = omega arith;
          }

    -- The word at `slot` of `pos` is a reference.
    module _ (pos slot l : ℕ) (parent : Block) {keys : Keys} {xs : List ℕ} {snap : Snapshot} {s : S}
        (cell : IsCell n keys levels pos slot ino l (shift off l)) (there : parent slot ≢ 0)
        (flushed : contents s pos ≡ parent)
        (o : IsOpen arr n keys levels xs snap s (update (contents s) pos parent)) where
      abbrev pub child : ℕ
      child = parent slot

      pub ref_at : keys child ≡ some (key ino l (shift off l))
      ref_at = elim (cell-IsRef o.layout cell) [
        | inl hole ↦ absurd (there (rw (==_refl pos) at hole))
        | inr at ↦ rw (==_refl pos) at at
      ]

      both :
          (b : ℕ)
          → update (contents s) child (contents s child) b ≡ update (contents s) pos parent b
      both b = elim (Bool-cases (b == child)) [
        | inl here ↦ elim (Bool-cases (b == pos)) [
          | inl here' ↦
              let e : b ≡ child = (==_iff b child).0 here in
              let e' : b ≡ pos = (==_iff b pos).0 here' in rw (here, here', ← e, e') flushed
          | inr other' ↦ let e : b ≡ child = (==_iff b child).0 here in rw (here, other', e) refl
        ]
        | inr other ↦ elim (Bool-cases (b == pos)) [
          | inl here' ↦ let e' : b ≡ pos = (==_iff b pos).0 here' in rw (other, here', e') flushed
          | inr other' ↦ rw (other, other') refl
        ]
      ]

      pub ref-opened :
          IsOpen arr n keys levels xs snap s (update (contents s) child (contents s child))
      ref-opened = IsOpen-same arr o _ λ b _. both b

      pub ref-Linked :
          Linked n ino l pos slot child keys keys levels xs xs
            (update (contents s) pos parent)
            (update (contents s) child (contents s child))
      ref-Linked = record {
        there = there;
        word = λ j. ap (λ (b : Block). b j) (both pos) ∙ elim (Bool-cases (j == slot)) [
          | inl here ↦ let e : j ≡ slot = (==_iff j slot).0 here in rw (here, ==_refl pos, e) refl
          | inr other ↦ rw other refl
        ];
        same = λ b _ _. both b;
        fits = λ b known up. (
          known,
          λ here. up l (shift off l) (omega arith) (ap keys here ∙ ref_at),
          λ h m below at. up h m (omega (arith, below)) at,
        );
        known = cell-IsKnown o.layout cell;
        high = cell_high o.layout cell;
        holds = λ i o' lt'. same-content o.layout _ (λ b _. both b) i o' lt';
        fewer = omega arith;
      }
