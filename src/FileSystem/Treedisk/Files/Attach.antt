-- ===== src/FileSystem/Treedisk/Files/Attach.antt =====
-- library/file/file1.c: an empty block that takes the place of a hole leaves the contents of all
-- files.
use egos.Base.{
  ℕ, zero, suc, ◌+◌, ◌*◌, ◌/◌, ◌%◌, ◌<◌, ◌≡◌, ◌≢◌, ◌⊎◌, inl, inr, none, some, ◌==◌, ◌&&◌,
  if◌then◌else◌, update, true, false, arith, refl, sym, ap, ◌∙◌, Bool-cases, ==_iff, ==_refl,
}
use egos.FileSystem.Block.{Block, null_block}
use egos.FileSystem.Treedisk.Reading.{file_root}
use egos.FileSystem.Treedisk.Files.Shift.{shift}
use egos.FileSystem.Treedisk.Files.{Key, key, Keys, IsRef, IsLayout, block_at, content, IsKnown}

pub ne_of : (a b : ℕ) → (a == b) ≡ false → a ≢ b
ne_of a b h e = ground arith

pub key_eq :
    (i l k i' l' k' : ℕ) → some (key i l k) ≡ some (key i' l' k') → (i ≡ i') × (l ≡ l') × (k ≡ k')
key_eq i l k i' l' k' e = (cc, cc, cc)

pub block_at-hole : (e : ℕ → Block) (off l : ℕ) → block_at e off l 0 ≡ null_block
unfolding block_at
block_at-hole e off zero = refl
block_at-hole e off (suc l) = refl

-- An indirect block of null bytes refers to holes alone.
pub block_at-null :
    (e : ℕ → Block) (off l x : ℕ) → e x ≡ null_block → block_at e off l x ≡ null_block
unfolding block_at
block_at-null e off zero x h = elim (Bool-cases (x == 0)) [
  | inl hole ↦ rw hole refl
  | inr there ↦ rw (there, h) refl
]
block_at-null e off (suc l) x h = elim (Bool-cases (x == 0)) [
  | inl hole ↦ rw hole refl
  | inr there ↦ rw (there, h) (block_at-hole e off l)
]

-- Word `slot` of block `pos` refers to the block with key (ino, l, k): it is the root of an inode,
-- or stands in an indirect block.
abbrev pub IsCell : ℕ → Keys → (ℕ → ℕ) → ℕ → ℕ → ℕ → ℕ → ℕ → Type 0
IsCell n keys levels pos slot ino l k =
    ((ino / 64 < n) × (pos ≡ 1 + ino / 64) × (slot ≡ 2 * (ino % 64)) × (l ≡ levels ino) × (k ≡ 0))
    ⊎ ((k0 : ℕ) × (keys pos ≡ some (key ino (suc l) k0)) × (slot < 128) × (k ≡ k0 * 128 + slot))

-- The hole at `slot` of `pos` is filled by a block x that had no key.
pub record Attached (n size : ℕ) (keys : Keys) (e e' : ℕ → Block) (pos slot x : ℕ) : Type 0 where
  pub same : (b : ℕ) → IsKnown n keys b → b ≢ pos → e' b ≡ e b
  pub at_pos : (j : ℕ) → e' pos j ≡ (if j == slot then x else e pos j)
  pub empty : e' x ≡ null_block
  pub hole : e pos slot ≡ 0
  pub new : keys x ≡ none
  pub above : n < x
  pub below : x < size

pub IsRef-update :
    (keys : Keys) (x : ℕ) (at : Key) (ino l k b : ℕ)
    → keys x ≡ none
    → IsRef keys ino l k b
    → IsRef (update keys x (some at)) ino l k b
IsRef-update keys x at ino l k b new (inl hole) = inl hole
IsRef-update keys x at ino l k b new (inr there) = inr (ground arith)

module _ {n size : ℕ} {e e' : ℕ → Block} {keys : Keys} {levels : ℕ → ℕ} {pos slot x ino l k : ℕ}
    (s : IsLayout n size e keys levels) (a : Attached n size keys e e' pos slot x)
    (c : IsCell n keys levels pos slot ino l k) where
  no_data_cell : (b i m : ℕ) → keys b ≡ some (key i 0 m) → b ≢ pos
  no_data_cell b i m h same = elim c [
    | inl (lt, at, _, _, _) ↦ absurd (omega (arith, s.above b _ h, at, same))
    | inr (k0, at, _, _) ↦ absurd (ground arith)
  ]

  Attached-word :
      (b j : ℕ) → IsKnown n keys b → e' b j ≡ (if (b == pos) && (j == slot) then x else e b j)
  Attached-word b j known = elim (Bool-cases (b == pos)) [
    | inl here ↦ let same = (==_iff b pos).0 here in rw (same, ==_refl pos) (a.at_pos j)
    | inr other ↦ rw (a.same b known (ne_of b pos other), other) refl
  ]

  hole_at : (b j : ℕ) → ((b == pos) && (j == slot)) ≡ true → e b j ≡ 0
  hole_at b j here =
      let same : b ≡ pos = ground arith in
      let same' : j ≡ slot = ground arith in rw (same, same') a.hole

  -- What a reference leads to.
  Attached-word_block :
      (off h b j : ℕ)
      → IsKnown n keys b
      → (block_at e' off h (e b j) ≡ block_at e off h (e b j))
      → block_at e' off h (e' b j) ≡ block_at e off h (e b j)
  Attached-word_block off h b j known below = elim (Bool-cases ((b == pos) && (j == slot))) [
    | inl here ↦
        rw (Attached-word b j known, here, hole_at b j here, block_at-hole e off h)
          (block_at-null e' off h x a.empty)
    | inr other ↦ rw (Attached-word b j known, other) below
  ]

  Attached-block_at :
      (off h i m b : ℕ) → IsRef keys i h m b → block_at e' off h b ≡ block_at e off h b
  unfolding block_at
  Attached-block_at off zero i m b (inl hole) = rw hole refl
  Attached-block_at off zero i m b (inr there) =
      rw (a.same b (inr (_, there)) (no_data_cell b i m there)) refl
  Attached-block_at off (suc h) i m b (inl hole) = rw hole refl
  Attached-block_at off (suc h) i m b (inr there) =
      let j = shift off h % 128 in
      let child = Attached-word_block off h b j (inr (_, there)) (
        Attached-block_at off h i (m * 128 + j) (e b j)
          (s.children b i h m j there (omega arith))) in
      rw child refl

  pub Attached-content : (i off : ℕ) → i / 64 < n → content e' levels i off ≡ content e levels i off
  unfolding content
  Attached-content i off lt =
      let root =
        Attached-word_block off (levels i) (1 + i / 64) (2 * (i % 64))
          (inl (omega arith, omega arith))
          (Attached-block_at off (levels i) i 0 (file_root e i) (s.roots i lt)) in
      rw root refl

  -- The references of the new disk.
  Attached-IsRef :
      (b j i h m : ℕ)
      → IsKnown n keys b
      → IsRef keys i h m (e b j)
      → (b ≡ pos → j ≡ slot → key ino l k ≡ key i h m)
      → IsRef (update keys x (some (key ino l k))) i h m (e' b j)
  Attached-IsRef b j i h m known ref fits = elim (Bool-cases ((b == pos) && (j == slot))) [
    | inl here ↦
        let at : key ino l k ≡ key i h m = fits (ground arith) (ground arith) in
        rw (Attached-word b j known, here) (inr (rw (==_refl x, at) refl))
    | inr other ↦
        rw (Attached-word b j known, other) (IsRef-update keys x _ i h m (e b j) a.new ref)
  ]

  root_fits :
      (i : ℕ)
      → i / 64 < n
      → 1 + i / 64 ≡ pos
      → 2 * (i % 64) ≡ slot
      → key ino l k ≡ key i (levels i) 0
  root_fits i lt e1 e2 = elim c [
    | inl (lt', at, at', h, zero_at) ↦
        let same : ino ≡ i = omega (arith, at, at', e1, e2) in rw (h, zero_at, same) refl
    | inr (k0, at, _, _) ↦ absurd (omega (arith, s.above pos _ at, e1, lt))
  ]

  child_fits :
      (b i h m j : ℕ)
      → keys b ≡ some (key i (suc h) m)
      → b ≡ pos
      → j ≡ slot
      → key ino l k ≡ key i h (m * 128 + j)
  child_fits b i h m j at same same' = elim c [
    | inl (lt, at', _, _, _) ↦ absurd (omega (arith, s.above b _ at, at', same, lt))
    | inr (k0, at', _, there) ↦
        let (ei, eh, em) = key_eq ino (suc l) k0 i (suc h) m (sym at' ∙ ap keys (sym same) ∙ at) in
        let eh' : l ≡ h = omega (arith, eh) in
        let ek : k ≡ m * 128 + j = omega (arith, there, em, same') in rw (ei, eh', ek) refl
  ]

  keyed :
      (b : ℕ) (at : Key)
      → update keys x (some (key ino l k)) b ≡ some at
      → (b ≡ x) ⊎ (keys b ≡ some at)
  keyed b at h = elim (Bool-cases (b == x)) [
    | inl here ↦ inl ((==_iff b x).0 here)
    | inr other ↦ inr (rw other at h)
  ]

  pub Attached-IsLayout : IsLayout n size e' (update keys x (some (key ino l k))) levels
  Attached-IsLayout = record {
    roots = λ i lt.
        Attached-IsRef (1 + i / 64) (2 * (i % 64)) i (levels i) 0 (inl (omega arith, omega arith))
          (s.roots i lt) (root_fits i lt);
    children = λ b i h m j at lt. elim (keyed b (key i (suc h) m) at) [
      | inl same ↦ inl (rw (same, a.empty) refl)
      | inr old ↦
          Attached-IsRef b j i h (m * 128 + j) (inr (_, old)) (s.children b i h m j old lt)
            (child_fits b i h m j old)
    ];
    above =
        λ b at h. elim (keyed b at h) [ inl same ↦ rw same a.above | inr old ↦ s.above b at old ];
    below =
        λ b at h. elim (keyed b at h) [ inl same ↦ rw same a.below | inr old ↦ s.below b at old ];
  }
