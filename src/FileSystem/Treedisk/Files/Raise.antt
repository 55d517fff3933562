-- ===== src/FileSystem/Treedisk/Files/Raise.antt =====
-- library/file/file1.c: a new root above the old one leaves the contents of all files.
use egos.Base.{
  ℕ, suc, ◌+◌, ◌*◌, ◌/◌, ◌%◌, ◌<◌, ◌≡◌, ◌≢◌, ◌⊎◌, inl, inr, none, some, ◌==◌, if◌then◌else◌, false,
  arith, refl, Bool-cases, ==_iff, ==_refl, update,
}
use egos.FileSystem.Block.{Block, null_block}
use egos.FileSystem.Treedisk.Reading.{file_root}
use egos.FileSystem.Treedisk.Files.Shift.{shift}
use egos.FileSystem.Treedisk.Files.{Key, key, Keys, IsRef, IsLayout, block_at, content, IsKnown}
use egos.FileSystem.Treedisk.Files.Attach.{key_eq, ne_of, IsRef-update, block_at-hole}
use egos.FileSystem.Treedisk.Files.Store.{block_at-same}

-- Block x, which had no key, has become the root of inode ino, above the root that it had.
pub record Raised (n size : ℕ) (keys : Keys) (e e' : ℕ → Block) (ino x : ℕ) : Type 0 where
  pub same : (b : ℕ) → IsKnown n keys b → b ≢ 1 + ino / 64 → e' b ≡ e b
  pub inode :
      (j : ℕ) → e' (1 + ino / 64) j ≡ (if j == 2 * (ino % 64) then x else e (1 + ino / 64) j)
  pub root : (j : ℕ) → e' x j ≡ (if j == 0 then file_root e ino else 0)
  pub new : keys x ≡ none
  pub above : n < x
  pub below : x < size

module _ {n size : ℕ} {e e' : ℕ → Block} {keys : Keys} {levels : ℕ → ℕ} {ino x : ℕ}
    (s : IsLayout n size e keys levels) (a : Raised n size keys e e' ino x)
    (lt : ino / 64 < n) where
  abbrev raised_keys : Keys
  raised_keys = update keys x (some (key ino (suc (levels ino)) 0))

  abbrev raised_levels : ℕ → ℕ
  raised_levels = update levels ino (suc (levels ino))

  keyed_same : (b : ℕ) (at : Key) → keys b ≡ some at → e' b ≡ e b
  keyed_same b at h =
      a.same b (inr (at, h)) λ here. absurd (omega (arith, s.above b at h, here, lt))

  Raised-root : (i : ℕ) → i / 64 < n → file_root e' i ≡ (if i == ino then x else file_root e i)
  Raised-root i lt' = elim (Bool-cases (1 + i / 64 == 1 + ino / 64)) [
    | inl here ↦
        let same : 1 + i / 64 ≡ 1 + ino / 64 = (==_iff _ _).0 here in
        let slot : (2 * (i % 64) == 2 * (ino % 64)) ≡ (i == ino) = ground arith in
        rw (same, ← slot) (a.inode (2 * (i % 64)))
    | inr other ↦
        let apart : (i == ino) ≡ false = ground arith in
        rw (a.same (1 + i / 64) (inl (omega arith, omega arith)) (ne_of _ _ other), apart) refl
  ]

  raised_keyed : (b : ℕ) (at : Key) → raised_keys b ≡ some at → (b ≡ x) ⊎ (keys b ≡ some at)
  raised_keyed b at h = elim (Bool-cases (b == x)) [
    | inl here ↦ inl ((==_iff b x).0 here)
    | inr other ↦ inr (rw other at h)
  ]

  Raised-roots : (i : ℕ) → i / 64 < n → IsRef raised_keys i (raised_levels i) 0 (file_root e' i)
  Raised-roots i lt' = elim (Bool-cases (i == ino)) [
    | inl here ↦
        let same : i ≡ ino = (==_iff i ino).0 here in
        inr (rw (Raised-root i lt', same, ==_refl ino, ==_refl x) refl)
    | inr other ↦
        rw (Raised-root i lt', other)
          (IsRef-update keys x _ i (levels i) 0 (file_root e i) a.new (s.roots i lt'))
  ]

  Raised-children :
      (b i h m j : ℕ)
      → raised_keys b ≡ some (key i (suc h) m)
      → j < 128
      → IsRef raised_keys i h (m * 128 + j) (e' b j)
  Raised-children b i h m j at small = elim (Bool-cases (b == x)) [
    | inl here ↦
        let (ei, eh, em) = key_eq ino (suc (levels ino)) 0 i (suc h) m (rw here at at) in
        let same : b ≡ x = (==_iff b x).0 here in
        elim (Bool-cases (j == 0)) [
          | inl first ↦
              let height : levels ino ≡ h = omega (arith, eh) in
              let place : m * 128 + j ≡ 0 = ground arith in
              let ref : IsRef keys i h (m * 128 + j) (file_root e ino) =
                rw (← ei, ← height, place) (s.roots ino lt) in
              rw (same, a.root j, first)
                (IsRef-update keys x _ i h (m * 128 + j) (file_root e ino) a.new ref)
          | inr later ↦ inl (rw (same, a.root j, later) refl)
        ]
    | inr other ↦
        let old : keys b ≡ some (key i (suc h) m) = rw other at at in
        rw (keyed_same b _ old)
          (IsRef-update keys x _ i h (m * 128 + j) (e b j) a.new (s.children b i h m j old small))
  ]

  pub Raised-IsLayout : IsLayout n size e' raised_keys raised_levels
  Raised-IsLayout = record {
    roots = Raised-roots;
    children = Raised-children;
    above = λ b at h. elim (raised_keyed b at h) [
      | inl same ↦ rw same a.above
      | inr old ↦ s.above b at old
    ];
    below = λ b at h. elim (raised_keyed b at h) [
      | inl same ↦ rw same a.below
      | inr old ↦ s.below b at old
    ];
  }

  old_tree :
      (i off h b : ℕ) → IsRef keys i h (shift off h) b → block_at e' off h b ≡ block_at e off h b
  old_tree i off h b ref =
      block_at-same s e' off i h (shift off h) b (λ b h at. keyed_same b _ at) ref refl

  -- The tree below the new root.
  raised_tree :
      (off : ℕ)
      → content e' raised_levels ino off ≡ (
          if shift off (levels ino) / 128 == 0
          then block_at e' off (levels ino) (e' x (shift off (levels ino) % 128))
          else null_block)
  unfolding content block_at
  raised_tree off =
      let there : (x == 0) ≡ false = ground (arith, a.above) in
      rw (==_refl ino, Raised-root ino lt, ==_refl ino, there) refl

  Raised-content_self : (off : ℕ) → content e' raised_levels ino off ≡ content e levels ino off
  unfolding content
  Raised-content_self off = elim (Bool-cases (shift off (levels ino) == 0)) [
    | inl reached ↦
        let first : shift off (levels ino) ≡ 0 = (==_iff _ 0).0 reached in
        rw (raised_tree off, first, a.root 0)
          (old_tree ino off (levels ino) (file_root e ino) (rw first (s.roots ino lt)))
    | inr beyond ↦ elim (Bool-cases (shift off (levels ino) / 128 == 0)) [
      | inl near ↦
          let later : (shift off (levels ino) % 128 == 0) ≡ false = ground arith in
          rw (raised_tree off, near, a.root _, later, beyond) (block_at-hole e' off (levels ino))
      | inr far ↦ rw (raised_tree off, far, beyond) refl
    ]
  ]

  pub Raised-content :
      (i off : ℕ) → i / 64 < n → content e' raised_levels i off ≡ content e levels i off
  unfolding content
  Raised-content i off lt' = elim (Bool-cases (i == ino)) [
    | inl here ↦ rw ((==_iff i ino).0 here) (Raised-content_self off)
    | inr other ↦ elim (Bool-cases (shift off (levels i) == 0)) [
      | inl reached ↦
          let first : shift off (levels i) ≡ 0 = (==_iff _ 0).0 reached in
          rw (other, reached, Raised-root i lt', other)
            (old_tree i off (levels i) (file_root e i) (rw first (s.roots i lt')))
      | inr beyond ↦ rw (other, beyond) refl
    ]
  ]
