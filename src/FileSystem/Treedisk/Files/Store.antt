-- ===== src/FileSystem/Treedisk/Files/Store.antt =====
-- library/file/file1.c: what a write to a data block, or to a block of no file, leaves of the files.
use egos.Base.{
  ℕ, zero, suc, ◌+◌, ◌*◌, ◌/◌, ◌%◌, ◌<◌, ◌≡◌, ◌≢◌, inl, inr, some, ◌==◌, arith, refl, sym, ap, ◌∙◌,
  subst, Bool-cases, ==_iff,
}
use egos.FileSystem.Block.{Block}
use egos.FileSystem.Treedisk.Reading.{file_root}
use egos.FileSystem.Treedisk.Files.Shift.{shift}
use egos.FileSystem.Treedisk.Files.{Key, key, Keys, IsRef, IsLayout, block_at, content, IsKnown}
use egos.FileSystem.Treedisk.Files.Attach.{key_eq}

module _ {n size : ℕ} {e : ℕ → Block} {keys : Keys} {levels : ℕ → ℕ}
    (s : IsLayout n size e keys levels) (e' : ℕ → Block) where
  -- The tree depends on the blocks on the way to the offset alone.
  pub block_at-same :
      (off i h m b : ℕ)
      → ((b h : ℕ) → keys b ≡ some (key i h (shift off h)) → e' b ≡ e b)
      → IsRef keys i h m b
      → m ≡ shift off h
      → block_at e' off h b ≡ block_at e off h b
  unfolding block_at
  block_at-same off i zero m b same (inl hole) on = rw hole refl
  block_at-same off i zero m b same (inr there) on =
      rw (same b 0 (subst (λ m. keys b ≡ some (key i 0 m)) on there)) refl
  block_at-same off i (suc h) m b same (inl hole) on = rw hole refl
  block_at-same off i (suc h) m b same (inr there) on =
      let j = shift off h % 128 in
      let child =
        block_at-same off i h (m * 128 + j) (e b j) same (s.children b i h m j there (omega arith))
          (omega (arith, on)) in
      rw (same b (suc h) (subst (λ m. keys b ≡ some (key i (suc h) m)) on there), child) refl

  pub content-same :
      (i off : ℕ)
      → i / 64 < n
      → file_root e' i ≡ file_root e i
      → ((b h : ℕ) → keys b ≡ some (key i h (shift off h)) → e' b ≡ e b)
      → content e' levels i off ≡ content e levels i off
  unfolding content
  content-same i off lt root same = elim (Bool-cases (shift off (levels i) == 0)) [
    | inl reached ↦
        rw (reached, root)
          (block_at-same off i (levels i) 0 (file_root e i) same (s.roots i lt)
            (sym ((==_iff _ 0).0 reached)))
    | inr beyond ↦ rw beyond refl
  ]

  -- The references are the same.
  module _ (root : (i : ℕ) → i / 64 < n → file_root e' i ≡ file_root e i)
      (keyed : (b : ℕ) (at : Key) → keys b ≡ some at → e' b ≡ e b) where
    pub rooted-IsLayout : IsLayout n size e' keys levels
    rooted-IsLayout = record {
      roots = λ i lt. rw (root i lt) (s.roots i lt);
      children = λ b i h m j at lt. rw (keyed b _ at) (s.children b i h m j at lt);
      above = s.above;
      below = s.below;
    }

    pub rooted-content : (i off : ℕ) → i / 64 < n → content e' levels i off ≡ content e levels i off
    rooted-content i off lt = content-same i off lt (root i lt) (λ b h at. keyed b _ at)

  -- The known blocks are the same.
  module _ (same : (b : ℕ) → IsKnown n keys b → e' b ≡ e b) where
    root_same : (i : ℕ) → i / 64 < n → file_root e' i ≡ file_root e i
    root_same i lt = rw (same (1 + i / 64) (inl (omega arith, omega arith))) refl

    pub same-IsLayout : IsLayout n size e' keys levels
    same-IsLayout = record {
      roots = λ i lt. rw (root_same i lt) (s.roots i lt);
      children = λ b i h m j at lt. rw (same b (inr (_, at))) (s.children b i h m j at lt);
      above = s.above;
      below = s.below;
    }

    pub same-content : (i off : ℕ) → i / 64 < n → content e' levels i off ≡ content e levels i off
    same-content i off lt = content-same i off lt (root_same i lt) (λ b h at. same b (inr (_, at)))

  -- They are the same but for the data block x of inode ino at the offset off0.
  module _ (x ino off0 : ℕ) (at : keys x ≡ some (key ino 0 off0))
      (same : (b : ℕ) → IsKnown n keys b → b ≢ x → e' b ≡ e b) where
    stored_root : (i : ℕ) → i / 64 < n → file_root e' i ≡ file_root e i
    stored_root i lt =
        let apart : 1 + i / 64 ≢ x = λ here. absurd (omega (arith, s.above x _ at, here, lt)) in
        rw (same (1 + i / 64) (inl (omega arith, omega arith)) apart) refl

    pub stored-IsLayout : IsLayout n size e' keys levels
    stored-IsLayout = record {
      roots = λ i lt. rw (stored_root i lt) (s.roots i lt);
      children = λ b i h m j at' lt.
          let apart : b ≢ x = λ here. absurd (ground (arith, ap keys here)) in
          rw (same b (inr (_, at')) apart) (s.children b i h m j at' lt);
      above = s.above;
      below = s.below;
    }

    pub stored-content :
        (i off : ℕ)
        → i / 64 < n
        → (i ≡ ino → off ≡ off0 → ⊥)
        → content e' levels i off ≡ content e levels i off
    stored-content i off lt other = content-same i off lt (stored_root i lt) λ b h at'.
        same b (inr (_, at')) λ here.
          let (ei, eh, em) = key_eq i h (shift off h) ino 0 off0 (sym at' ∙ ap keys here ∙ at) in
          other ei (subst (λ h. shift off h ≡ off0) eh em)
