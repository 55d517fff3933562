-- ===== src/FileSystem/Treedisk/Setup.antt =====
-- library/file/file1.c: `setup_freelist` links all blocks from `next_free` on into a free list.
use mathlib.Core.List.{append_assoc, append-nil}
use egos.Base.{
  ℕ, zero, suc, ◌+◌, ◌-◌, ◌≤◌, ◌<◌, ◌≡◌, refl, sym, ap, ◌∙◌, inl, inr, true, false, List, [], ◌∷◌,
  ◌++◌, arith, ltb, ltb→lt, update, has, ne→==, ==_refl, Bool-cases,
}
use egos.FileSystem.Block.{Block, null_block}
use egos.FileSystem.Run.{Returns, returns}
use egos.FileSystem.Store.{InodeStore, IsArray}
use egos.FileSystem.Treedisk.{fill_refs, setup_freelist}
use egos.FileSystem.Treedisk.Access.{write_or_panic_rule}
use egos.FileSystem.Treedisk.FreeList.{
  slots, slots-update_above, FreeChain, end, link, FreeChain-update, Distinct, InRange,
}

-- The numbers lo + n - 1, ..., lo + 1, lo.
abbrev pub down : ℕ → ℕ → List ℕ
down lo zero = []
down lo (suc n) = (lo + n) ∷ down lo n

down-snoc : (lo n : ℕ) → down lo (suc n) ≡ down (suc lo) n ++ lo ∷ []
down-snoc lo zero = ground arith
down-snoc lo (suc n) = ground (arith, down-snoc lo n)

down-join :
    (lo m nf c k : ℕ) → nf ≡ lo + m → k ≡ suc m + c → down (suc nf) c ++ nf ∷ down lo m ≡ down lo k
down-join lo m nf zero zero e e' = absurd (omega arith)
down-join lo m nf zero (suc k) e e' = let e'' : k ≡ m = omega arith in rw (e'', e)
down-join lo m nf (suc c) zero e e' = absurd (omega arith)
down-join lo m nf (suc c) (suc k) e e' = ground (arith, down-join lo m nf c k e (omega arith))

has-down : (a lo n : ℕ) → lo + n ≤ a → has a (down lo n) ≡ false
has-down a lo zero h = refl
has-down a lo (suc n) h = ground (arith, has-down a lo n (omega arith))

pub le-of_has-down : (a lo n : ℕ) → has a (down lo n) ≡ true → lo ≤ a
le-of_has-down a lo zero h = cc
le-of_has-down a lo (suc n) h = ground (arith, le-of_has-down a lo n)

pub down-Distinct : (lo n : ℕ) → Distinct (down lo n)
down-Distinct lo zero = tt
down-Distinct lo (suc n) = (has-down (lo + n) lo n (omega arith), down-Distinct lo n)

pub down-InRange : (l lo size n : ℕ) → l ≤ lo → lo + n ≤ size → InRange l size (down lo n)
down-InRange l lo size zero h h' = tt
down-InRange l lo size (suc n) h h' =
    (omega arith, omega arith, down-InRange l lo size n h (omega arith))

-- What the inner loop of `setup_freelist` makes of a block that is empty above slot j.
record Filled (top j next_free nblocks : ℕ) (refs : Block) (r : Block × ℕ) : Type 0 where
  count : ℕ
  next : r.1 ≡ next_free + count
  within : r.1 ≤ nblocks
  listed : slots top r.0 ≡ down next_free count ++ slots j refs
  first : r.0 0 ≡ refs 0

slots-zero_above :
    (rounds top j : ℕ) (refs : Block)
    → top ≡ j + rounds
    → ((k : ℕ) → j < k → refs k ≡ 0)
    → slots top refs ≡ slots j refs
unfolding slots
slots-zero_above zero top j refs e empty = let e' : top ≡ j = omega arith in rw e'
slots-zero_above (suc rounds) zero j refs e empty = absurd (omega arith)
slots-zero_above (suc rounds) (suc top) j refs e empty =
    rw (empty (suc top) (omega arith)) (slots-zero_above rounds top j refs (omega arith) empty)

slots-update_top :
    (j v : ℕ) (refs : Block) → 0 < v → slots (suc j) (update refs (suc j) v) ≡ v ∷ slots j refs
unfolding slots
slots-update_top j v refs pos = ground (arith, slots-update_above j (suc j) v refs)

fill_more :
    (top j next_free nblocks : ℕ) (refs : Block) (r : Block × ℕ)
    → 0 < next_free
    → Filled top (suc j) (suc next_free) nblocks (update refs (suc j) next_free) r
    → Filled top j next_free nblocks refs r
fill_more top j next_free nblocks refs r pos f = record {
  count = suc f.count;
  next = omega (arith, f.next);
  within = f.within;
  listed =
      f.listed
      ∙ ap (◌++◌ (down (suc next_free) f.count)) (slots-update_top j next_free refs pos)
      ∙ sym (append_assoc (down (suc next_free) f.count) (next_free ∷ []) (slots j refs))
      ∙ ap (λ l. l ++ slots j refs) (sym (down-snoc next_free f.count));
  first = ground (arith, f.first);
}

fill_refs-Filled :
    (rounds top j next_free nblocks : ℕ) (refs : Block)
    → top ≡ j + rounds
    → 0 < next_free
    → next_free ≤ nblocks
    → ((k : ℕ) → j < k → refs k ≡ 0)
    → Filled top j next_free nblocks refs (fill_refs rounds (suc j) next_free nblocks refs)
unfolding fill_refs
fill_refs-Filled zero top j next_free nblocks refs e pos le empty = record {
  count = 0;
  next = omega arith;
  within = le;
  listed = slots-zero_above zero top j refs e empty;
  first = refl;
}
fill_refs-Filled (suc rounds) top j next_free nblocks refs e pos le empty =
    elim (Bool-cases (ltb next_free nblocks)) [
      | inl more ↦ rw more (
          fill_more top j next_free nblocks refs _ pos (
            fill_refs-Filled rounds top (suc j) (suc next_free) nblocks
              (update refs (suc j) next_free) (omega arith) (omega arith) (ltb→lt _ _ more)
              (λ k h. ground (arith, empty k))))
      | inr full ↦ rw full (record {
        count = 0;
        next = omega arith;
        within = le;
        listed = slots-zero_above (suc rounds) top j refs e empty;
        first = refl;
      })
    ]

module _ {S : Type 0} {below : InodeStore S} {ino : ℕ} (arr : IsArray below ino) where
  open arr use {size, contents, put, contents_put}

  -- The list `xs` from block `head` on, and nothing below `lo` written.
  pub record Listed (s : S) (lo : ℕ) (xs : List ℕ) (head : ℕ) (t : S) : Type 0 where
    pub chain : FreeChain (contents t) head xs
    pub same : (a : ℕ) → a < lo → contents t a ≡ contents s a

  -- One round puts a block and those that it refers to in front.
  round-Listed :
      (head next_free nblocks lo m : ℕ) (s s0 : S) (r : Block × ℕ)
      (f : Filled 127 0 (suc next_free) nblocks (update null_block 0 head) r)
      → next_free ≡ lo + m
      → 0 < lo
      → Listed s0 lo (down lo m) head s
      → Listed s0 lo (down lo (suc m + f.count)) next_free (put s next_free r.0)
  unfolding slots
  round-Listed head next_free nblocks lo m s s0 r f at pos l = record {
    chain = rw (contents_put s next_free r.0) (
        link {rest = down lo m} {xs = down lo (suc m + f.count)} (omega arith)
          (rw (==_refl next_free, f.first)
            (FreeChain-update next_free r.0 l.chain (has-down next_free lo m (omega arith))))
          (rw (==_refl next_free, f.listed, append-nil)
            (sym (down-join lo m next_free f.count _ at refl))));
    same = λ a lt. rw (contents_put s next_free r.0, ne→== a next_free (omega arith)) (l.same a lt);
  }

  setup_loop :
      (fuel head next_free nblocks lo m : ℕ) (s s0 : S)
      → nblocks ≤ next_free + fuel
      → next_free ≡ lo + m
      → 0 < lo
      → next_free ≤ nblocks
      → nblocks ≤ size
      → Listed s0 lo (down lo m) head s
      → Returns
          (Listed s0 lo (down lo (nblocks - lo)))
          (setup_freelist below ino fuel head next_free nblocks s)
  unfolding setup_freelist
  setup_loop zero head next_free nblocks lo m s s0 enough at pos le fits l =
      let done : m ≡ nblocks - lo = omega arith in returns (rw (← done) l)
  setup_loop (suc fuel) head next_free nblocks lo m s s0 enough at pos le fits l =
      elim (Bool-cases (ltb next_free nblocks)) [
        | inl more ↦
            let lt = ltb→lt _ _ more in
            let filled =
              fill_refs-Filled 127 127 0 (suc next_free) nblocks (update null_block 0 head)
                (omega arith) (omega arith) lt (λ k h. ground arith) in
            rw more (
              write_or_panic_rule arr next_free s (omega arith) _ _ (
                setup_loop fuel next_free _ nblocks lo (suc m + filled.count) _ s0
                  (omega (arith, filled.next)) (omega (arith, filled.next)) pos filled.within fits
                  (round-Listed head next_free nblocks lo m s s0 _ filled at pos l)))
        | inr full ↦ let done : m ≡ nblocks - lo = ground arith in rw full (returns (rw (← done) l))
      ]

  -- From a positive `next_free` up to `nblocks`, within the store, `setup_freelist` ends and
  -- leaves a free list that names every block from `next_free` to `nblocks` - 1 once, the
  -- highest first, and no change below `next_free`.
  pub setup_freelist-down :
      (next_free nblocks : ℕ) (s : S)
      → 0 < next_free
      → next_free ≤ nblocks
      → nblocks ≤ size
      → Returns
          (Listed s next_free (down next_free (nblocks - next_free)))
          (setup_freelist below ino nblocks 0 next_free nblocks s)
  setup_freelist-down next_free nblocks s pos le fits =
      setup_loop nblocks 0 next_free nblocks next_free 0 s s (omega arith) (omega arith) pos le fits
        (record { chain = end; same = λ a h. refl })
