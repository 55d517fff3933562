-- ===== src/FileSystem/Treedisk/FreeList.antt =====
-- library/file/file1.c: the free list as a stack of block numbers.
use egos.Base.{
  ℕ, zero, suc, ◌≤◌, ◌<◌, ◌≡◌, ◌≢◌, refl, ◌⊎◌, inl, true, false, List, [], ◌∷◌, ◌++◌, arith, ◌==◌,
  if◌then◌else◌, update, has, has-append, ne→==,
}
use egos.FileSystem.Block.{Block}
use egos.FileSystem.Treedisk.{scan}

-- The free blocks that a free list block refers to, from slot i down to slot 1.
unfoldable pub slots : ℕ → Block → List ℕ
slots zero refs = []
slots (suc i) refs = if refs (suc i) == 0 then slots i refs else refs (suc i) ∷ slots i refs

pub slots-update_above :
    (n i v : ℕ) (refs : Block) → n < i → slots n (update refs i v) ≡ slots n refs
unfolding slots
slots-update_above zero i v refs h = refl
slots-update_above (suc n) i v refs h = ground (arith, slots-update_above n i v refs)

-- `scan` finds the first of the slots, or none.
abbrev pub Scans : ℕ → Block → Type 0
Scans n refs =
    ((scan n refs ≡ 0) × (slots n refs ≡ []))
    ⊎ ((scan n refs ≢ 0)
        × (scan n refs ≤ n)
        × (slots n refs ≡ refs (scan n refs) ∷ slots n (update refs (scan n refs) 0)))

pub scan-Scans : (n : ℕ) (refs : Block) → Scans n refs
unfolding scan slots
scan-Scans zero refs = inl (refl, refl)
scan-Scans (suc n) refs = ground (arith, scan-Scans n refs, slots-update_above n (suc n) 0 refs)

abbrev pub Distinct : List ℕ → Type 0
Distinct [] = Unit {0}
Distinct (x ∷ xs) = (has x xs ≡ false) × Distinct xs

-- The numbers lie between `lo` and `size`.
abbrev pub InRange : ℕ → ℕ → List ℕ → Type 0
InRange lo size [] = Unit {0}
InRange lo size (x ∷ xs) = (lo ≤ x) × (x < size) × InRange lo size xs

-- From free list block `b` on, the blocks `d` of the disk list the free blocks `xs`, in the order
-- in which they are taken.
pub data FreeChain (d : ℕ → Block) : ℕ → List ℕ → Type 0 where
  end : FreeChain d 0 []
  link :
      {b : ℕ} {rest xs : List ℕ}
      → b ≢ 0
      → FreeChain d (d b 0) rest
      → xs ≡ slots 127 (d b) ++ b ∷ rest
      → FreeChain d b xs

-- What is outside a concatenation is outside its parts.
pub out_of_parts :
    (a b : ℕ) (xs rest : List ℕ) → has a (xs ++ b ∷ rest) ≡ false → (b ≢ a) × (has a rest ≡ false)
out_of_parts a b xs rest h = ground (arith, has-append a xs (b ∷ rest))

has_middle : (b : ℕ) (xs rest : List ℕ) → has b (xs ++ b ∷ rest) ≡ true
has_middle b xs rest = ground (arith, has-append b xs (b ∷ rest))

has_later : (a b : ℕ) (xs rest : List ℕ) → has a rest ≡ true → has a (xs ++ b ∷ rest) ≡ true
has_later a b xs rest h = ground (arith, has-append a xs (b ∷ rest))

-- A write to a block that is not free leaves the list.
pub FreeChain-update :
    {d : ℕ → Block} {b : ℕ} {xs : List ℕ} (a : ℕ) (v : Block)
    → FreeChain d b xs
    → has a xs ≡ false
    → FreeChain (update d a v) b xs
FreeChain-update a v end out = end
FreeChain-update {d} {b} a v (link {rest} ne chain e) out =
    let (ne', out') = out_of_parts a b (slots 127 (d b)) rest (rw e at out) in
    let miss = ne→== b a ne' in
    link {rest = rest} ne (rw miss (FreeChain-update a v chain out')) (rw miss e)

-- The list depends on its own blocks alone.
pub FreeChain-same :
    {d d' : ℕ → Block} {b : ℕ} {xs : List ℕ}
    → ((a : ℕ) → has a xs ≡ true → d' a ≡ d a)
    → FreeChain d b xs
    → FreeChain d' b xs
FreeChain-same same end = end
FreeChain-same {d} {d'} {b} {xs} same (link {rest} ne chain e) =
    let here = same b (rw e (has_middle b (slots 127 (d b)) rest)) in
    link {rest = rest} {xs = xs} ne
      (rw here
        (FreeChain-same (λ a h. same a (rw e (has_later a b (slots 127 (d b)) rest h))) chain))
      (rw here e)

pub cons_or_append : (b : ℕ) (xs rest : List ℕ) → xs ++ b ∷ rest ≡ [] → ⊥
cons_or_append b [] rest e = cc
cons_or_append b (x ∷ xs) rest e = cc

pub tail-eq : {x y : ℕ} {xs ys : List ℕ} → x ∷ xs ≡ y ∷ ys → (x ≡ y) × (xs ≡ ys)
tail-eq e = (cc, cc)

-- A number in the range that starts at lo is not below it.
pub has-InRange : (a lo size : ℕ) (xs : List ℕ) → InRange lo size xs → a < lo → has a xs ≡ false
has-InRange a lo size [] h lt = refl
has-InRange a lo size (x ∷ xs) h lt = ground (arith, has-InRange a lo size xs h.2)

pub head-InRange :
    (b lo size : ℕ) (xs rest : List ℕ) → InRange lo size (xs ++ b ∷ rest) → (lo ≤ b) × (b < size)
head-InRange b lo size [] rest h = (h.0, h.1)
head-InRange b lo size (x ∷ xs) rest h = head-InRange b lo size xs rest h.2

pub head-Distinct : (b : ℕ) (xs rest : List ℕ) → Distinct (xs ++ b ∷ rest) → has b rest ≡ false
head-Distinct b [] rest h = h.0
head-Distinct b (x ∷ xs) rest h = head-Distinct b xs rest h.1

pub has-tail : (a x : ℕ) (xs : List ℕ) → has a (x ∷ xs) ≡ false → has a xs ≡ false
has-tail a x xs h = ground arith
