-- ===== src/Mkfs/Bytes.antt =====
-- tools/mkfs.c: the bytes of the blocks that are written, and of the files that hold them.
use egos.Base.{
  ℕ, zero, suc, ◌+◌, ◌*◌, ◌/◌, ◌%◌, ◌^◌, ◌≤◌, ◌<◌, ◌≡◌, ◌⊎◌, arith, inl, inr, List, [], ◌∷◌, length,
}
use egos.FileSystem.Block.{Block}
use egos.FileSystem.Files.{File, block_of}
use egos.Mkfs.{Bytes, to_block, char_at}

-- Byte k of a block, whose words are little-endian.
abbrev pub byte_of : Block → ℕ → ℕ
byte_of block k = block (k / 4) / 256 ^ (k % 4) % 256

remainder : (k : ℕ) → (k % 4 ≡ 0) ⊎ ((k % 4 ≡ 1) ⊎ ((k % 4 ≡ 2) ⊎ (k % 4 ≡ 3)))
remainder k = ground arith

pub byte_of-to_block :
    (bytes : Bytes) (k : ℕ)
    → ((j : ℕ) → j ≤ k → bytes j < 256)
    → byte_of (to_block bytes) k ≡ bytes k
byte_of-to_block bytes k small = elim (remainder k) [
  | inl e ↦
      let at : 4 * (k / 4) ≡ k = omega (arith, e) in
      let b = small k (omega arith) in rw (e, at) (omega (arith, b))
  | inr (inl e) ↦
      let at : 4 * (k / 4) + 1 ≡ k = omega (arith, e) in
      let b = small k (omega arith) in
      let b0 = small (4 * (k / 4)) (omega (arith, e)) in rw (e, at) (omega (arith, b, b0))
  | inr (inr (inl e)) ↦
      let at : 4 * (k / 4) + 2 ≡ k = omega (arith, e) in
      let b = small k (omega arith) in
      let b0 = small (4 * (k / 4)) (omega (arith, e)) in
      let b1 = small (4 * (k / 4) + 1) (omega (arith, e)) in rw (e, at) (omega (arith, b, b0, b1))
  | inr (inr (inr e)) ↦
      let at : 4 * (k / 4) + 3 ≡ k = omega (arith, e) in
      let b = small k (omega arith) in
      let b0 = small (4 * (k / 4)) (omega (arith, e)) in
      let b1 = small (4 * (k / 4) + 1) (omega (arith, e)) in
      let b2 = small (4 * (k / 4) + 2) (omega (arith, e)) in
      rw (e, at) (omega (arith, b, b0, b1, b2))
]

-- Byte x of a file.
abbrev pub file_byte : File → ℕ → ℕ
file_byte f x = byte_of (block_of f (x / 512)) (x % 512)

-- The file has the blocks that `size` bytes need, and these bytes in them.
abbrev pub HasBytes : ℕ → Bytes → File → Type 0
HasBytes size bytes f =
    (f.nblocks ≡ (size + 511) / 512) × ((x : ℕ) → x < size → file_byte f x ≡ bytes x)

-- One block that starts with the characters of a string and a null byte.
abbrev pub HasText : List ℕ → File → Type 0
HasText text f = (f.nblocks ≡ 1) × ((x : ℕ) → x ≤ length text → file_byte f x ≡ char_at text x)

-- All characters are bytes.
abbrev pub AreChars : List ℕ → Type 0
AreChars [] = Unit {0}
AreChars (c ∷ cs) = (c < 256) × AreChars cs

pub char_at-lt : (cs : List ℕ) (k : ℕ) → AreChars cs → char_at cs k < 256
char_at-lt [] k chars = omega arith
char_at-lt (c ∷ cs) zero chars = chars.0
char_at-lt (c ∷ cs) (suc k) chars = char_at-lt cs k chars.1
