-- ===== src/Network.antt =====
-- apps/user/udp_demo.c: the checksum of IP and UDP.
pub mod Checksum
mod Examples
use egos.Base.{
  ℕ, zero, suc, ◌+◌, ◌-◌, ◌*◌, ◌/◌, ◌%◌, Bool, true, false, List, [], ◌∷◌, ◌==◌, if◌then◌else◌,
}

-- r += ((uint)ptr[2 * i] << 8) | (uint)ptr[2 * i + 1] for each pair of bytes; `length >>= 1`
-- leaves out an odd byte at the end.
pub add_words : ℕ → List ℕ → ℕ
add_words r [] = r
add_words r (high ∷ []) = r
add_words r (high ∷ low ∷ bytes) = add_words ((r + (high * 256 + low)) % 4294967296) bytes

-- while (r >> 16) r = (r & 0xffff) + (r >> 16)
pub fold_carries : ℕ → ℕ → ℕ
fold_carries zero r = r
fold_carries (suc fuel) r =
    let rest = fold_carries fuel (r % 65536 + r / 65536) in if r / 65536 == 0 then r else rest

-- r = (~r) & 0xffff; if (r == 0) r = 0xffff
pub complement : ℕ → ℕ
complement r = let flipped = (4294967295 - r) % 65536 in if flipped == 0 then 65535 else flipped

-- Two rounds fold any 32-bit number.
pub checksum : ℕ → List ℕ → Bool → ℕ
checksum r bytes complete =
    let folded = fold_carries 2 (add_words r bytes) in
    if complete then complement folded else folded % 65536
