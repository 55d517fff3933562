-- ===== src/FileSystem/Treedisk/Levels.antt =====
-- library/file/file1.c: how many levels of indirect blocks a file has, and the slot taken at each.
use egos.Base.{ℕ, zero, suc, ◌/◌, ◌%◌, ◌^◌, ◌≤◌, ◌<◌, ◌≡◌, refl, arith}
use egos.FileSystem.Block.{refs_per_block}
use egos.FileSystem.Treedisk.{log_shift_r, log_rpb, levels_for, index_at}

pub log_rpb_lem : log_rpb ≡ 7
unfolding log_rpb
log_rpb_lem = refl

levels_for-lt : (x : ℕ) → x < 2 ^ 32 → x < refs_per_block ^ levels_for x
unfolding levels_for log_rpb
levels_for-lt x h = ground arith

le-of_lt_levels_for : (x k : ℕ) → k < levels_for x → refs_per_block ^ k ≤ x
unfolding levels_for log_rpb
le-of_lt_levels_for x zero h = ground arith
le-of_lt_levels_for x (suc zero) h = ground arith
le-of_lt_levels_for x (suc (suc zero)) h = ground arith
le-of_lt_levels_for x (suc (suc (suc zero))) h = ground arith
le-of_lt_levels_for x (suc (suc (suc (suc zero)))) h = ground arith
le-of_lt_levels_for x (suc (suc (suc (suc (suc k))))) h = ground arith

-- For a block number below 2^32 the loop that counts levels ends at the least number of levels
-- with which a tree of 128-way blocks reaches that block.
pub levels_for-least :
    (x : ℕ)
    → x < 2 ^ 32
    → (x < refs_per_block ^ levels_for x) × ((k : ℕ) → k < levels_for x → refs_per_block ^ k ≤ x)
levels_for-least x h = (levels_for-lt x h, le-of_lt_levels_for x)

-- At each of the five heights that a tree can have, the slot that a walk takes is the digit of
-- the block number to base 128.
pub index_at-digit : (x k : ℕ) → k < 5 → index_at x k ≡ x / refs_per_block ^ k % refs_per_block
unfolding index_at log_rpb log_shift_r
index_at-digit x zero h = ground arith
index_at-digit x (suc zero) h = ground arith
index_at-digit x (suc (suc zero)) h = ground arith
index_at-digit x (suc (suc (suc zero))) h = ground arith
index_at-digit x (suc (suc (suc (suc zero)))) h = ground arith
index_at-digit x (suc (suc (suc (suc (suc k))))) h = absurd (omega arith)

-- No tree has more than five levels.
pub levels_for-bound : (x : ℕ) → levels_for x ≤ 5
unfolding levels_for log_rpb
levels_for-bound x = ground arith
