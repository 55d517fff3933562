-- ===== src/FileSystem/Treedisk/Files/Shift.antt =====
-- library/file/file1.c: the offsets of a file seen from each height of its tree.
use egos.Base.{ℕ, zero, suc, ◌/◌, ◌%◌, ◌^◌, ◌≤◌, ◌<◌, ◌≡◌, refl, arith}
use egos.FileSystem.Treedisk.{log_rpb, levels_for, index_at}
use egos.FileSystem.Treedisk.Levels.{index_at-digit}

-- Which block of height l is on the way to the offset.
abbrev pub shift : ℕ → ℕ → ℕ
shift off zero = off
shift off (suc l) = shift off l / 128

shift-pow : (off l : ℕ) → l ≤ 5 → shift off l ≡ off / 128 ^ l
shift-pow off zero h = ground arith
shift-pow off (suc zero) h = ground arith
shift-pow off (suc (suc zero)) h = ground arith
shift-pow off (suc (suc (suc zero))) h = ground arith
shift-pow off (suc (suc (suc (suc zero)))) h = ground arith
shift-pow off (suc (suc (suc (suc (suc zero))))) h = ground arith
shift-pow off (suc (suc (suc (suc (suc (suc l)))))) h = absurd (omega arith)

pub index_at-shift : (off l : ℕ) → l < 5 → index_at off l ≡ shift off l % 128
index_at-shift off l h = rw (index_at-digit off l h, shift-pow off l (omega arith)) refl

-- A tree of that many levels reaches the offset.
pub shift-levels_for : (off : ℕ) → off < 4294967296 → shift off (levels_for off) ≡ 0
unfolding levels_for log_rpb
shift-levels_for off h = ground arith

pub levels_for_mono : (a b : ℕ) → a ≤ b → levels_for a ≤ levels_for b
unfolding levels_for log_rpb
levels_for_mono a b h = ground arith

pub shift_mono : (a b l : ℕ) → a ≤ b → shift a l ≤ shift b l
shift_mono a b zero h = h
shift_mono a b (suc l) h = omega (arith, shift_mono a b l h)
