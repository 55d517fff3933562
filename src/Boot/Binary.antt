-- ===== src/Boot/Binary.antt =====
-- library/file/disk.h: where on the disk a server has its binary, apart from the code that reads it.
use egos.Base.{
  ℕ, ◌+◌, ◌*◌, ◌/◌, ◌%◌, ◌^◌, ◌≤◌, ◌<◌, ◌≡◌, sym, ap, ◌∙◌, subst, ltb, List, [], ◌∷◌, if◌then◌else◌,
  arith, inl, inr,
}
use mathlib.Core.Bool.{false≢true}
use egos.Kernel.Scheduler.{apps_arg}
use egos.Memory.{Mmu, page_size}
use egos.Loader.{Bytes, Reader, ProgramHeader, e_phnum}
use egos.Loader.Program.{IsSegment, page_count, start_page, segment_byte}
use egos.Loader.Segments.{HasHeaders, InOrder, InOrder-le}
use egos.Loader.Loads.{SeesSegments}
use egos.Boot.{exec_start, sys_proc_read}

-- Each binary has 256 blocks, which are 128 KB, and the kernel comes first.
abbrev pub server_binary : (ℕ → Bytes) → ℕ → Reader
server_binary disk i n = disk (256 * i + n)

module _ (disk : ℕ → Bytes) (i : ℕ) (few : i ≤ 4) where
  abbrev reader : Reader
  reader = sys_proc_read disk (exec_start i)

  pub read_binary : (n : ℕ) → n < 2 ^ 31 → reader n ≡ server_binary disk i n
  read_binary n small = ap disk (omega (arith, few, small))

  pub e_phnum-binary : {k : ℕ} → k ≡ e_phnum (server_binary disk i 0) → k ≡ e_phnum (reader 0)
  e_phnum-binary e = e ∙ ap e_phnum (sym (read_binary 0 (omega arith)))

  pub HasHeaders-binary :
      (phs : List ProgramHeader)
      → HasHeaders (server_binary disk i 0) 0 phs
      → HasHeaders (reader 0) 0 phs
  HasHeaders-binary phs has =
      subst (λ (b : Bytes). HasHeaders b 0 phs) (sym (read_binary 0 (omega arith))) has

  byte-binary :
      (ph : ProgramHeader) (x : ℕ)
      → IsSegment ph
      → start_page ph + page_count ph ≤ apps_arg / page_size
      → x < 4096 * page_count ph
      → segment_byte reader ph x ≡ segment_byte (server_binary disk i) ph x
  byte-binary ph x segment low lt =
      let offset = segment.offset_lt in
      ap (λ (b : Bytes). if ltb x ph.p_filesz then b ((ph.p_offset + x) % 512) else 0)
        (read_binary ((ph.p_offset + x) / 512) (omega (arith, low, lt, offset)))

  pub SeesSegments-binary :
      (pid : ℕ) (phs : List ProgramHeader) (from : ℕ) (m : Mmu)
      → InOrder from phs
      → SeesSegments pid reader phs m
      → SeesSegments pid (server_binary disk i) phs m
  SeesSegments-binary pid [] from m order sees = tt
  SeesSegments-binary pid (ph ∷ phs) from m (inl (skips, order)) sees = (
    λ loads. absurd (false≢true (sym loads ∙ skips)),
    SeesSegments-binary pid phs from m order sees.1,
  )
  SeesSegments-binary pid (ph ∷ phs) from m (inr (loads, segment, le, order)) sees = (
    λ loaded x lt. sees.0 loaded x lt ∙ byte-binary ph x segment (InOrder-le _ phs order) lt,
    SeesSegments-binary pid phs _ m order sees.1,
  )
