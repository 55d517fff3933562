-- ===== src/Loader/Segments.antt =====
-- library/elf/elf.c: the loop over the program headers.
use egos.Base.{
  ℕ, suc, ◌+◌, ◌/◌, ◌≤◌, ◌≡◌, ◌⊎◌, refl, sym, ◌∙◌, true, false, List, [], ◌∷◌, length, some, arith,
  inl, inr,
}
use mathlib.Core.Bool.{false≢true}
use egos.Kernel.Scheduler.{apps_arg}
use egos.Memory.{Mmu, page_size, apps_pages_cnt}
use egos.Loader.{Bytes, Reader, ProgramHeader, program_header, load_segment, load_segments}
use egos.Loader.Pages.{IsReady, IsReady-le, Extends, Extends-refl, Extends-trans, HoldsPage-Extends}
use egos.Loader.Program.{is_skipped, IsSegment, start_page, page_count, IsLoaded, load_segment_lem}

-- The program headers from number i on.
abbrev pub HasHeaders : Bytes → ℕ → List ProgramHeader → Type 0
HasHeaders header i [] = Unit {0}
HasHeaders header i (ph ∷ phs) = (program_header header i ≡ some ph) × HasHeaders header (suc i) phs

-- Segments that are loaded come in the order of their addresses, each on pages of its own, below
-- the arguments of main.
abbrev pub InOrder : ℕ → List ProgramHeader → Type 0
InOrder from [] = from ≤ apps_arg / page_size
InOrder from (ph ∷ phs) =
    ((is_skipped ph ≡ true) × InOrder from phs)
    ⊎ ((is_skipped ph ≡ false)
        × IsSegment ph
        × (from ≤ start_page ph)
        × InOrder (start_page ph + page_count ph) phs)

-- The pages of the segments that are loaded.
abbrev pub pages_needed : List ProgramHeader → ℕ
pages_needed [] = 0
pages_needed (ph ∷ phs) = elim (is_skipped ph) [
  | true ↦ pages_needed phs
  | false ↦ page_count ph + pages_needed phs
]

-- Those that are not skipped are loaded.
abbrev pub AllLoaded : ℕ → Reader → List ProgramHeader → Mmu → Type 0
AllLoaded pid reader [] m = Unit {0}
AllLoaded pid reader (ph ∷ phs) m =
    (is_skipped ph ≡ false → IsLoaded pid reader ph m) × AllLoaded pid reader phs m

pub InOrder-le :
    (from : ℕ) (phs : List ProgramHeader) → InOrder from phs → from ≤ apps_arg / page_size
InOrder-le from [] order = order
InOrder-le from (ph ∷ phs) (inl (skips, order)) = InOrder-le from phs order
InOrder-le from (ph ∷ phs) (inr (loads, segment, le, order)) =
    omega (arith, le, InOrder-le (start_page ph + page_count ph) phs order)

pages_needed-skips :
    (ph : ProgramHeader) (phs : List ProgramHeader)
    → is_skipped ph ≡ true
    → pages_needed (ph ∷ phs) ≡ pages_needed phs
pages_needed-skips ph phs skips = rw (skips, pages_needed) refl

pages_needed-loads :
    (ph : ProgramHeader) (phs : List ProgramHeader)
    → is_skipped ph ≡ false
    → pages_needed (ph ∷ phs) ≡ page_count ph + pages_needed phs
pages_needed-loads ph phs loads = rw (loads, pages_needed) refl

load_segment-skips :
    (reader : Reader) (pid : ℕ) (ph : ProgramHeader) (m : Mmu)
    → is_skipped ph ≡ true
    → load_segment reader pid ph m ≡ some m
unfolding load_segment
load_segment-skips reader pid ph m skips = rw skips refl

IsLoaded-Extends :
    (pid : ℕ) (reader : Reader) (ph : ProgramHeader) (m m' : Mmu)
    → Extends m m'
    → IsLoaded pid reader ph m
    → is_skipped ph ≡ false
    → IsLoaded pid reader ph m'
IsLoaded-Extends pid reader ph m m' extends loaded loads p lt =
    HoldsPage-Extends pid m m' (start_page ph + p) _ extends (loaded p lt)

pub AllLoaded-Extends :
    (pid : ℕ) (reader : Reader) (phs : List ProgramHeader) (m m' : Mmu)
    → Extends m m'
    → AllLoaded pid reader phs m
    → AllLoaded pid reader phs m'
AllLoaded-Extends pid reader [] m m' extends all = tt
AllLoaded-Extends pid reader (ph ∷ phs) m m' extends all = (
  λ loads. IsLoaded-Extends pid reader ph m m' extends (all.0 loads) loads,
  AllLoaded-Extends pid reader phs m m' extends all.1,
)

module _ (reader : Reader) (pid : ℕ) (header : Bytes) where
  pub load_segments_lem :
      (phs : List ProgramHeader) (i n from : ℕ) (m : Mmu)
      → HasHeaders header i phs
      → InOrder from phs
      → IsReady pid n from m
      → n + pages_needed phs ≤ apps_pages_cnt
      → (m' : Mmu) × (load_segments (length phs) i reader pid header m ≡ some m')
        × IsReady pid (n + pages_needed phs) (apps_arg / page_size) m'
        × Extends m m'
        × AllLoaded pid reader phs m'
  unfolding load_segments
  load_segments_lem [] i n from m has order ready room =
      (m, refl, IsReady-le pid n (n + 0) from _ m (omega arith) order ready, Extends-refl m, tt)
  load_segments_lem (ph ∷ phs) i n from m (here, has) (inl (skips, order)) ready room =
      let needed = pages_needed-skips ph phs skips in
      let (m', gives, ready', extends, all) =
        load_segments_lem phs (suc i) n from m has order ready (omega (arith, needed, room)) in
      (
        m',
        rw (here, load_segment-skips reader pid ph m skips) (rw gives refl),
        IsReady-le pid _ _ _ _ m' (omega (arith, needed)) (omega arith) ready',
        extends,
        (λ loads. absurd (false≢true (sym loads ∙ skips)), all),
      )
  load_segments_lem (ph ∷ phs) i n from m (here, has) (inr (loads, segment, after, order)) ready
        room =
      let needed = pages_needed-loads ph phs loads in
      let below = InOrder-le (start_page ph + page_count ph) phs order in
      let (m1, gives1, ready1, extends1, loaded) =
        load_segment_lem reader pid n from ph m ready segment after (omega (arith, needed, room))
          (omega (arith, below)) loads in
      let (m2, gives2, ready2, extends2, all) =
        load_segments_lem phs (suc i) (n + page_count ph) (start_page ph + page_count ph) m1 has
          order ready1 (omega (arith, needed, room)) in
      (
        m2,
        rw (here, gives1) (rw gives2 refl),
        IsReady-le pid _ _ _ _ m2 (omega (arith, needed)) (omega arith) ready2,
        Extends-trans m m1 m2 extends1 extends2,
        (IsLoaded-Extends pid reader ph m1 m2 extends2 loaded, all),
      )
