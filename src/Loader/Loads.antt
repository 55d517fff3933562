-- ===== src/Loader/Loads.antt =====
-- library/elf/elf.c: what a program finds in its memory when it starts, and what the others keep.
use egos.Base.{
  ℕ, suc, ◌+◌, ◌-◌, ◌*◌, ◌/◌, ◌≤◌, ◌<◌, ◌≡◌, refl, sym, ap, ◌∙◌, false, ◌==◌, List, [], ◌∷◌, ◌%◌,
  Option, some, arith, inl, inr,
}
use mathlib.Core.Bool.{false≢true}
use egos.Kernel.Messages.{syscall_arg}
use egos.Kernel.Scheduler.{apps_arg}
use egos.Memory.{PageInfo, Page, Mmu, page_size, apps_pages_cnt, frame, is_of, soft_tlb_switch}
use egos.Memory.Isolation.{IsMapped, page_of, soft_tlb_switch-page_of, in_place}
use egos.Shell.{Argv, cmd_nargs}
use egos.Loader.{Reader, ProgramHeader, load_stack, new_page, apps_stack_top, ◌>>=◌}
use egos.Loader.Pages.{IsReady, Extends, Extends-trans, HoldsPage, HoldsPage-Extends}
use egos.Loader.NewPage.{IsAbsent, with_page, with_page-pages, new_page_lem, new_page_absent}
use egos.Loader.Program.{page_count, start_page, segment_byte, is_skipped}
use egos.Loader.Segments.{InOrder, AllLoaded}
use egos.Loader.Arguments.{IsArgs, IsArgs-eq, HasArgs}

-- The process has a page at this number.
abbrev pub HasPage : ℕ → ℕ → Mmu → Type 0
HasPage pid vpage_no m = (page : Page) × HoldsPage pid m vpage_no page

pub HasPage-Extends : (pid v : ℕ) (m m' : Mmu) → Extends m m' → HasPage pid v m → HasPage pid v m'
HasPage-Extends pid v m m' e (page, holds) = (page, HoldsPage-Extends pid m m' v page e holds)

-- The second page of the stack is still to come.
absent :
    (pid i : ℕ) (m : Mmu) {n : ℕ}
    → IsReady pid n (suc (syscall_arg / page_size)) m
    → IsAbsent pid
        (apps_stack_top / page_size - 2)
        (with_page pid (apps_stack_top / page_size - 1) i m)
absent pid i m ready j below its e =
    elim (with_page-pages pid (apps_stack_top / page_size - 1) i m j) [
      | inl new ↦ let v = ap (λ (p : PageInfo). p.vpage_no) new in absurd (omega (arith, sym v ∙ e))
      | inr old ↦
          let mine = ap (is_of pid) (sym old) ∙ its in
          let v = ap (λ (p : PageInfo). p.vpage_no) old in
          absurd (omega (arith, ready.below j below mine, sym v ∙ e))
    ]

-- The page for system calls and the two of the stack.
module _ (pid n : ℕ) (m : Mmu) (ready : IsReady pid n (suc (apps_arg / page_size)) m)
    (room : n + 3 ≤ apps_pages_cnt) where
  abbrev top : ℕ
  top = apps_stack_top / page_size

  pub rest_of_pages :
      (m' : Mmu) × ((new_page pid (syscall_arg / page_size) m >>= λ p. load_stack 2 1 pid (p.1))
        ≡ some m')
      × IsMapped m'.pages
      × ((pid == m'.curr_vm_pid) ≡ false)
      × Extends m m'
      × HasPage pid (syscall_arg / page_size) m'
      × HasPage pid (top - 1) m'
      × HasPage pid (top - 2) m'
  unfolding load_stack
  rest_of_pages =
      let (i, lt, unused, page, ready1, extends1, gives1) =
        new_page_lem pid n _ (syscall_arg / page_size) m ready (omega arith) (omega arith)
          (omega (arith, room)) in
      let m1 = with_page pid (syscall_arg / page_size) i m in
      let (i2, lt2, unused2, page2, ready2, extends2, gives2) =
        new_page_lem pid (suc n) _ (top - 1) m1 ready1 (omega arith) (omega arith)
          (omega (arith, room)) in
      let m2 = with_page pid (top - 1) i2 m1 in
      let (i3, lt3, unused3, page3, ready3, extends3, gives3) =
        new_page_absent pid (suc (suc n)) _ top (top - 2) m2 ready2 (omega arith) (omega arith)
          (omega arith) (absent pid i2 m1 ready1) (omega (arith, room)) in
      let m3 = with_page pid (top - 2) i3 m2 in
      let extends23 = Extends-trans m1 m2 m3 extends2 extends3 in
      (
        m3,
        rw gives1 (rw gives2 (rw gives3 refl)),
        ready3.mapped,
        ready3.apart,
        Extends-trans m m1 m3 extends1 extends23,
        HasPage-Extends pid _ m1 m3 extends23 (_, (i, lt, page, λ k below. refl)),
        HasPage-Extends pid _ m2 m3 extends3 (_, (i2, lt2, page2, λ k below. refl)),
        (_, (i3, lt3, page3, λ k below. refl)),
      )

-- The byte that the process sees at an address.
abbrev pub seen : ℕ → Mmu → ℕ → ℕ
seen pid m addr = (soft_tlb_switch pid m).memory (addr / page_size) (addr % page_size)

-- Each segment is at its address.
abbrev pub SeesSegments : ℕ → Reader → List ProgramHeader → Mmu → Type 0
SeesSegments pid reader [] m = Unit {0}
SeesSegments pid reader (ph ∷ phs) m =
    (is_skipped ph ≡ false
      → (x : ℕ) → x < 4096 * page_count ph
      → seen pid m (ph.p_vaddr + x) ≡ segment_byte reader ph x)
    × SeesSegments pid reader phs m

module _ (pid : ℕ) (m : Mmu) (mapped : IsMapped m.pages)
    (apart : (pid == m.curr_vm_pid) ≡ false) where
  seen-HoldsPage :
      (v : ℕ) (page : Page) (k : ℕ)
      → HoldsPage pid m v page
      → k < 4096
      → (soft_tlb_switch pid m).memory v k ≡ page k
  seen-HoldsPage v page k (i, lt, owner, bytes) below =
      let p : (m.pages i).pid ≡ pid = ap (λ (p : PageInfo). p.pid) owner in
      let vp : (m.pages i).vpage_no ≡ v = ap (λ (p : PageInfo). p.vpage_no) owner in
      let away : ((m.pages i).pid == m.curr_vm_pid) ≡ false =
        ap (λ q. q == m.curr_vm_pid) p ∙ apart in
      let framed : page_of m i ≡ m.memory (frame i) = rw away refl in
      let all =
        in_place pid m i p
        ∙ soft_tlb_switch-page_of pid m i mapped lt (ap (λ (p : PageInfo). p.used) owner)
        ∙ framed in
      ap (λ v. (soft_tlb_switch pid m).memory v k) (sym vp)
      ∙ ap (λ (f : Page). f k) all
      ∙ bytes k below

  seen_at :
      (addr : ℕ) {v k : ℕ}
      → addr / 4096 ≡ v
      → addr % 4096 ≡ k
      → seen pid m addr ≡ (soft_tlb_switch pid m).memory v k
  seen_at addr {v} e e' =
      ap (λ v. (soft_tlb_switch pid m).memory v (addr % 4096)) e
      ∙ ap (λ k. (soft_tlb_switch pid m).memory v k) e'

  pub SeesSegments-AllLoaded :
      (reader : Reader) (phs : List ProgramHeader) (from : ℕ)
      → InOrder from phs
      → AllLoaded pid reader phs m
      → SeesSegments pid reader phs m
  SeesSegments-AllLoaded reader [] from order all = tt
  SeesSegments-AllLoaded reader (ph ∷ phs) from (inl (skips, order)) all = (
    λ loads. absurd (false≢true (sym loads ∙ skips)),
    SeesSegments-AllLoaded reader phs from order all.1,
  )
  SeesSegments-AllLoaded reader (ph ∷ phs) from (inr (loads, segment, le, order)) all = (
    λ loads x lt.
        let aligned = segment.page_aligned in
        let v : (ph.p_vaddr + x) / 4096 ≡ start_page ph + x / 4096 = omega (arith, aligned) in
        let k : (ph.p_vaddr + x) % 4096 ≡ x % 4096 = omega (arith, aligned) in
        let whole : 4096 * (x / 4096) + x % 4096 ≡ x = omega arith in
        seen_at (ph.p_vaddr + x) v k
        ∙ seen-HoldsPage _ _ (x % 4096) (all.0 loads (x / 4096) (omega (arith, lt))) (omega arith)
        ∙ ap (segment_byte reader ph) whole,
    SeesSegments-AllLoaded reader phs _ order all.1,
  )

  pub IsArgs-seen :
      (argc : ℕ) (argv : Option Argv)
      → argc ≤ cmd_nargs
      → HasArgs pid argc argv m
      → IsArgs argc argv (λ k. seen pid m (apps_arg + k))
  IsArgs-seen argc argv le (page, holds, is_args) =
      IsArgs-eq argc argv page _ le
        (λ k lt.
          seen_at (apps_arg + k) (omega (arith, lt)) (omega (arith, lt))
          ∙ seen-HoldsPage (apps_arg / page_size) page k holds lt)
        is_args
