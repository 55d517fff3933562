-- ===== src/Loader/Arguments.antt =====
-- library/elf/elf.c: the page with the arguments of main, and the pages behind it.
use egos.Base.{
  ℕ, zero, suc, ◌+◌, ◌-◌, ◌*◌, ◌/◌, ◌%◌, ◌≤◌, ◌<◌, ◌≡◌, refl, ap, ◌∙◌, false, ◌&&◌, ◌==◌, leb, ltb,
  Option, none, some, if◌then◌else◌, update-update, arith, ==_refl, Bool-cases, inl, inr, ◌⊎◌,
}
use egos.Kernel.Scheduler.{apps_arg}
use egos.Memory.{Page, Mmu, page_size, apps_pages_cnt, frame}
use egos.Shell.{Argv, cmd_nargs, cmd_arg_len}
use egos.Loader.{
  Bytes, copy_to, set_argv, copy_args, load_args, argv_offset, args_offset, word_size, uint_bytes,
  arg_addr,
}
use egos.Loader.NewPage.{with_page, new_page_lem}
use egos.Loader.Pages.{IsReady, Extends, HoldsPage, put_page, Extends-put_page, put_page-IsReady}

-- The page with `size` bytes copied over it.
abbrev pub over : ℕ → ℕ → Bytes → Page → Page
over off size bytes page k = if leb off k && ltb k (off + size) then bytes (k - off) else page k

copy_to-put_page :
    (i off size : ℕ) (bytes : Bytes) (page : Page) (m : Mmu)
    → copy_to i off size bytes (put_page i page m) ≡ put_page i (over off size bytes page) m
copy_to-put_page i off size bytes page m =
    let same = ==_refl (frame i) in
    rw same (ap (λ f. record m { memory = f }) (update-update m.memory (frame i) page _))

argv_page : ℕ → ℕ → Page → Page
argv_page zero i page = page
argv_page (suc rounds) i page =
    argv_page rounds (suc i)
      (over (argv_offset + word_size * i) word_size (uint_bytes (arg_addr i)) page)

set_argv-put_page :
    (rounds i id : ℕ) (page : Page) (m : Mmu)
    → set_argv rounds i id (put_page id page m) ≡ put_page id (argv_page rounds i page) m
unfolding set_argv argv_page
set_argv-put_page zero i id page m = refl
set_argv-put_page (suc rounds) i id page m =
    ap (set_argv rounds (suc i) id)
      (copy_to-put_page id (argv_offset + word_size * i) word_size (uint_bytes (arg_addr i)) page m)
    ∙ set_argv-put_page rounds (suc i) id _ m

elsewhere :
    (i j b : ℕ)
    → b < 4
    → ¬ (i ≡ j)
    → (leb (4 + 4 * i) (4 + 4 * j + b) && ltb (4 + 4 * j + b) (4 + 4 * i + 4)) ≡ false
elsewhere i j b lt ne = ground (arith, lt, ne)

argv_page-pointer :
    (rounds i j b : ℕ) (page : Page)
    → b < 4
    → argv_page rounds i page (4 + 4 * j + b)
      ≡ (if leb i j && ltb j (i + rounds) then uint_bytes (arg_addr j) b else page (4 + 4 * j + b))
unfolding argv_page
argv_page-pointer zero i j b page lt = ground arith
argv_page-pointer (suc rounds) i j b page lt = elim (Bool-cases (i == j)) [
  | inl here ↦
      let e : i ≡ j = ground arith in
      let k : 4 + 4 * j + b - (argv_offset + word_size * i) ≡ b = omega (arith, e, lt) in
      argv_page-pointer rounds (suc i) j b _ lt ∙ ground (arith, e, k, lt)
  | inr other ↦
      let out = elsewhere i j b lt (ground (arith, other)) in
      argv_page-pointer rounds (suc i) j b _ lt ∙ ground (arith, other, out)
]

-- Bytes that belong to no pointer.
argv_page-other :
    (rounds i k : ℕ) (page : Page)
    → (k < 4) ⊎ (4 + 4 * (i + rounds) ≤ k)
    → argv_page rounds i page k ≡ page k
unfolding argv_page
argv_page-other zero i k page out = refl
argv_page-other (suc rounds) i k page (inl low) =
    argv_page-other rounds (suc i) k _ (inl low) ∙ ground (arith, low)
argv_page-other (suc rounds) i k page (inr high) =
    argv_page-other rounds (suc i) k _ (inr (omega (arith, high))) ∙ ground (arith, high)

-- The bytes of the page: argc, the addresses of the arguments, and the arguments.
abbrev pub IsArgs : ℕ → Option Argv → Page → Type 0
IsArgs argc none page = (b : ℕ) → b < 4 → page b ≡ uint_bytes argc b
IsArgs argc (some argv) page =
    ((b : ℕ) → b < 4 → page b ≡ uint_bytes argc b)
    × ((j b : ℕ) → j < argc → b < 4 → page (4 + 4 * j + b) ≡ uint_bytes (arg_addr j) b)
    × ((j b : ℕ) → j < argc → b < 32 → page (68 + 32 * j + b) ≡ argv j b)

-- The page that `load_args` makes.
args_page : ℕ → Option Argv → Page → Page
args_page argc none page = argv_page argc 0 (over 0 4 (uint_bytes argc) page)
args_page argc (some argv) page = argv_page argc 0 (
    over args_offset (argc * cmd_arg_len) (λ k. argv (k / cmd_arg_len) (k % cmd_arg_len))
      (over 0 4 (uint_bytes argc) page))

args_page-IsArgs :
    (argc : ℕ) (argv : Option Argv) (page : Page)
    → argc ≤ cmd_nargs
    → IsArgs argc argv (args_page argc argv page)
unfolding args_page
args_page-IsArgs argc none page le =
    λ b lt. argv_page-other argc 0 b _ (inl lt) ∙ ground (arith, lt)
args_page-IsArgs argc (some argv) page le = (
  λ b lt. argv_page-other argc 0 b _ (inl lt) ∙ ground (arith, lt),
  λ j b below lt. argv_page-pointer argc 0 j b _ lt ∙ ground (arith, below),
  λ j b below lt.
      let row : (68 + 32 * j + b - 68) / 32 ≡ j = omega (arith, lt) in
      let column : (68 + 32 * j + b - 68) % 32 ≡ b = omega (arith, lt) in
      argv_page-other argc 0 (68 + 32 * j + b) _ (inr (omega (arith, le)))
      ∙ rw (row, column) (ground (arith, below, lt)),
)

-- The process finds its arguments on their page.
abbrev pub HasArgs : ℕ → ℕ → Option Argv → Mmu → Type 0
HasArgs pid argc argv m =
    (page : Page) × HoldsPage pid m (apps_arg / page_size) page × IsArgs argc argv page

copy_args-put_page :
    (id argc : ℕ) (argv : Option Argv) (page : Page) (m : Mmu)
    → set_argv argc 0 id (copy_args id argc argv (put_page id (over 0 4 (uint_bytes argc) page) m))
      ≡ put_page id (args_page argc argv page) m
unfolding args_page
copy_args-put_page id argc none page m = set_argv-put_page argc 0 id _ m
copy_args-put_page id argc (some argv) page m =
    ap (set_argv argc 0 id)
      (copy_to-put_page id _ _ (λ k. argv (k / cmd_arg_len) (k % cmd_arg_len)) _ m)
    ∙ set_argv-put_page argc 0 id _ m

pub load_args_lem :
    (pid n argc : ℕ) (argv : Option Argv) (m : Mmu)
    → IsReady pid n (apps_arg / page_size) m
    → n < apps_pages_cnt
    → argc ≤ cmd_nargs
    → (m' : Mmu) × (load_args pid argc argv m ≡ some m')
      × IsReady pid (suc n) (suc (apps_arg / page_size)) m'
      × Extends m m'
      × HasArgs pid argc argv m'
unfolding load_args
load_args_lem pid n argc argv m ready lt le =
    let (id, lt', unused, page, ready', extends, gives) =
      new_page_lem pid n (apps_arg / page_size) (apps_arg / page_size) m ready (omega arith)
        (omega arith) lt in
    let m1 = with_page pid (apps_arg / page_size) id m in
    let content = args_page argc argv (m1.memory (frame id)) in
    (
      put_page id content m1,
      rw gives (ap some (copy_args-put_page id argc argv (m1.memory (frame id)) m1)),
      put_page-IsReady pid _ _ m1 id content ready',
      Extends-put_page m m1 id content extends unused,
      (
        content,
        (id, lt', page, λ k below. rw (==_refl (frame id)) refl),
        args_page-IsArgs argc argv (m1.memory (frame id)) le,
      ),
    )

-- Only the bytes of the page count.
pub IsArgs-eq :
    (argc : ℕ) (argv : Option Argv) (page page' : Page)
    → argc ≤ cmd_nargs
    → ((k : ℕ) → k < 4096 → page' k ≡ page k)
    → IsArgs argc argv page
    → IsArgs argc argv page'
IsArgs-eq argc none page page' le same is_args = λ b lt. same b (omega (arith, lt)) ∙ is_args b lt
IsArgs-eq argc (some argv) page page' le same (number, pointers, strings) = (
  λ b lt. same b (omega (arith, lt)) ∙ number b lt,
  λ j b below lt. same _ (omega (arith, le, below, lt)) ∙ pointers j b below lt,
  λ j b below lt. same _ (omega (arith, le, below, lt)) ∙ strings j b below lt,
)
