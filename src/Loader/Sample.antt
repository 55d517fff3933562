-- ===== src/Loader/Sample.antt =====
-- library/elf/elf.c: a small program, for the examples.
use egos.Base.{ℕ, ◌+◌, refl, List, [], ◌∷◌, ◌==◌, if◌then◌else◌, arith, inl, inr}
use egos.Loader.{Reader, ProgramHeader, program_header}
use egos.Loader.Segments.{HasHeaders, InOrder}

-- Two program headers at 52. The first, with a null address, is skipped; the second has 600 bytes
-- in the file from 4096, and 5000 in memory from 0x80400000.
abbrev header_bytes : ℕ → ℕ
header_bytes i =
    if i == 28
    then 52
    else if i == 44
    then 2
    else if i == 52 + 32 + 5
    then 16
    else if i == 52 + 32 + 10
    then 0x40
    else if i == 52 + 32 + 11
    then 0x80
    else if i == 52 + 32 + 16
    then 88
    else if i == 52 + 32 + 17
    then 2
    else if i == 52 + 32 + 20
    then 136
    else if i == 52 + 32 + 21
    then 19
    else 0

-- Each byte behind the header is the number of its block.
abbrev pub file : Reader
file n k = if n == 0 then header_bytes k else n

abbrev skipped : ProgramHeader
skipped = record { p_offset = 0; p_vaddr = 0; p_filesz = 0; p_memsz = 0 }

abbrev code : ProgramHeader
code = record { p_offset = 4096; p_vaddr = 0x80400000; p_filesz = 600; p_memsz = 5000 }

abbrev pub headers : List ProgramHeader
headers = skipped ∷ code ∷ []

pub has_headers : HasHeaders (file 0) 0 headers
unfolding program_header
has_headers = (refl, (refl, tt))

pub in_order : InOrder 0 headers
in_order = inl (
  refl,
  inr (
    refl,
    record {
      page_aligned = refl;
      block_aligned = refl;
      offset_lt = omega arith;
      end_lt = omega arith;
    },
    omega arith,
    omega arith,
  ),
)
