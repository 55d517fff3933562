-- ===== src/Servers/Terminal/Calls.antt =====
-- apps/system/sys_terminal.c and library/syscall/servers.c: what a program reads and writes.
use egos.Base.{
  ℕ, zero, suc, ◌+◌, ◌-◌, ◌≤◌, ◌<◌, ◌≡◌, ◌⊎◌, refl, ap, ◌∙◌, true, some, List, [], ◌∷◌, ◌++◌,
  length, has, arith, inl, inr, lt→ltb, le→ltb,
}
use mathlib.Core.List.{append_assoc, append-nil}
use egos.Terminal.{enter_key, Read, term_read}
use egos.Terminal.Line.{edit, Holds, term_read-Reads}
use egos.Servers.Terminal.{
  term_buf_size, Bytes, Tty, AppRead, term_write, serve_term, copy_bytes, app_term_read,
  app_term_write,
}

-- The buffer holds the line and a null byte, and the result counts them; for an empty line the
-- result may also be 0, and the buffer as it was.
abbrev pub GetsLine : Bytes → List ℕ → AppRead → Type 0
GetsLine buf line r =
    ((r.count ≡ length line + 1) × Holds r.buf line × (r.buf (length line) ≡ 0))
    ⊎ ((r.count ≡ 0) × (line ≡ []) × ((i : ℕ) → r.buf i ≡ buf i))

Holds-copy_bytes :
    (len : ℕ) (from to : Bytes) (line : List ℕ)
    → length line ≤ len
    → Holds from line
    → Holds (copy_bytes len from to) line
Holds-copy_bytes len from to [] le h = tt
Holds-copy_bytes len from to (c ∷ line) le h = (
  rw (lt→ltb (length line) len le) h.0,
  Holds-copy_bytes len from to line (omega (arith, le)) h.1,
)

serve_read :
    (message : Bytes) (len : ℕ) (tty : Tty) (buf : Bytes) (read : Read)
    → len ≤ term_buf_size
    → term_read len (λ i. message (4 + i)) tty.keys ≡ some read
    → app_term_read message buf len tty
      ≡ some (
        record { count = read.count; buf = copy_bytes read.count read.buf buf },
        record { keys = read.input; screen = tty.screen ++ read.output },
      )
unfolding app_term_read serve_term
serve_read message len tty buf read le gives = rw (le→ltb term_buf_size len le, gives) refl

-- Let Enter be among the keys that will be typed, and the buffer's length from 1 to 512. Then
-- `term_read` of a program returns. Its buffer holds the line as edited with Backspace and cut
-- at the length, and a null byte behind it, and the result counts them; or the line is empty,
-- the result is 0 and the buffer is as before.
pub app_term_read-GetsLine :
    (message buf : Bytes) (len : ℕ) (tty : Tty)
    → 0 < len
    → len ≤ term_buf_size
    → has enter_key tty.keys ≡ true
    → (r : AppRead) × (tty' : Tty) × (app_term_read message buf len tty ≡ some (r, tty'))
      × GetsLine buf (edit (len - 1) [] tty.keys) r
app_term_read-GetsLine message buf len tty pos le will =
    let line = edit (len - 1) [] tty.keys in
    let (read, gives, holds, null, lt, count) =
      term_read-Reads len (λ i. message (4 + i)) tty.keys pos (omega (arith, le)) will in
    (
      _,
      _,
      serve_read message len tty buf read le gives,
      elim count [
        | inl counts ↦ inl (
          counts,
          Holds-copy_bytes read.count read.buf buf line (omega (arith, counts)) holds,
          rw (lt→ltb (length line) read.count (omega (arith, counts))) null,
        )
        | inr (none_read, empty) ↦
            inr (none_read, empty, λ i. rw (le→ltb i read.count (omega (arith, none_read))) refl)
      ],
    )

-- The characters i, i + 1 and so on.
abbrev pub characters : ℕ → ℕ → Bytes → List ℕ
characters zero i str = []
characters (suc n) i str = str i ∷ characters n (suc i) str

term_write_lem :
    (n i : ℕ) (str : Bytes) (tty : Tty)
    → term_write n i str tty ≡ record tty { screen = tty.screen ++ characters n i str }
unfolding term_write
term_write_lem zero i str tty = rw (append-nil tty.screen) refl
term_write_lem (suc n) i str tty =
    term_write_lem n (suc i) str (record tty { screen = tty.screen ++ str i ∷ [] })
    ∙ ap (λ (s : List ℕ). record tty { screen = s })
        (append_assoc tty.screen (str i ∷ []) (characters n (suc i) str))

characters-copy_bytes :
    (n i len : ℕ) (from to : Bytes)
    → i + n ≤ len
    → characters n i (copy_bytes len from to) ≡ characters n i from
characters-copy_bytes zero i len from to le = refl
characters-copy_bytes (suc n) i len from to le =
    rw (lt→ltb i len (omega (arith, le)))
      (ap (λ cs. from i ∷ cs) (characters-copy_bytes n (suc i) len from to (omega (arith, le))))

-- A program writes the first `len` characters to the screen, if they fit into a request.
pub app_term_write_lem :
    (message before str : Bytes) (len : ℕ) (tty : Tty)
    → len ≤ term_buf_size
    → app_term_write message before str len tty
      ≡ some (record tty { screen = tty.screen ++ characters len 0 str })
unfolding app_term_write serve_term
app_term_write_lem message before str len tty le = rw (le→ltb term_buf_size len le) (
    ap some (
      term_write_lem len 0 (copy_bytes len str before) tty
      ∙ ap (λ (s : List ℕ). record tty { screen = tty.screen ++ s })
          (characters-copy_bytes len 0 len str before (omega arith))))
