-- ===== src/Servers/Terminal.antt =====
-- apps/system/sys_terminal.c and library/syscall/servers.c: the terminal server, one request at a
-- time, and the calls of it. The kernel carries a request to the server and the reply back
-- (grass/kernel.c), so that a call runs the handling of one request.
pub mod Calls
mod Examples
use egos.Base.{ℕ, zero, suc, ◌+◌, ltb, ◌==◌, if◌then◌else◌, Option, none, some, List, [], ◌∷◌, ◌++◌}
use egos.Kernel.Scheduler.{◌>>=◌}
use egos.Terminal.{Read, term_read}

abbrev pub term_input : ℕ
term_input = 0

abbrev pub term_output : ℕ
term_output = 1

abbrev pub term_buf_size : ℕ
term_buf_size = 512

abbrev pub Bytes : Type 0
Bytes = ℕ → ℕ

-- struct term_request.
pub record TermRequest : Type 0 where
  pub type : ℕ
  pub len : ℕ
  pub buf : Bytes

-- struct term_reply.
pub record TermReply : Type 0 where
  pub len : ℕ
  pub buf : Bytes

-- The keys that will be typed, and the characters that have been written to the screen.
pub record Tty : Type 0 where
  pub keys : List ℕ
  pub screen : List ℕ

-- term_write of the kernel: the loop from character i on.
pub term_write : ℕ → ℕ → Bytes → Tty → Tty
term_write zero i str tty = tty
term_write (suc rounds) i str tty =
    term_write rounds (suc i) str (record tty { screen = tty.screen ++ str i ∷ [] })

-- One round of the loop of `main`, with the message buffer; the reply overlaps the request in it.
-- `none` is FATAL, or a read that waits for ever.
pub serve_term : Bytes → TermRequest → Tty → Option (Option TermReply × Tty)
unfolding term_write
serve_term message req tty =
    if ltb term_buf_size req.len
    then none
    else if req.type == term_input
    then (term_read req.len (λ i. message (4 + i)) tty.keys >>= λ read. some (
      some (record { len = read.count; buf = read.buf }),
      record { keys = read.input; screen = tty.screen ++ read.output },
    ))
    else if req.type == term_output
    then some (none, term_write req.len 0 req.buf tty)
    else none

-- memcpy
abbrev pub copy_bytes : ℕ → Bytes → Bytes → Bytes
copy_bytes len from to i = if ltb i len then from i else to i

-- What `term_read` of a program returns, and its buffer.
pub record AppRead : Type 0 where
  pub count : ℕ
  pub buf : Bytes

-- term_read of a program. `none` waits for ever, as without a reply.
abbrev pub receive : Bytes → Option TermReply × Tty → Option (AppRead × Tty)
receive buf (none, tty) = none
receive buf (some reply, tty) =
    some (record { count = reply.len; buf = copy_bytes reply.len reply.buf buf }, tty)

pub app_term_read : Bytes → Bytes → ℕ → Tty → Option (AppRead × Tty)
unfolding serve_term
app_term_read message buf len tty =
    serve_term message (record { type = term_input; len = len; buf = λ i. message (8 + i) }) tty
    >>= receive buf

-- term_write of a program, with what its request held before.
pub app_term_write : Bytes → Bytes → Bytes → ℕ → Tty → Option Tty
unfolding serve_term
app_term_write message before str len tty =
    serve_term message (record { type = term_output; len = len; buf = copy_bytes len str before })
      tty
    >>= λ done. some (done.1)
