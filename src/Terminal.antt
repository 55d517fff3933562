-- ===== src/Terminal.antt =====
-- library/syscall/servers.c, the part for the kernel: reading a line from the keyboard, with echo.
pub mod Line
mod Examples
use egos.Base.{
  ℕ, zero, suc, ◌+◌, ◌-◌, ◌%◌, Bool, true, false, not, Option, none, some, List, [], ◌∷◌, ◌++◌, ltb,
  ◌==◌, if◌then◌else◌, update,
}

abbrev pub enter_key : ℕ
enter_key = 0x0D

abbrev pub backspace_key : ℕ
backspace_key = 0x7F

-- len - 1, an unsigned number.
abbrev pub bound : ℕ → ℕ
bound len = (len + 4294967295) % 4294967296

-- What `term_read` returns, with the buffer, the input that is left, and what was echoed.
pub record Read : Type 0 where
  pub count : ℕ
  pub buf : ℕ → ℕ
  pub input : List ℕ
  pub output : List ℕ

-- The buffer is full.
abbrev pub full : ℕ → (ℕ → ℕ) → List ℕ → List ℕ → Read
full len buf input output = record {
  count = len;
  buf = update buf (bound len) 0;
  input = input;
  output = output;
}

-- if (c) term_write(&c, 1)
abbrev pub echo : ℕ → List ℕ
echo c = if c == 0 then [] else c ∷ []

-- if (i) term_write("\b \b", 3)
abbrev pub rub_out : ℕ → List ℕ
rub_out i = if i == 0 then [] else 8 ∷ 32 ∷ 8 ∷ []

-- The loop, with i characters in the buffer; `none` waits for input for ever.
pub term_read_from : List ℕ → ℕ → ℕ → (ℕ → ℕ) → List ℕ → Option Read
term_read_from [] i len buf output =
    if ltb i (bound len) then none else some (full len buf [] output)
term_read_from (c ∷ input) i len buf output =
    let stored = update buf i c in
    let back = term_read_from input (i - 1) len stored (output ++ rub_out i) in
    let more = term_read_from input (suc i) len stored (output ++ echo c) in
    if not (ltb i (bound len))
    then some (full len buf (c ∷ input) output)
    else if c == enter_key
    then some (record {
      count = if i == 0 then 0 else i + 1;
      buf = update stored i 0;
      input = input;
      output = output ++ 10 ∷ 13 ∷ [];
    })
    else if c == backspace_key
    then back
    else more

pub term_read : ℕ → (ℕ → ℕ) → List ℕ → Option Read
unfolding term_read_from
term_read len buf input = term_read_from input 0 len buf []
