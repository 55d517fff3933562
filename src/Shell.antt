-- ===== src/Shell.antt =====
-- apps/system/sys_shell.c: the parsing of a command line.
pub mod Parse
pub mod Accepts
pub mod Loop
mod Examples
use egos.Base.{
  ℕ, zero, suc, ◌+◌, Bool, true, false, Option, none, some, List, [], ◌∷◌, leb, ltb, ◌==◌,
  if◌then◌else◌, update,
}

abbrev pub cmd_nargs : ℕ
cmd_nargs = 16

abbrev pub cmd_arg_len : ℕ
cmd_arg_len = 32

abbrev pub space : ℕ
space = 32

-- argv[CMD_NARGS][CMD_ARG_LEN] of struct proc_request.
abbrev pub Argv : Type 0
Argv = ℕ → ℕ → ℕ

abbrev pub set_char : Argv → ℕ → ℕ → ℕ → Argv
set_char argv nargs idx c = update argv nargs (update (argv nargs) idx c)

pub record Request : Type 0 where
  pub argc : ℕ
  pub argv : Argv

-- The loop over the characters that are left of the string. `none` is the result -1.
pub parse_loop : ℕ → ℕ → Argv → List ℕ → Option Request
parse_loop idx nargs argv [] =
    some (record { argc = if idx == 0 then nargs else nargs + 1; argv = argv })
parse_loop idx nargs argv (c ∷ buf) =
    let longer = parse_loop (suc idx) nargs (set_char argv nargs idx c) buf in
    let next = parse_loop 0 (suc nargs) (set_char argv nargs idx 0) buf in
    let same = parse_loop idx nargs argv buf in
    if c == space
    then (if idx == 0 then same else if leb cmd_nargs (suc nargs) then none else next)
    else if leb cmd_arg_len (suc idx)
    then none
    else longer

pub parse_request : List ℕ → Option Request
unfolding parse_loop
parse_request buf = parse_loop 0 0 (λ i j. 0) buf
