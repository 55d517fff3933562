-- ===== src/Terminal/Line.antt =====
-- library/syscall/servers.c: `term_read` edits a line.
use egos.Base.{
  ℕ, suc, ◌+◌, ◌-◌, ◌≤◌, ◌<◌, ◌≡◌, refl, sym, subst, true, not, Option, some, List, [], ◌∷◌, ltb,
  ◌==◌, if◌then◌else◌, update, length, has, arith, Bool-cases, inl, inr, ◌⊎◌,
}
use egos.Terminal.{enter_key, backspace_key, bound, Read, full, term_read_from, term_read}

-- The line as a stack with the last character on top: backspace removes it.
abbrev pub erase : List ℕ → List ℕ
erase [] = []
erase (c ∷ line) = line

-- The line that the keys make, in a buffer with room for `room` characters.
unfoldable pub edit : ℕ → List ℕ → List ℕ → List ℕ
edit room line [] = line
edit room line (c ∷ keys) =
    let shorter = edit room (erase line) keys in
    let longer = edit room (c ∷ line) keys in
    if not (ltb (length line) room)
    then line
    else if c == enter_key
    then line
    else if c == backspace_key
    then shorter
    else longer

-- The buffer holds the line.
abbrev pub Holds : (ℕ → ℕ) → List ℕ → Type 0
Holds buf [] = Unit {0}
Holds buf (c ∷ line) = (buf (length line) ≡ c) × Holds buf line

-- The line is in the buffer with a null byte behind it, and the count includes that byte, unless
-- the line is empty.
abbrev pub Reads : ℕ → List ℕ → Option Read → Type 0
Reads len line r =
    (read : Read) × (r ≡ some read)
    × Holds read.buf line
    × (read.buf (length line) ≡ 0)
    × (length line < len)
    × ((read.count ≡ length line + 1) ⊎ ((read.count ≡ 0) × (line ≡ [])))

Holds-update :
    (i v : ℕ) (buf : ℕ → ℕ) (line : List ℕ)
    → length line ≤ i
    → Holds buf line
    → Holds (update buf i v) line
Holds-update i v buf [] le h = tt
Holds-update i v buf (c ∷ line) le h =
    (ground (arith, h.0), Holds-update i v buf line (omega arith) h.1)

Holds-erase : (buf : ℕ → ℕ) (line : List ℕ) → Holds buf line → Holds buf (erase line)
Holds-erase buf [] h = tt
Holds-erase buf (c ∷ line) h = h.1

length-erase : (line : List ℕ) → length (erase line) ≡ length line - 1
length-erase [] = ground arith
length-erase (c ∷ line) = ground arith

full-Reads :
    (len : ℕ) (line : List ℕ) (buf : ℕ → ℕ) (input output : List ℕ)
    → 0 < len
    → len < 4294967296
    → length line + 1 ≡ len
    → Holds buf line
    → Reads len line (some (full len buf input output))
full-Reads len line buf input output pos small e h =
    let at : bound len ≡ length line = omega arith in
    (
      _,
      refl,
      Holds-update (bound len) 0 buf line (omega arith) h,
      ground arith,
      omega arith,
      inl (omega arith),
    )

count_lem :
    (line : List ℕ) (count : ℕ)
    → count ≡ (if length line == 0 then 0 else length line + 1)
    → (count ≡ length line + 1) ⊎ ((count ≡ 0) × (line ≡ []))
count_lem [] count e = inr (ground arith, refl)
count_lem (c ∷ line) count e = inl (ground arith)

done-Reads :
    (len : ℕ) (line : List ℕ) (buf : ℕ → ℕ) (c : ℕ) (keys output : List ℕ)
    → length line < len
    → Holds buf line
    → Reads len line (
        some (record {
          count = if length line == 0 then 0 else length line + 1;
          buf = update (update buf (length line) c) (length line) 0;
          input = keys;
          output = output;
        }))
done-Reads len line buf c keys output lt h = (
  _,
  refl,
  Holds-update (length line) 0 (update buf (length line) c) line (omega arith)
      (Holds-update (length line) c buf line (omega arith) h),
  ground arith,
  lt,
  count_lem line _ refl,
)

term_read_from-Reads :
    (keys line : List ℕ) (i len : ℕ) (buf : ℕ → ℕ) (output : List ℕ)
    → 0 < len
    → len < 4294967296
    → i ≡ length line
    → i < len
    → Holds buf line
    → has enter_key keys ≡ true
    → Reads len (edit (bound len) line keys) (term_read_from keys i len buf output)
unfolding term_read_from edit
term_read_from-Reads [] line i len buf output pos small e lt h will = absurd (ground arith)
term_read_from-Reads (c ∷ keys) line i len buf output pos small e lt h will =
    elim (Bool-cases (ltb (length line) (bound len))) [
      | inr filled ↦
          rw (e, filled) (full-Reads len line buf (c ∷ keys) output pos small (ground arith) h)
      | inl room ↦ elim (Bool-cases (c == enter_key)) [
        | inl done ↦ rw (e, room, done) (done-Reads len line buf c keys _ (ground arith) h)
        | inr other ↦ elim (Bool-cases (c == backspace_key)) [
          | inl back ↦
              rw (e, room, other, back)
                (term_read_from-Reads keys (erase line) (length line - 1) len _ _ pos small
                  (sym (length-erase line)) (omega (arith, e, lt))
                  (Holds-update (length line) c buf (erase line) (omega (arith, length-erase line))
                    (Holds-erase buf line h))
                  (ground arith))
          | inr char ↦
              rw (e, room, other, char)
                (term_read_from-Reads keys (c ∷ line) (suc (length line)) len _ _ pos small refl
                  (ground arith)
                  (ground arith, Holds-update (length line) c buf line (omega arith) h)
                  (ground arith))
        ]
      ]
    ]

-- If the keys typed include an Enter, and the buffer has between 1 and 2^32 - 1 bytes, then
-- `term_read` returns: the buffer holds the line that the keys make, where a backspace erases
-- the last character and input stops at Enter or when the buffer is full, with a null byte
-- behind it within the buffer; the result counts the line and that byte, or is 0 for an empty
-- line.
pub term_read-Reads :
    (len : ℕ) (buf : ℕ → ℕ) (keys : List ℕ)
    → 0 < len
    → len < 4294967296
    → has enter_key keys ≡ true
    → Reads len (edit (len - 1) [] keys) (term_read len buf keys)
unfolding term_read
term_read-Reads len buf keys pos small will =
    let room : bound len ≡ len - 1 = omega arith in
    subst (λ room. Reads len (edit room [] keys) (term_read_from keys 0 len buf [])) room
      (term_read_from-Reads keys [] 0 len buf [] pos small refl pos tt will)
