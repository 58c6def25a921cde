-- ===== src/Threads/Text.antt =====
-- The C library's readers of numbers, on the names in /proc/PID/task: `strtoul(name, &end, 0)` with
-- the test for the end of the name, and `sscanf(name, "%d%c")` for the number alone.
use faasafe.Prelude.{
  none, some, ℕ, Bool, Option, List, if◌then◌else◌, ◌+◌, ◌-◌, ◌*◌, ◌==◌, ◌&&◌, ◌||◌, leb, ltb, [],
  ◌∷◌, true, false,
}
use faasafe.Word.{u64_mod, sub64, to_int}

-- `isspace`
abbrev is_space : ℕ → Bool
is_space c = c == 32 || (leb 9 c && leb c 13)

abbrev skip_spaces : List ℕ → List ℕ
skip_spaces [] = []
skip_spaces (c ∷ cs) = let rest = skip_spaces cs in if is_space c then rest else c ∷ cs

-- The value of a digit or a letter, if it is below the base.
abbrev pub digit_value : ℕ → ℕ → Option ℕ
digit_value base c =
    let v =
      if leb b'0' c && leb c b'9'
      then c - b'0'
      else if leb b'a' c && leb c b'z'
      then c - b'a' + 10
      else if leb b'A' c && leb c b'Z'
      then c - b'A' + 10
      else base in
    if ltb v base then some v else none

-- Digits up to the end of the text, none if something else is met; `val` is the value so far.
unfoldable pub digits_to_end : ℕ → ℕ → List ℕ → Option ℕ
digits_to_end base val [] = some val
digits_to_end base val (c ∷ cs) = elim (digit_value base c) [
  | none ↦ none
  | some d ↦ digits_to_end base (val * base + d) cs
]

-- At least one digit is asked for.
abbrev pub number : ℕ → List ℕ → Option ℕ
number base [] = none
number base (c ∷ cs) = digits_to_end base 0 (c ∷ cs)

-- Base 0: "0x" and "0" are the prefixes of base 16 and 8.
abbrev pub based_number : List ℕ → Option ℕ
based_number [] = none
based_number (c ∷ []) = number 10 (c ∷ [])
based_number (c ∷ d ∷ cs) =
    if c == b'0'
    then if d == b'x' || d == b'X' then number 16 cs else number 8 (d ∷ cs)
    else number 10 (c ∷ d ∷ cs)

-- The text behind the sign, and whether that is a minus.
abbrev signed : List ℕ → Bool × List ℕ
signed [] = (false, [])
signed (c ∷ cs) =
    if c == b'-' then (true, cs) else if c == b'+' then (false, cs) else (false, c ∷ cs)

-- `strtoul` where it reads the whole name. A value that is too large is `ULONG_MAX`; a minus
-- negates in `unsigned long`. The name is not empty.
unfoldable pub strtoul : List ℕ → Option ℕ
strtoul name =
    let (minus, digits) = signed (skip_spaces name) in
    elim (based_number digits) [
      | none ↦ none
      | some v ↦ some (if leb u64_mod v then u64_mod - 1 else if minus then sub64 0 v else v)
    ]

-- `sscanf(name, "%d%c", &value, &dummy) == 1`, with the value: a number up to the end of the name.
-- (A number that is no `int` is undefined in C; here it wraps.)
unfoldable pub scan_int : List ℕ → Option ℕ
scan_int name =
    let (minus, digits) = signed (skip_spaces name) in
    elim (number 10 digits) [
      | none ↦ none
      | some v ↦ some (if minus then to_int (sub64 0 v) else to_int v)
    ]
