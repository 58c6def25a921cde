-- ===== src/Parse.antt =====
-- groundhog_origin/src/proc_parsers.c: the numbers in a line of /proc/PID/maps.
pub mod Line
pub mod Entry
pub mod Numbers
pub mod Sample
pub mod HeapStack
pub mod Result
pub mod LaidOut
pub mod Chunks
pub mod Lines
pub mod ReadMaps
mod Tests
mod MapsTests
use faasafe.Prelude.{
  zero, suc, none, some, ℕ, Bool, Option, if◌then◌else◌, ◌+◌, ◌-◌, ◌&&◌, ◌==◌, leb, ltb, not, refl,
  [], ◌∷◌, inl, inr, true, false, arith, ◌≡◌, List,
}
use faasafe.Types.{Bytes}
use faasafe.Word.{add64, mul64}

-- The value of a character that is a digit.
unfoldable pub dec_digit : ℕ → Option ℕ
dec_digit c = if leb b'0' c && leb c b'9' then some (c - b'0') else none

unfoldable pub hex_digit : ℕ → Option ℕ
hex_digit c =
    if leb b'0' c && leb c b'9'
    then some (c - b'0')
    else if leb b'a' c && leb c b'f'
    then some (c - b'a' + 10)
    else none

-- The loop of both functions: at most `n` rounds are left; the number so far and `*buf_pointer`.
unfoldable pub parse_loop : ℕ → (ℕ → Option ℕ) → Bytes → ℕ → ℕ → ℕ → ℕ → ℕ → ℕ × ℕ
parse_loop base digit buffer del buf_size zero val p = (val, p)
parse_loop base digit buffer del buf_size (suc n) val p =
    if not (buffer p == del) && ltb (p + 1) buf_size
    then elim (digit (buffer p)) [
      | none ↦ (mul64 val base, p + 1)
      | some d ↦ parse_loop base digit buffer del buf_size n (add64 (mul64 val base) d) (p + 1)
    ]
    else (val, p)

-- `parse_dec_untill`: the number and the new `*buf_pointer`. Each round moves it, so `buf_size`
-- rounds are enough.
unfoldable pub parse_dec_untill : Bytes → ℕ → ℕ → ℕ → ℕ × ℕ
parse_dec_untill buffer del buf_pointer buf_size =
    parse_loop 10 dec_digit buffer del buf_size buf_size 0 buf_pointer

-- `parse_hex2dec_untill`
unfoldable pub parse_hex2dec_untill : Bytes → ℕ → ℕ → ℕ → ℕ × ℕ
parse_hex2dec_untill buffer del buf_pointer buf_size =
    parse_loop 16 hex_digit buffer del buf_size buf_size 0 buf_pointer
