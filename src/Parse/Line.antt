-- ===== src/Parse/Line.antt =====
-- groundhog_origin/src/proc_parsers.c: one line of /proc/PID/maps in the buffer of `read_maps`.
use faasafe.Prelude.{
  zero, suc, ℕ, List, if◌then◌else◌, ◌+◌, ◌-◌, ◌/◌, ◌&&◌, ◌==◌, ltb, not, [], ◌∷◌, ◌%◌, ◌^◌,
}
use faasafe.Types.{Bytes, Map, zero_map, page_size, name_size}
use faasafe.Word.{sub64, of_int, to_int}
use faasafe.Parse.{parse_hex2dec_untill, parse_dec_untill}

-- `BUFSIZ`
abbrev pub bufsiz : ℕ
bufsiz = 8192

-- The start of the line whose end is behind `x`: the place behind the line end before it, or 0.
unfoldable pub line_start : Bytes → ℕ → ℕ
line_start buffer zero = if buffer 0 == b'\n' then 1 else 0
line_start buffer (suc x) =
    let before = line_start buffer x in if buffer (suc x) == b'\n' then suc x + 1 else before

-- `while (buffer[x] != c && x + 1 < sizeof buffer) x++`, within `n` rounds.
unfoldable pub find_char : ℕ → ℕ → Bytes → ℕ → ℕ
find_char c zero buffer x = x
find_char c (suc n) buffer x =
    let next = find_char c n buffer (x + 1) in
    if not (buffer x == c) && ltb (x + 1) bufsiz then next else x

-- `while (buffer[x] == c && x + 1 < sizeof buffer) x++`, within `n` rounds.
unfoldable pub skip_char : ℕ → ℕ → Bytes → ℕ → ℕ
skip_char c zero buffer x = x
skip_char c (suc n) buffer x =
    let next = skip_char c n buffer (x + 1) in
    if buffer x == c && ltb (x + 1) bufsiz then next else x

-- `n` bytes of the buffer from `x` on.
unfoldable pub text_at : Bytes → ℕ → ℕ → List ℕ
text_at buffer x zero = []
text_at buffer x (suc n) = buffer x ∷ text_at buffer (x + 1) n

-- The fields of the line that starts at `x`, before the index fields are set, narrowed as the
-- assignments to their `uint32_t` and `uint16_t` narrow them, and the place of the
-- byte behind its name.
unfoldable pub parse_line : Bytes → ℕ → Map × ℕ
parse_line buffer x =
    let (low, x1) = parse_hex2dec_untill buffer b'-' x bufsiz in
    let x2 = find_char b'-' bufsiz buffer x1 in
    let x3 = if buffer x2 == b'-' then x2 + 1 else x2 in
    let (high, x4) = parse_hex2dec_untill buffer 32 x3 bufsiz in
    let (offset, x5) = parse_hex2dec_untill buffer 32 (x4 + 6) bufsiz in
    let (dev_major, x6) = parse_hex2dec_untill buffer b':' (x5 + 1) bufsiz in
    let (dev_minor, x7) = parse_hex2dec_untill buffer 32 (x6 + 1) bufsiz in
    let (inode, x8) = parse_dec_untill buffer 32 (x7 + 1) bufsiz in
    let x9 = skip_char 32 bufsiz buffer x8 in
    let y = find_char b'\n' bufsiz buffer x9 in
    (
      record zero_map {
        addr_start = low;
        addr_end = high;
        total_num_pages = of_int (to_int (sub64 high low / page_size));
        r = buffer (x4 + 1) == b'r';
        w = buffer (x4 + 2) == b'w';
        x = buffer (x4 + 3) == b'x';
        p = buffer (x4 + 4) == b'p';
        offset = offset % 2 ^ 32;
        dev_major = dev_major % 2 ^ 16;
        dev_minor = dev_minor % 2 ^ 16;
        inode = inode % 2 ^ 32;
        name = text_at buffer x9 (if ltb (y - x9) (name_size - 1) then y - x9 else name_size - 1);
      },
      y,
    )
