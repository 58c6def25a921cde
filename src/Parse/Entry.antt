-- ===== src/Parse/Entry.antt =====
-- A line of /proc/PID/maps, as the kernel prints it, is parsed to the map that it describes.
use faasafe.Prelude.{
  refl, zero, suc, [], ◌∷◌, true, false, arith, ◌≡◌, ◌≢◌, ℕ, List, Bool, if◌then◌else◌, ◌+◌, ◌-◌,
  ◌/◌, ◌^◌, ◌<◌, ◌≤◌, length, ltb, ◌==◌, ap, ◌∙◌, take, Bool-cases, inl, inr, ==-refl, sym, ◌&&◌,
  not, ◌⊎◌, take-length, ◌%◌,
}
use faasafe.Types.{Bytes, Map, zero_map, page_size, name_size}
use faasafe.Word.{sub64, of_int, to_int}
use faasafe.Parse.{parse_hex2dec_untill, not}
use faasafe.Parse.Numbers.{
  char_of, Written, value_from, parse_dec_untill-value, parse_hex2dec_untill-value,
}
use faasafe.Parse.Line.{bufsiz, find_char, skip_char, text_at, parse_line}

-- The digits of the numbers of a line, its flags, the number of spaces before its name, and that.
pub record Entry : Type 0 where
  pub low : List ℕ
  pub high : List ℕ
  pub r : Bool
  pub w : Bool
  pub x : Bool
  pub p : Bool
  pub offset : List ℕ
  pub dev_major : List ℕ
  pub dev_minor : List ℕ
  pub inode : List ℕ
  pub spaces : ℕ
  pub name : List ℕ

-- The map that it describes: the offset and the inode number are kept modulo 2 ^ 32, the device numbers
-- modulo 2 ^ 16, and the name is cut to its buffer.
abbrev pub map_of : Entry → Map
map_of l = record zero_map {
  addr_start = value_from 16 0 l.low;
  addr_end = value_from 16 0 l.high;
  total_num_pages =
      of_int (to_int (sub64 (value_from 16 0 l.high) (value_from 16 0 l.low) / page_size));
  r = l.r;
  w = l.w;
  x = l.x;
  p = l.p;
  offset = value_from 16 0 l.offset % 2 ^ 32;
  dev_major = value_from 16 0 l.dev_major % 2 ^ 16;
  dev_minor = value_from 16 0 l.dev_minor % 2 ^ 16;
  inode = value_from 10 0 l.inode % 2 ^ 32;
  name = take (name_size - 1) l.name;
}

-- The places of the parts of a line that starts at `x`.
abbrev pub high_at : ℕ → Entry → ℕ
high_at x l = x + length l.low + 1

abbrev pub flags_at : ℕ → Entry → ℕ
flags_at x l = high_at x l + length l.high

abbrev pub offset_at : ℕ → Entry → ℕ
offset_at x l = flags_at x l + 6

abbrev pub major_at : ℕ → Entry → ℕ
major_at x l = offset_at x l + length l.offset + 1

abbrev pub minor_at : ℕ → Entry → ℕ
minor_at x l = major_at x l + length l.dev_major + 1

abbrev pub inode_at : ℕ → Entry → ℕ
inode_at x l = minor_at x l + length l.dev_minor + 1

abbrev pub name_at : ℕ → Entry → ℕ
name_at x l = inode_at x l + length l.inode + l.spaces

abbrev pub end_at : ℕ → Entry → ℕ
end_at x l = name_at x l + length l.name

-- A number below 2 ^ 64 stands at `q`, and the character `del` behind it.
pub record Number (base : ℕ) (buffer : Bytes) (q : ℕ) (ds : List ℕ) (del : ℕ) : Type 0 where
  pub digits : Written base buffer q ds
  pub behind : buffer (q + length ds) ≡ del
  pub small : value_from base 0 ds < 2 ^ 64

-- The bytes stand at `q`; none of them is `c`.
abbrev pub Text : ℕ → Bytes → ℕ → List ℕ → Type 0
Text c buffer q [] = Unit
Text c buffer q (b ∷ bs) = (buffer q ≡ b) × (b ≢ c) × Text c buffer (q + 1) bs

abbrev pub flag : Bool → ℕ → ℕ → ℕ
flag b c d = if b then c else d

-- The line stands at `start` in the buffer.
pub record LineAt (buffer : Bytes) (start : ℕ) (l : Entry) : Type 0 where
  pub low : Number 16 buffer start l.low b'-'
  pub high : Number 16 buffer (high_at start l) l.high 32
  pub r : buffer (flags_at start l + 1) ≡ flag l.r b'r' b'-'
  pub w : buffer (flags_at start l + 2) ≡ flag l.w b'w' b'-'
  pub x : buffer (flags_at start l + 3) ≡ flag l.x b'x' b'-'
  pub p : buffer (flags_at start l + 4) ≡ flag l.p b'p' b's'
  pub offset : Number 16 buffer (offset_at start l) l.offset 32
  pub dev_major : Number 16 buffer (major_at start l) l.dev_major b':'
  pub dev_minor : Number 16 buffer (minor_at start l) l.dev_minor 32
  pub inode : Number 10 buffer (inode_at start l) l.inode 32
  pub spaces : (k : ℕ) → k < l.spaces → buffer (inode_at start l + length l.inode + k) ≡ 32
  pub no_space : buffer (name_at start l) ≢ 32
  pub name : Text b'\n' buffer (name_at start l) l.name
  pub line_end : buffer (end_at start l) ≡ b'\n'
  pub room : end_at start l + 1 < bufsiz
  -- There is no line end before.
  pub one_line : (k : ℕ) → start ≤ k → k < end_at start l → buffer k ≢ b'\n'

flag-char : (b : Bool) (c d : ℕ) → d ≢ c → (flag b c d == c) ≡ b
flag-char true c d ne = ==-refl c
flag-char false c d ne = ground (arith, ne)

skip_char-spaces :
    (buffer : Bytes) (k n q : ℕ)
    → k < n
    → q + k + 1 < bufsiz
    → ((i : ℕ) → i < k → buffer (q + i) ≡ 32)
    → buffer (q + k) ≢ 32
    → skip_char 32 n buffer q ≡ q + k
unfolding skip_char
skip_char-spaces buffer k zero q fuel room all stop = absurd (omega arith)
skip_char-spaces buffer zero (suc n) q fuel room all stop =
    let z : q + 0 ≡ q = omega arith in
    let stop' : buffer q ≢ 32 = λ e. stop (ap buffer z ∙ e) in
    let ends : (buffer q == 32 && ltb (q + 1) bufsiz) ≡ false = ground (arith, stop') in
    rw ends (sym z)
skip_char-spaces buffer (suc k) (suc n) q fuel room all stop =
    let z : q + 0 ≡ q = omega arith in
    let first : buffer q ≡ 32 = sym (ap buffer z) ∙ all 0 (omega arith) in
    let goes : (buffer q == 32 && ltb (q + 1) bufsiz) ≡ true = ground (arith, first, room) in
    let moved : (i : ℕ) → q + 1 + i ≡ q + suc i = λ i. omega arith in
    rw goes (
      skip_char-spaces buffer k n (q + 1) (omega arith) (omega arith)
        (λ i lt. ap buffer (moved i) ∙ all (suc i) (omega arith))
        (λ e. stop (sym (ap buffer (moved k)) ∙ e))
      ∙ moved k)

find_char-stops :
    (c : ℕ) (buffer : Bytes) (bs : List ℕ) (n q : ℕ)
    → length bs < n
    → q + length bs + 1 < bufsiz
    → Text c buffer q bs
    → buffer (q + length bs) ≡ c
    → find_char c n buffer q ≡ q + length bs
unfolding find_char
find_char-stops c buffer bs zero q fuel room text stop = absurd (omega arith)
find_char-stops c buffer [] (suc n) q fuel room text stop =
    let z : q + 0 ≡ q = omega arith in
    let found : buffer q ≡ c = sym (ap buffer z) ∙ stop in
    let ends : (not (buffer q == c) && ltb (q + 1) bufsiz) ≡ false = ground (arith, found) in
    rw ends (sym z)
find_char-stops c buffer (b ∷ bs) (suc n) q fuel room text stop =
    let other : buffer q ≢ c = λ e. text.1 (sym text.0 ∙ e) in
    let goes : (not (buffer q == c) && ltb (q + 1) bufsiz) ≡ true = ground (arith, other, room) in
    let moved : q + 1 + length bs ≡ q + suc (length bs) = omega arith in
    rw goes (
      find_char-stops c buffer bs n (q + 1) (omega arith) (omega arith) text.2
        (ap buffer moved ∙ stop)
      ∙ moved)

find_char-here : (c n : ℕ) (buffer : Bytes) (q : ℕ) → buffer q ≡ c → find_char c n buffer q ≡ q
unfolding find_char
find_char-here c zero buffer q e = refl
find_char-here c (suc n) buffer q e =
    let ends : (not (buffer q == c) && ltb (q + 1) bufsiz) ≡ false = ground (arith, e) in
    rw ends refl

text_at-prefix :
    (c : ℕ) (buffer : Bytes) (bs : List ℕ) (q n : ℕ)
    → n ≤ length bs
    → Text c buffer q bs
    → text_at buffer q n ≡ take n bs
unfolding text_at
text_at-prefix c buffer bs q zero le text = refl
text_at-prefix c buffer [] q (suc n) le text = absurd (omega arith)
text_at-prefix c buffer (b ∷ bs) q (suc n) le text =
    rw (text.0, text_at-prefix c buffer bs (q + 1) n (omega arith) text.2) refl

text_at-take :
    (c : ℕ) (buffer : Bytes) (bs : List ℕ) (q n : ℕ)
    → Text c buffer q bs
    → text_at buffer q (if ltb (length bs) n then length bs else n) ≡ take n bs
text_at-take c buffer bs q n text = elim (Bool-cases (ltb (length bs) n)) [
  | inl lt ↦ rw lt (
      text_at-prefix c buffer bs q (length bs) (omega arith) text
      ∙ take-length bs (length bs) (omega arith)
      ∙ sym (take-length bs n (ground arith)))
  | inr ge ↦ rw ge (text_at-prefix c buffer bs q n (ground arith) text)
]

no_hex : (del : ℕ) → (del ≡ b'-') ⊎ (del ≡ 32) ⊎ (del ≡ b':') → (d : ℕ) → d < 16 → char_of d ≢ del
no_hex del h d lt = ground arith

no_dec : (d : ℕ) → d < 10 → char_of d ≢ 32
no_dec d lt = ground arith

hex_read :
    (buffer : Bytes) (q : ℕ) (ds : List ℕ) (del : ℕ)
    → Number 16 buffer q ds del
    → q + length ds < bufsiz
    → (del ≡ b'-') ⊎ (del ≡ 32) ⊎ (del ≡ b':')
    → parse_hex2dec_untill buffer del q bufsiz ≡ (value_from 16 0 ds, q + length ds)
hex_read buffer q ds del n room h =
    parse_hex2dec_untill-value buffer del bufsiz ds q (no_hex del h) room n.digits n.behind n.small

-- A line that stands in the buffer, as the kernel prints it, is parsed to the map that it
-- describes, `map_of`, with the offset and the inode number modulo 2 ^ 32 and the device numbers
-- modulo 2 ^ 16, and the place behind its name is found.
pub parse_line-map_of :
    (buffer : Bytes) (start : ℕ) (l : Entry)
    → LineAt buffer start l
    → parse_line buffer start ≡ (map_of l, end_at start l)
unfolding parse_line
parse_line-map_of buffer start l at_start =
    let low =
      hex_read buffer start l.low b'-' at_start.low (omega (arith, at_start.room)) (inl refl) in
    let dash : find_char b'-' bufsiz buffer (start + length l.low) ≡ start + length l.low =
      find_char-here b'-' bufsiz buffer (start + length l.low) at_start.low.behind in
    let is_dash : (buffer (start + length l.low) == b'-') ≡ true = rw at_start.low.behind refl in
    let high =
      hex_read buffer (high_at start l) l.high 32 at_start.high (omega (arith, at_start.room))
        (inr (inl refl)) in
    let offset =
      hex_read buffer (offset_at start l) l.offset 32 at_start.offset (omega (arith, at_start.room))
        (inr (inl refl)) in
    let major =
      hex_read buffer (major_at start l) l.dev_major b':' at_start.dev_major
        (omega (arith, at_start.room)) (inr (inr refl)) in
    let minor =
      hex_read buffer (minor_at start l) l.dev_minor 32 at_start.dev_minor
        (omega (arith, at_start.room)) (inr (inl refl)) in
    let inode =
      parse_dec_untill-value buffer 32 bufsiz l.inode (inode_at start l) no_dec
        (omega (arith, at_start.room)) at_start.inode.digits at_start.inode.behind
        at_start.inode.small in
    let spaces =
      skip_char-spaces buffer l.spaces bufsiz (inode_at start l + length l.inode)
        (omega (arith, at_start.room)) (omega (arith, at_start.room)) at_start.spaces
        at_start.no_space in
    let ends =
      find_char-stops b'\n' buffer l.name bufsiz (name_at start l) (omega (arith, at_start.room))
        (omega (arith, at_start.room)) at_start.name at_start.line_end in
    let size : name_at start l + length l.name - name_at start l ≡ length l.name = omega arith in
    let r : (buffer (flags_at start l + 1) == b'r') ≡ l.r =
      rw at_start.r (flag-char l.r b'r' b'-' (λ e. absurd (omega (arith, e)))) in
    let w : (buffer (flags_at start l + 2) == b'w') ≡ l.w =
      rw at_start.w (flag-char l.w b'w' b'-' (λ e. absurd (omega (arith, e)))) in
    let x : (buffer (flags_at start l + 3) == b'x') ≡ l.x =
      rw at_start.x (flag-char l.x b'x' b'-' (λ e. absurd (omega (arith, e)))) in
    let p : (buffer (flags_at start l + 4) == b'p') ≡ l.p =
      rw at_start.p (flag-char l.p b'p' b's' (λ e. absurd (omega (arith, e)))) in
    let text = text_at-take b'\n' buffer l.name (name_at start l) (name_size - 1) at_start.name in
    rw (low, dash, is_dash, high, offset, major, minor, inode, spaces, ends, r, w, x, p, size, text)
      refl
