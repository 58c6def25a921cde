-- ===== src/Parse/Numbers.antt =====
-- A number that is written out is parsed back.
use faasafe.Prelude.{
  zero, suc, [], ◌∷◌, some, true, false, arith, ◌≡◌, ℕ, List, Option, if◌then◌else◌, ◌+◌, ◌-◌, ◌*◌,
  ◌^◌, ◌<◌, ◌≤◌, length, ltb, not, ◌==◌, ◌&&◌, ap, ◌∙◌,
}
use faasafe.Types.{Bytes}
use faasafe.Word.{add64, mul64}
use faasafe.Parse.{dec_digit, hex_digit, parse_loop, parse_dec_untill, parse_hex2dec_untill, not}

-- The character of a digit, in lower case.
abbrev pub char_of : ℕ → ℕ
char_of d = if ltb d 10 then b'0' + d else b'a' + (d - 10)

-- The digits `ds` stand in the buffer from `p` on.
abbrev pub Written : ℕ → Bytes → ℕ → List ℕ → Type 0
Written base buffer p [] = Unit
Written base buffer p (d ∷ ds) =
    (d < base) × (buffer p ≡ char_of d) × Written base buffer (p + 1) ds

-- The number that digits denote, after those of `val`.
abbrev pub value_from : ℕ → ℕ → List ℕ → ℕ
value_from base val [] = val
value_from base val (d ∷ ds) = value_from base (val * base + d) ds

-- What both functions need of their digits.
record IsBase (base : ℕ) (digit : ℕ → Option ℕ) : Type 0 where
  small : base ≤ 16
  grows : (v d : ℕ) → v ≤ v * base + d
  reads : (d : ℕ) → d < base → digit (char_of d) ≡ some d

value_from_mono :
    (base : ℕ) (digit : ℕ → Option ℕ)
    → IsBase base digit
    → (ds : List ℕ) (val : ℕ) → val ≤ value_from base val ds
value_from_mono base digit b [] val = omega arith
value_from_mono base digit b (d ∷ ds) val =
    omega (arith, b.grows val d, value_from_mono base digit b ds (val * base + d))

module _ (base : ℕ) (digit : ℕ → Option ℕ) (b : IsBase base digit) (buffer : Bytes)
    (del buf_size : ℕ) (no_digit : (d : ℕ) → d < base → ¬ (char_of d ≡ del)) where
  parse_loop-value :
      (ds : List ℕ) (n val p : ℕ)
      → length ds < n
      → p + length ds < buf_size
      → Written base buffer p ds
      → buffer (p + length ds) ≡ del
      → value_from base val ds < 2 ^ 64
      → parse_loop base digit buffer del buf_size n val p ≡ (value_from base val ds, p + length ds)
  unfolding parse_loop
  parse_loop-value [] zero val p fuel room w e small = absurd (omega arith)
  parse_loop-value [] (suc n) val p fuel room w e small =
      let at_del : buffer p ≡ del = ap buffer (omega arith) ∙ e in
      let stop : (not (buffer p == del) && ltb (p + 1) buf_size) ≡ false = ground arith in
      let end : p ≡ p + 0 = omega arith in rw stop (ap (λ k. (val, k)) end)
  parse_loop-value (d ∷ ds) zero val p fuel room w e small = absurd (omega arith)
  parse_loop-value (d ∷ ds) (suc n) val p fuel room w e small =
      let next = value_from_mono base digit b ds (val * base + d) in
      let add : add64 (mul64 val base) d ≡ val * base + d = omega (arith, next, small) in
      let here : (not (buffer p == del) && ltb (p + 1) buf_size) ≡ true =
        ground (arith, w.1, no_digit d w.0) in
      let read : digit (buffer p) ≡ some d = rw w.1 (b.reads d w.0) in
      rw (here, read, add)
        (parse_loop-value ds n (val * base + d) (p + 1) (omega arith) (omega arith) w.2
            (ap buffer (omega arith) ∙ e) small
          ∙ ap (λ k. (value_from base (val * base + d) ds, k)) (omega arith))

dec_digit-char_of : (d : ℕ) → d < 10 → dec_digit (char_of d) ≡ some d
unfolding dec_digit
dec_digit-char_of d h = ground arith

hex_digit-char_of : (d : ℕ) → d < 16 → hex_digit (char_of d) ≡ some d
unfolding hex_digit
hex_digit-char_of d h = ground arith

dec_digit-IsBase : IsBase 10 dec_digit
dec_digit-IsBase = record {
  small = omega arith;
  grows = λ v d. omega arith;
  reads = dec_digit-char_of;
}

hex_digit-IsBase : IsBase 16 hex_digit
hex_digit-IsBase = record {
  small = omega arith;
  grows = λ v d. omega arith;
  reads = hex_digit-char_of;
}

-- Decimal digits of a number below 2 ^ 64 that end at the delimiter, a character that is no digit,
-- within the buffer, are parsed to the number, and the pointer moves to the delimiter.
pub parse_dec_untill-value :
    (buffer : Bytes) (del buf_size : ℕ) (ds : List ℕ) (p : ℕ)
    → ((d : ℕ) → d < 10 → ¬ (char_of d ≡ del))
    → p + length ds < buf_size
    → Written 10 buffer p ds
    → buffer (p + length ds) ≡ del
    → value_from 10 0 ds < 2 ^ 64
    → parse_dec_untill buffer del p buf_size ≡ (value_from 10 0 ds, p + length ds)
unfolding parse_dec_untill
parse_dec_untill-value buffer del buf_size ds p no_digit room w e small =
    parse_loop-value 10 dec_digit dec_digit-IsBase buffer del buf_size no_digit ds buf_size 0 p
      (omega arith) room w e small

-- Hexadecimal digits, in lower case, of a number below 2 ^ 64 that end at the delimiter, a character
-- that is no digit, within the buffer, are parsed to the number, and the pointer moves to the
-- delimiter.
pub parse_hex2dec_untill-value :
    (buffer : Bytes) (del buf_size : ℕ) (ds : List ℕ) (p : ℕ)
    → ((d : ℕ) → d < 16 → ¬ (char_of d ≡ del))
    → p + length ds < buf_size
    → Written 16 buffer p ds
    → buffer (p + length ds) ≡ del
    → value_from 16 0 ds < 2 ^ 64
    → parse_hex2dec_untill buffer del p buf_size ≡ (value_from 16 0 ds, p + length ds)
unfolding parse_hex2dec_untill
parse_hex2dec_untill-value buffer del buf_size ds p no_digit room w e small =
    parse_loop-value 16 hex_digit hex_digit-IsBase buffer del buf_size no_digit ds buf_size 0 p
      (omega arith) room w e small
