-- ===== src/Parse/Tests.antt =====
-- The number 2f0 in front of a dash, and 27 in front of a space.
use faasafe.Prelude.{refl, [], ◌∷◌, arith, ◌≡◌, ℕ, ◌<◌, get_or}
use faasafe.Types.{Bytes}
use faasafe.Parse.{parse_dec_untill, parse_hex2dec_untill}
use faasafe.Parse.Numbers.{parse_dec_untill-value, parse_hex2dec_untill-value, char_of}

abbrev buffer : Bytes
buffer p = get_or (b'2' ∷ b'f' ∷ b'0' ∷ b'-' ∷ b'2' ∷ b'7' ∷ b' ' ∷ []) p 0

no_dash : (d : ℕ) → d < 16 → ¬ (char_of d ≡ b'-')
no_dash d h e = ground arith

no_space : (d : ℕ) → d < 10 → ¬ (char_of d ≡ b' ')
no_space d h e = ground arith

parse_hex2dec_untill-value_example : parse_hex2dec_untill buffer b'-' 0 8192 ≡ (752, 3)
parse_hex2dec_untill-value_example =
    parse_hex2dec_untill-value buffer b'-' 8192 (2 ∷ 15 ∷ 0 ∷ []) 0 no_dash (omega arith)
      (omega arith, refl, (omega arith, refl, (omega arith, refl, tt))) refl (omega arith)

parse_dec_untill-value_example : parse_dec_untill buffer b' ' 4 8192 ≡ (27, 6)
parse_dec_untill-value_example =
    parse_dec_untill-value buffer b' ' 8192 (2 ∷ 7 ∷ []) 4 no_space (omega arith)
      (omega arith, refl, (omega arith, refl, tt)) refl (omega arith)
