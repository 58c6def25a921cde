-- ===== src/Word.antt =====
-- The C integer types that the program computes with. A `uint64_t` or `size_t` is its value below
-- 2 ^ 64. An `int` is its bit pattern below 2 ^ 32, in two's complement.
use faasafe.Prelude.{ℕ, ◌+◌, ◌-◌, ◌*◌, ◌%◌, ◌^◌, Bool, ltb, leb, if◌then◌else◌}

abbrev pub u64_mod : ℕ
u64_mod = 2 ^ 64

abbrev pub add64 : ℕ → ℕ → ℕ
add64 a b = (a + b) % u64_mod

-- `-` on ℕ stops at 0, so the modulus is added first.
abbrev pub sub64 : ℕ → ℕ → ℕ
sub64 a b = (a + u64_mod - b) % u64_mod

abbrev pub mul64 : ℕ → ℕ → ℕ
mul64 a b = a * b % u64_mod

-- The conversion of an unsigned value to `int`.
abbrev pub to_int : ℕ → ℕ
to_int n = n % 2 ^ 32

-- The conversion of an `int` to `uint64_t`: sign extension.
abbrev pub of_int : ℕ → ℕ
of_int w = if ltb w (2 ^ 31) then w else w + (u64_mod - 2 ^ 32)

-- `a <= b` on `int`: the order of the patterns once the sign bit is flipped.
abbrev pub leb_int : ℕ → ℕ → Bool
leb_int a b = leb ((a + 2 ^ 31) % 2 ^ 32) ((b + 2 ^ 31) % 2 ^ 32)

-- `int` addition and multiplication. (C leaves an overflow undefined; here it wraps.)
abbrev pub add_int : ℕ → ℕ → ℕ
add_int a b = (a + b) % 2 ^ 32

abbrev pub mul_int : ℕ → ℕ → ℕ
mul_int a b = a * b % 2 ^ 32
