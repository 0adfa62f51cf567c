-- ===== src/Common/Word.antt =====
-- `int64_t` arithmetic: the true result, taken into the range by its bit pattern, which is what
-- the compilers the program builds with do where the C++ standard leaves overflow open.
use redis_lite.Common.{
  ℕ, ◌+◌, ◌-◌, ◌*◌, ◌%◌, ◌^◌, ◌≤◌, ◌<◌, ◌≡◌, Bool, arith, ltb, leb, if◌then◌else◌,
}
use redis_lite.Common.Int.{ℤ, pos, negsuc, pos_part, neg_part, ◌+ℤ◌, ◌-ℤ◌, ◌*ℤ◌, ◌≤ℤ◌}

-- The bit pattern of a 64-bit integer: the conversion of an `int64_t` to `uint64_t` or `size_t`.
abbrev pub to_u64 : ℤ → ℕ
to_u64 (pos n) = n % 2 ^ 64
to_u64 (negsuc n) = 2 ^ 64 - 1 - n % 2 ^ 64

-- The number that a pattern stands for as an `int64_t`.
abbrev pub to_i64 : ℕ → ℤ
to_i64 w = if ltb w (2 ^ 63) then pos w else negsuc (2 ^ 64 - w - 1)

unfoldable pub wrap_i64 : ℤ → ℤ
wrap_i64 z = to_i64 (to_u64 z)

unfoldable pub add_i64 : ℤ → ℤ → ℤ
unfolding ◌+ℤ◌ wrap_i64
add_i64 a b = wrap_i64 (a +ℤ b)

unfoldable pub sub_i64 : ℤ → ℤ → ℤ
unfolding ◌-ℤ◌ wrap_i64
sub_i64 a b = wrap_i64 (a -ℤ b)

unfoldable pub mul_i64 : ℤ → ℤ → ℤ
unfolding ◌*ℤ◌ wrap_i64
mul_i64 a b = wrap_i64 (a *ℤ b)

-- `a <= b` on signed integers.
abbrev pub leb_ℤ : ℤ → ℤ → Bool
leb_ℤ a b = leb (pos_part a + neg_part b) (pos_part b + neg_part a)

abbrev pub InI64 : ℤ → Type 0
InI64 z = (negsuc (2 ^ 63 - 1) ≤ℤ z) × (z ≤ℤ pos (2 ^ 63 - 1))

-- A result in range is exact.
pub wrap_i64-eq : (z : ℤ) → InI64 z → wrap_i64 z ≡ z
unfolding wrap_i64
wrap_i64-eq (pos n) h = ground arith
wrap_i64-eq (negsuc n) h = ground arith

pub wrap_i64-InI64 : (z : ℤ) → InI64 (wrap_i64 z)
unfolding wrap_i64
wrap_i64-InI64 (pos n) = ground arith
wrap_i64-InI64 (negsuc n) = ground arith

pub add_i64-pos : (a b : ℕ) → a + b < 2 ^ 63 → add_i64 (pos a) (pos b) ≡ pos (a + b)
unfolding add_i64
add_i64-pos a b h = ground arith

pub sub_i64-pos : (a b : ℕ) → b ≤ a → a < 2 ^ 63 → sub_i64 (pos a) (pos b) ≡ pos (a - b)
unfolding sub_i64
sub_i64-pos a b h k = ground arith

pub mul_i64-pos : (a b : ℕ) → a * b < 2 ^ 63 → mul_i64 (pos a) (pos b) ≡ pos (a * b)
unfolding mul_i64
mul_i64-pos a b h = ground arith

-- A value that went through `uint64_t` and back.
wrap_back : (z : ℤ) → to_i64 (to_u64 (wrap_i64 z)) ≡ wrap_i64 z
unfolding wrap_i64
wrap_back (pos n) = ground arith
wrap_back (negsuc n) = ground arith

pub add_i64_back : (a b : ℤ) → to_i64 (to_u64 (add_i64 a b)) ≡ add_i64 a b
unfolding add_i64
add_i64_back a b = wrap_back (a +ℤ b)
