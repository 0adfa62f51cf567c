-- ===== src/Number.antt =====
-- The numbers of the C++ standard library as the program uses them: `std::to_string`,
-- `std::stoi` and `std::stoll` (base 10, as `strtol` reads them: leading white space, one optional
-- sign, then the longest run of digits; what follows it is ignored).
pub mod RoundTrip
use redis_lite.Common.{
  ℕ, zero, suc, ◌+◌, ◌-◌, ◌*◌, ◌/◌, ◌%◌, ◌^◌, ◌≡◌, refl, Bool, true, false, ◌&&◌, ◌||◌, [], ◌∷◌,
  Option, none, some, Bytes, codes, ltb, leb, ◌==◌, if◌then◌else◌, arith, ◌≤◌,
}
use redis_lite.Common.Int.{ℤ, pos, negsuc, pos_part, neg_part, sub_ℕ}
use redis_lite.Common.Word.{leb_ℤ}

-- The digits of `n` in front of `out`. The fuel is above `n`, so it never runs out.
unfoldable pub digits : ℕ → ℕ → Bytes → Bytes
digits zero n out = out
digits (suc f) n out =
    let rest = digits f (n / 10) ((b'0' + n % 10) ∷ out) in
    if ltb n 10 then (b'0' + n) ∷ out else rest

-- `std::to_string` of an unsigned number.
unfoldable pub of_ℕ : ℕ → Bytes
unfolding digits
of_ℕ n = digits (suc n) n []

-- `std::to_string` of a signed number.
unfoldable pub of_ℤ : ℤ → Bytes
unfolding of_ℕ
of_ℤ (pos n) = of_ℕ n
of_ℤ (negsuc n) = b'-' ∷ of_ℕ (suc n)

abbrev pub is_digit : ℕ → Bool
is_digit c = leb b'0' c && leb c b'9'

-- `isspace` in the C locale.
abbrev pub is_space : ℕ → Bool
is_space c = c == 32 || (leb 9 c && leb c 13)

-- The value of the leading digits of a text, behind the digits read so far.
unfoldable pub value : ℕ → Bytes → ℕ
value acc [] = acc
value acc (c ∷ s) = if is_digit c then value (acc * 10 + (c - b'0')) s else acc

-- No digit: `std::invalid_argument`.
unfoldable pub unsigned : Bytes → Option ℕ
unfolding value
unsigned [] = none
unsigned (c ∷ s) = if is_digit c then some (value 0 (c ∷ s)) else none

negate : Option ℕ → Option ℤ
negate none = none
negate (some n) = some (sub_ℕ 0 n)

positive : Option ℕ → Option ℤ
positive none = none
positive (some n) = some (pos n)

unfoldable pub signed : Bytes → Option ℤ
unfolding unsigned negate positive
signed [] = none
signed (c ∷ s) =
    if c == b'-'
    then negate (unsigned s)
    else if c == b'+'
    then positive (unsigned s)
    else positive (unsigned (c ∷ s))

-- `strtol` with no bound on the result.
unfoldable pub integer : Bytes → Option ℤ
unfolding signed
integer [] = none
integer (c ∷ s) = if is_space c then integer s else signed (c ∷ s)

-- `std::out_of_range`.
unfoldable pub in_range : ℤ → ℤ → Option ℤ → Option ℤ
in_range lo hi none = none
in_range lo hi (some z) = if leb_ℤ lo z && leb_ℤ z hi then some z else none

abbrev pub int_max : ℕ
int_max = 2 ^ 31 - 1

abbrev pub i64_max : ℕ
i64_max = 2 ^ 63 - 1

-- `none` stands for either exception: the program always handles both alike.
unfoldable pub stoi : Bytes → Option ℤ
unfolding integer in_range
stoi s = in_range (negsuc int_max) (pos int_max) (integer s)

unfoldable pub stoll : Bytes → Option ℤ
unfolding integer in_range
stoll s = in_range (negsuc i64_max) (pos i64_max) (integer s)
