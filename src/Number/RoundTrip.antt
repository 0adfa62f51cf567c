-- ===== src/Number/RoundTrip.antt =====
-- What `std::to_string` prints is read back by `std::stoi` and `std::stoll`.
use redis_lite.Common.{
  ℕ, zero, suc, ◌+◌, ◌/◌, ◌%◌, ◌≤◌, ◌<◌, ◌≡◌, refl, ◌≢◌, [], ◌∷◌, ◌∙◌, ap, some, Bytes, All, length,
  arith,
}
use redis_lite.Common.Int.{ℤ, pos, negsuc}
use redis_lite.Number.{
  digits, of_ℕ, of_ℤ, value, unsigned, signed, integer, negate, positive, stoi, stoll, int_max,
  i64_max,
}

abbrev pub IsDigit : ℕ → Type 0
IsDigit c = (b'0' ≤ c) × (c ≤ b'9')

digits-IsDigit : (f n : ℕ) (out : Bytes) → All IsDigit out → All IsDigit (digits f n out)
unfolding digits
digits-IsDigit zero n out h = h
digits-IsDigit (suc f) n out h = ground (arith, digits-IsDigit f (n / 10) ((b'0' + n % 10) ∷ out))

value-digits : (f n : ℕ) (out : Bytes) → n < f → value 0 (digits f n out) ≡ value n out
unfolding digits value
value-digits zero n out h = absurd (omega arith)
value-digits (suc f) n out h = ground (arith, value-digits f (n / 10) ((b'0' + n % 10) ∷ out))

digits-ne-nil : (f n : ℕ) (out : Bytes) → n < f → digits f n out ≢ []
unfolding digits
digits-ne-nil zero n out h = absurd (omega arith)
digits-ne-nil (suc f) n out h = ground (arith, digits-ne-nil f (n / 10) ((b'0' + n % 10) ∷ out))

pub of_ℕ-IsDigit : (n : ℕ) → All IsDigit (of_ℕ n)
unfolding of_ℕ
of_ℕ-IsDigit n = digits-IsDigit (suc n) n [] tt

pub of_ℕ-ne-nil : (n : ℕ) → of_ℕ n ≢ []
unfolding of_ℕ
of_ℕ-ne-nil n = digits-ne-nil (suc n) n [] (omega arith)

value-of_ℕ : (n : ℕ) → value 0 (of_ℕ n) ≡ n
unfolding of_ℕ value
value-of_ℕ n = value-digits (suc n) n [] (omega arith)

unsigned_digits : (s : Bytes) → All IsDigit s → s ≢ [] → unsigned s ≡ some (value 0 s)
unfolding unsigned
unsigned_digits [] h ne = absurd (ne refl)
unsigned_digits (c ∷ s) h ne = ground arith

integer_digits : (s : Bytes) → All IsDigit s → s ≢ [] → integer s ≡ some (pos (value 0 s))
unfolding integer signed positive
integer_digits [] h ne = absurd (ne refl)
integer_digits (c ∷ s) h ne = ground (arith, unsigned_digits (c ∷ s) h ne)

integer_minus :
    (s : Bytes) → All IsDigit s → s ≢ [] → integer (b'-' ∷ s) ≡ negate (some (value 0 s))
unfolding integer signed negate
integer_minus s h ne = ground (arith, unsigned_digits s h ne)

pub integer-of_ℕ : (n : ℕ) → integer (of_ℕ n) ≡ some (pos n)
integer-of_ℕ n =
    integer_digits (of_ℕ n) (of_ℕ-IsDigit n) (of_ℕ-ne-nil n) ∙ ap (λ k. some (pos k)) (value-of_ℕ n)

pub integer-of_ℤ : (z : ℤ) → integer (of_ℤ z) ≡ some z
unfolding of_ℤ negate
integer-of_ℤ (pos n) = integer-of_ℕ n
integer-of_ℤ (negsuc n) =
    integer_minus (of_ℕ (suc n)) (of_ℕ-IsDigit (suc n)) (of_ℕ-ne-nil (suc n))
    ∙ rw value-of_ℕ (ground arith)

pub stoi-of_ℕ : (n : ℕ) → n ≤ int_max → stoi (of_ℕ n) ≡ some (pos n)
unfolding stoi
stoi-of_ℕ n h = ground (arith, integer-of_ℕ n)

pub stoll-of_ℕ : (n : ℕ) → n ≤ i64_max → stoll (of_ℕ n) ≡ some (pos n)
unfolding stoll
stoll-of_ℕ n h = ground (arith, integer-of_ℕ n)

length-digits : (f n : ℕ) (out : Bytes) → length (digits f n out) ≤ f + length out
unfolding digits
length-digits zero n out = omega arith
length-digits (suc f) n out = ground (arith, length-digits f (n / 10) ((b'0' + n % 10) ∷ out))

-- A coarse bound on what a number prints as.
pub length-of_ℕ : (n : ℕ) → length (of_ℕ n) ≤ n + 1
unfolding of_ℕ
length-of_ℕ n = omega (arith, length-digits (suc n) n [])
