-- ===== src/Rdb/Lengths.antt =====
-- Numbers, lengths and strings are read back as they were written.
use Prim.Native.Nat.{bit_or}
use native.Mathlib.Nat.{pow-suc}
use redis_lite.Common.{
  ℕ, zero, suc, ◌+◌, ◌*◌, ◌/◌, ◌%◌, ◌^◌, ◌<◌, ◌≡◌, ◌∙◌, refl, ap, Bool, true, false, ◌&&◌, [], ◌∷◌,
  ◌++◌, append_assoc, some, Bytes, length, length-append, take-length, drop-length_self, ltb, ◌==◌,
  ==_iff, lt→ltb, dec_lt, arith,
}
use redis_lite.Rdb.Codec.{
  le_bytes, of_le, write_length, take_bytes, of_taken, second_byte, read_length, write_string,
  raw_string, read_string, write_le64, read_le64,
}

-- A test of every number below a bound, and what passing it says of each.
every : (ℕ → Bool) → ℕ → Bool
every test zero = true
every test (suc bound) = every test bound && test bound

every-passed : (test : ℕ → Bool) (bound x : ℕ) → every test bound ≡ true → x < bound → test x ≡ true
unfolding every
every-passed test zero x passed below = absurd (omega arith)
every-passed test (suc bound) x passed below = ground (arith, every-passed test bound x)

-- Disjoint bits: the marker of a two-byte length, and its two bytes.
marker_table : every (λ x. bit_or 0x40 x == 64 + x) 64 ≡ true
unfolding every
marker_table = refl

marker : (x : ℕ) → x < 64 → bit_or 0x40 x ≡ 64 + x
marker x h = (==_iff _ _).0 (every-passed _ 64 x marker_table h)

join_table : every (λ x. every (λ y. bit_or (x * 256) y == x * 256 + y) 256) 64 ≡ true
unfolding every
join_table = refl

join_bytes : (x y : ℕ) → x < 64 → y < 256 → bit_or (x * 256) y ≡ x * 256 + y
join_bytes x y h k = (==_iff _ _).0 (
    every-passed _ 256 y
      (every-passed (λ x. every (λ y. bit_or (x * 256) y == x * 256 + y) 256) 64 x join_table h) k)

length-le_bytes : (k n : ℕ) → length (le_bytes k n) ≡ k
unfolding le_bytes
length-le_bytes zero n = refl
length-le_bytes (suc k) n = ap suc (length-le_bytes k (n / 256))

of_le-le_bytes : (k n : ℕ) → n < 256 ^ k → of_le (le_bytes k n) ≡ n
unfolding of_le le_bytes
of_le-le_bytes zero n h = omega arith
of_le-le_bytes (suc k) n h =
    let small : n / 256 < 256 ^ k = omega (arith, pow-suc 256 k) in
    omega (arith, of_le-le_bytes k (n / 256) small)

pub take_bytes-append :
    (s rest : Bytes) (n : ℕ) → length s ≡ n → take_bytes n (s ++ rest) ≡ some (s, rest)
unfolding take_bytes
take_bytes-append s rest n e =
    rw (← e, take-length s rest, drop-length_self s rest) (ground (arith, length-append s rest))

pub taken-le_bytes :
    (k n : ℕ) (rest : Bytes)
    → n < 256 ^ k
    → of_taken (take_bytes k (le_bytes k n ++ rest)) ≡ some (n, rest)
unfolding of_taken
taken-le_bytes k n rest h =
    rw (take_bytes-append (le_bytes k n) rest k (length-le_bytes k n), of_le-le_bytes k n h)

ltb-false : (a b : ℕ) → ¬ (a < b) → ltb a b ≡ false
ltb-false a b h = ground arith

read_short : (n : ℕ) (rest : Bytes) → n < 64 → read_length (n ∷ rest) ≡ some (n, rest)
unfolding read_length
read_short n rest h = ground arith

read_middle :
    (x y : ℕ) (rest : Bytes)
    → x < 64
    → y < 256
    → read_length (bit_or 0x40 x ∷ y ∷ rest) ≡ some (x * 256 + y, rest)
unfolding read_length second_byte
read_middle x y rest h k =
    let low : (64 + x) % 64 ≡ x = omega arith in
    rw (marker x h, low, join_bytes x y h k) (ground arith)

read_long :
    (n : ℕ) (rest : Bytes)
    → n < 2 ^ 32
    → read_length (0x80 ∷ (le_bytes 4 n ++ rest)) ≡ some (n, rest)
unfolding read_length
read_long n rest h = taken-le_bytes 4 n rest h

-- Every length below 2 ^ 32 is read back, in each of the three encodings.
pub read_length-write_length :
    (n : ℕ) (rest : Bytes) → n < 2 ^ 32 → read_length (write_length n ++ rest) ≡ some (n, rest)
unfolding write_length
read_length-write_length n rest h = elim (dec_lt n 64) [
  | yes short ↦ rw (lt→ltb n 64 short) (read_short n rest short)
  | no not_short ↦ rw (ltb-false n 64 not_short) (elim (dec_lt n 16384) [
    | yes middle ↦ rw (lt→ltb n 16384 middle) (
        read_middle (n / 256) (n % 256) rest (omega arith) (omega arith)
        ∙ ap (λ m. some (m, rest)) (omega arith))
    | no long ↦
        let low : n % 2 ^ 32 ≡ n = omega arith in
        rw (ltb-false n 16384 long, low) (read_long n rest h)
  ])
]

-- What `read_string` tests of the first byte.
abbrev is_special : Bytes → Bool
is_special [] = false
is_special (first ∷ rest) = first / 64 % 4 == 3

write_length-plain : (n : ℕ) (rest : Bytes) → is_special (write_length n ++ rest) ≡ false
unfolding write_length
write_length-plain n rest = elim (dec_lt n 64) [
  | yes short ↦ rw (lt→ltb n 64 short) (ground arith)
  | no not_short ↦ rw (ltb-false n 64 not_short) (elim (dec_lt n 16384) [
    | yes middle ↦ rw (lt→ltb n 16384 middle, marker (n / 256) (omega arith)) (ground arith)
    | no long ↦ rw (ltb-false n 16384 long) refl
  ])
]

read_string-plain :
    (bytes : Bytes) {n : ℕ} {rest : Bytes}
    → is_special bytes ≡ false
    → read_length bytes ≡ some (n, rest)
    → read_string bytes ≡ take_bytes n rest
unfolding read_string raw_string
read_string-plain [] h e = unfold read_length in cc
read_string-plain (first ∷ bytes) h e = rw (h, e)

-- Every string shorter than 2 ^ 32 bytes is read back.
pub read_string-write_string :
    (s rest : Bytes) → length s < 2 ^ 32 → read_string (write_string s ++ rest) ≡ some (s, rest)
unfolding write_string
read_string-write_string s rest h = rw append_assoc (
    read_string-plain (write_length (length s) ++ (s ++ rest))
      (write_length-plain (length s) (s ++ rest))
      (read_length-write_length (length s) (s ++ rest) h)
    ∙ take_bytes-append s rest (length s) refl)

pub read_le64-write_le64 :
    (n : ℕ) (rest : Bytes) → n < 2 ^ 64 → read_le64 (write_le64 n ++ rest) ≡ some (n, rest)
unfolding read_le64 write_le64
read_le64-write_le64 n rest h = taken-le_bytes 8 n rest h
