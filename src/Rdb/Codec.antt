-- ===== src/Rdb/Codec.antt =====
-- Lengths, strings and little-endian numbers of the RDB format (src/rdb.cpp). A cursor `p` with its
-- `end` is the list of the bytes from `p` on; `none` stands for the `std::runtime_error`.
use Prim.Native.Nat.{bit_or}
use redis_lite.Common.{
  ℕ, zero, suc, ◌+◌, ◌-◌, ◌*◌, ◌/◌, ◌%◌, ◌^◌, [], ◌∷◌, ◌++◌, Option, none, some, Bytes, length,
  take, drop, ltb, ◌==◌, if◌then◌else◌,
}
use redis_lite.Common.Int.{ℤ, pos, negsuc}
use redis_lite.Number.{of_ℤ}

-- The `k` lowest bytes of a number, the lowest first: `memcpy` of an integer on a little-endian host.
unfoldable pub le_bytes : ℕ → ℕ → Bytes
le_bytes zero n = []
le_bytes (suc k) n = (n % 256) ∷ le_bytes k (n / 256)

unfoldable pub of_le : Bytes → ℕ
of_le [] = 0
of_le (b ∷ bytes) = b + 256 * of_le bytes

unfoldable pub write_length : ℕ → Bytes
write_length len =
    if ltb len 64
    then len ∷ []
    else if ltb len 16384
    then bit_or 0x40 (len / 256) ∷ (len % 256) ∷ []
    else 0x80 ∷ le_bytes 4 (len % 2 ^ 32)

-- `if (p + n > end) throw …`, and the `n` bytes at `p`.
unfoldable pub take_bytes : ℕ → Bytes → Option (Bytes × Bytes)
take_bytes n bytes = if ltb (length bytes) n then none else some (take n bytes, drop n bytes)

-- `memcpy` of `n` bytes into an unsigned integer.
unfoldable pub of_taken : Option (Bytes × Bytes) → Option (ℕ × Bytes)
of_taken none = none
of_taken (some (bytes, rest)) = some (of_le bytes, rest)

unfoldable pub second_byte : ℕ → Bytes → Option (ℕ × Bytes)
second_byte first [] = none
second_byte first (second ∷ rest) = some (bit_or (first % 64 * 256) second, rest)

unfoldable pub read_length : Bytes → Option (ℕ × Bytes)
read_length [] = none
read_length (first ∷ rest) =
    let type = first / 64 % 4 in
    if type == 0
    then some (first % 64, rest)
    else if type == 1
    then second_byte first rest
    else if type == 2
    then of_taken (take_bytes 4 rest)
    else some (first, rest)

unfoldable pub write_string : Bytes → Bytes
write_string s = write_length (length s) ++ s

-- The number that a pattern of `bits` bits stands for, by two's complement.
unfoldable pub signed : ℕ → ℕ → ℤ
signed bits n = if ltb n (2 ^ (bits - 1)) then pos n else negsuc (2 ^ bits - n - 1)

unfoldable pub int_string : ℕ → Option (ℕ × Bytes) → Option (Bytes × Bytes)
int_string bits none = none
int_string bits (some (n, rest)) = some (of_ℤ (signed bits n), rest)

-- 0xC0, 0xC1 and 0xC2: an integer of 8, 16 or 32 bits, as text.
unfoldable pub special_string : ℕ → Bytes → Option (Bytes × Bytes)
special_string enc rest =
    if enc == 0
    then int_string 8 (of_taken (take_bytes 1 rest))
    else if enc == 1
    then int_string 16 (of_taken (take_bytes 2 rest))
    else if enc == 2
    then int_string 32 (of_taken (take_bytes 4 rest))
    else none

unfoldable pub raw_string : Option (ℕ × Bytes) → Option (Bytes × Bytes)
raw_string none = none
raw_string (some (len, rest)) = take_bytes len rest

unfoldable pub read_string : Bytes → Option (Bytes × Bytes)
read_string [] = none
read_string (first ∷ rest) =
    if first / 64 % 4 == 3
    then special_string (first % 64) rest
    else raw_string (read_length (first ∷ rest))

unfoldable pub write_le64 : ℕ → Bytes
write_le64 val = le_bytes 8 val

unfoldable pub read_le64 : Bytes → Option (ℕ × Bytes)
read_le64 bytes = of_taken (take_bytes 8 bytes)

unfoldable pub write_le32 : ℕ → Bytes
write_le32 val = le_bytes 4 val

unfoldable pub read_le32 : Bytes → Option (ℕ × Bytes)
read_le32 bytes = of_taken (take_bytes 4 bytes)
