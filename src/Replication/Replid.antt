-- ===== src/Replication/Replid.antt =====
-- The identifiers that `generate_replid` (src/replication_info.hpp) makes.
use redis_lite.Common.{
  ℕ, zero, suc, ◌≤◌, ◌<◌, ◌≡◌, ◌⊎◌, inl, inr, refl, ap, false, [], ◌∷◌, Bytes, codes, length, All,
  arith, str_eq, str_eq_iff, Bool-cases, get_elem?,
}
use redis_lite.Replication.{hex, or_terminator, hex_digit, draw, generate_replid}

-- `0` to `9` or `a` to `f`.
abbrev pub IsHex : ℕ → Type 0
IsHex c = ((b'0' ≤ c) × (c ≤ b'9')) ⊎ ((b'a' ≤ c) × (c ≤ b'f'))

-- What `std::uniform_int_distribution<int>(0, 15)` draws.
abbrev pub IsDraw : (ℕ → ℕ) → Type 0
IsDraw dist = (n : ℕ) → dist n < 16

element :
    (P : ℕ → Type 0) (cs : Bytes) (i : ℕ)
    → i < length cs
    → All P cs
    → P (or_terminator (get_elem? cs i))
element P [] i h all = absurd (omega arith)
element P (c ∷ cs) zero h all = all.0
element P (c ∷ cs) (suc i) h all = element P cs i (omega arith) all.1

hex-IsHex : All IsHex hex
hex-IsHex = omega arith

hex_digit-IsHex : (d : ℕ) → d < 16 → IsHex (hex_digit d)
unfolding hex_digit
hex_digit-IsHex d h = element IsHex hex d (omega arith) hex-IsHex

draw-IsHex : (dist : ℕ → ℕ) (n : ℕ) (id : Bytes) → IsDraw dist → All IsHex (draw dist n id)
unfolding draw
draw-IsHex dist n [] h = tt
draw-IsHex dist n (c ∷ id) h = (hex_digit-IsHex (dist n) (h n), draw-IsHex dist (suc n) id h)

length-draw : (dist : ℕ → ℕ) (n : ℕ) (id : Bytes) → length (draw dist n id) ≡ length id
unfolding draw
length-draw dist n [] = refl
length-draw dist n (c ∷ id) = ap suc (length-draw dist (suc n) id)

str_eq-short : (id : Bytes) → length id ≡ 40 → str_eq id (codes "?") ≡ false
str_eq-short id size = elim (Bool-cases (str_eq id (codes "?"))) [
  | inl same ↦
      absurd
        (omega (arith, size, ap (λ (t : Bytes). length t) ((str_eq_iff id (codes "?")).0 same)))
  | inr other ↦ other
]

-- Whatever the 40 draws from 0 to 15 are: the identifier has 40 characters, all of them lowercase
-- hexadecimal digits, and it is not the `?` by which a replica asks for a full resync.
pub generate_replid-IsHex :
    (dist : ℕ → ℕ)
    → IsDraw dist
    → (length (generate_replid dist) ≡ 40)
      × All IsHex (generate_replid dist)
      × (str_eq (generate_replid dist) (codes "?") ≡ false)
unfolding generate_replid
generate_replid-IsHex dist h =
    let size = length-draw dist 0 _ in (size, draw-IsHex dist 0 _ h, str_eq-short _ size)
