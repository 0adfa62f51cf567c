-- ===== src/Store.antt =====
-- `store.hpp` and `store.cpp`: keys with values and optional expiry.
-- A `steady_clock` time point is its number of nanoseconds, an `int64_t`; the clock's readings are
-- arguments. `evict_expired` reads the clock once for each entry that it checks.
pub mod Access
pub mod Expiry
use redis_lite.Common.{
  ℕ, zero, suc, ◌+◌, Bool, true, false, List, [], ◌∷◌, Option, none, some, Bytes, length,
  if◌then◌else◌,
}
use redis_lite.Common.Int.{ℤ, pos}
use redis_lite.Common.Word.{add_i64, mul_i64, leb_ℤ}
use redis_lite.Map.{find, assign, erase}

pub record Entry : Type 0 where
  pub value : Bytes
  pub expiry : Option ℤ

expired_at : ℤ → Option ℤ → Bool
expired_at now none = false
expired_at now (some t) = leb_ℤ t now

-- `Entry::is_expired`, at a reading of the clock.
unfoldable pub is_expired : ℤ → Entry → Bool
unfolding expired_at
is_expired now e = expired_at now e.expiry

pub record Store : Type 0 where
  pub entries : List (Bytes × Entry)

-- `now + std::chrono::milliseconds(px)`, in nanoseconds.
unfoldable pub expiry_of : ℤ → Option ℤ → Option ℤ
unfolding add_i64 mul_i64
expiry_of now none = none
expiry_of now (some px) = some (add_i64 now (mul_i64 px (pos 1_000_000)))

unfoldable pub set : ℤ → Bytes → Bytes → Option ℤ → Store → Store
unfolding assign expiry_of
set now key value px_millis s = record {
  entries = assign key (record { value = value; expiry = expiry_of now px_millis }) s.entries;
}

live_value : ℤ → Option Entry → Option Bytes
unfolding is_expired
live_value now none = none
live_value now (some e) = if is_expired now e then none else some e.value

unfoldable pub get : ℤ → Bytes → Store → Option Bytes
unfolding find live_value
get now key s = live_value now (find key s.entries)

-- The loop of `evict_expired`, from the entry with the number `checked` on; `left` is `20 - checked`.
-- The result is the list of evicted keys and the entries that stay.
unfoldable pub evict_from :
    ℕ → ℕ → (ℕ → ℤ) → List (Bytes × Entry) → List Bytes × List (Bytes × Entry)
unfolding is_expired
evict_from zero checked clock es = ([], es)
evict_from (suc left) checked clock [] = ([], [])
evict_from (suc left) checked clock ((key, e) ∷ es) =
    let (expired, rest) = evict_from left (checked + 1) clock es in
    if is_expired (clock checked) e then (key ∷ expired, rest) else (expired, (key, e) ∷ rest)

abbrev pub evict_limit : ℕ
evict_limit = 20

-- `clock n` is the time at the check of the entry number `n`.
unfoldable pub evict_expired : (ℕ → ℤ) → Store → List Bytes × Store
unfolding evict_from
evict_expired clock s =
    let (expired, rest) = evict_from evict_limit 0 clock s.entries in
    (expired, record { entries = rest })

unfoldable pub del : Bytes → Store → Bool × Store
unfolding erase
del key s = let (found, rest) = erase key s.entries in (found, record { entries = rest })

unfoldable pub size : Store → ℕ
size s = length s.entries

unfoldable pub clear : Store → Store
clear s = record { entries = [] }
