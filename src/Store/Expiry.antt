-- ===== src/Store/Expiry.antt =====
-- The sweep of expired keys.
use redis_lite.Common.{
  ℕ, zero, suc, if◌then◌else◌, false, ◌+◌, ◌≤◌, true, List, [], ◌∷◌, Option, none, some, Bytes,
  str_eq_iff, length, ◌≡◌, refl, arith,
}
use redis_lite.Common.Int.{ℤ, ◌≤ℤ◌}
use redis_lite.Map.{names_key, find, Lacks, IsMap}
use redis_lite.Map.Laws.{find-Lacks}
use redis_lite.Store.{
  Entry, Store, is_expired, expired_at, live_value, get, evict_from, evict_expired, evict_limit,
  size,
}
use redis_lite.Store.Access.{IsValid}

expiry_mono :
    (t now : ℤ) (x : Option ℤ) → t ≤ℤ now → expired_at t x ≡ true → expired_at now x ≡ true
unfolding expired_at
expiry_mono t now none h e = e
expiry_mono t now (some x) h e = ground arith

-- What has expired stays expired.
expired_mono : (t now : ℤ) (e : Entry) → t ≤ℤ now → is_expired t e ≡ true → is_expired now e ≡ true
unfolding is_expired expired_at
expired_mono t now e h x = expiry_mono t now e.expiry h x

Lacks-evict :
    (k : Bytes) (left n : ℕ) (clock : ℕ → ℤ) (es : List (Bytes × Entry))
    → Lacks k es
    → Lacks k (evict_from left n clock es).1
unfolding evict_from
Lacks-evict k zero n clock es h = h
Lacks-evict k (suc left) n clock [] h = h
Lacks-evict k (suc left) n clock ((j, e) ∷ es) h =
    ground (arith, Lacks-evict k left (n + 1) clock es h.1)

evict-IsMap :
    (left n : ℕ) (clock : ℕ → ℤ) (es : List (Bytes × Entry))
    → IsMap es
    → IsMap (evict_from left n clock es).1
unfolding evict_from
evict-IsMap zero n clock es h = h
evict-IsMap (suc left) n clock [] h = h
evict-IsMap (suc left) n clock ((j, e) ∷ es) h =
    ground (arith, evict-IsMap left (n + 1) clock es h.1, Lacks-evict j left (n + 1) clock es h.0)

live-evict :
    (k : Bytes) (now : ℤ) (left n : ℕ) (clock : ℕ → ℤ) (es : List (Bytes × Entry))
    → ((i : ℕ) → clock i ≤ℤ now)
    → IsMap es
    → live_value now (find k (evict_from left n clock es).1) ≡ live_value now (find k es)
unfolding evict_from find live_value
live-evict k now zero n clock es le h = refl
live-evict k now (suc left) n clock [] le h = refl
live-evict k now (suc left) n clock ((j, e) ∷ es) le h = ground (
  arith,
  live-evict k now left (n + 1) clock es le h.1,
  expired_mono (clock n) now e (le n),
  find-Lacks j es h.0,
  find-Lacks j _ (Lacks-evict j left (n + 1) clock es h.0),
  str_eq_iff j k,
)

-- The sweep is invisible to readers: in a store with unique keys, whatever the clock read during
-- it, a lookup of any key at a time not before those readings answers as it would have without the
-- sweep, and the keys stay unique.
pub get-evict_expired :
    (k : Bytes) (now : ℤ) (clock : ℕ → ℤ) (s : Store)
    → ((i : ℕ) → clock i ≤ℤ now)
    → IsValid s
    → (get now k (evict_expired clock s).1 ≡ get now k s) × IsValid (evict_expired clock s).1
unfolding get evict_expired
get-evict_expired k now clock s le h = (
  live-evict k now evict_limit 0 clock s.entries le h,
  evict-IsMap evict_limit 0 clock s.entries h,
)

evict_from_count :
    (left n : ℕ) (clock : ℕ → ℤ) (es : List (Bytes × Entry))
    → let (expired, rest) = evict_from left n clock es in
      (length expired + length rest ≡ length es) × (length expired ≤ left)
unfolding evict_from
evict_from_count zero n clock es = omega arith
evict_from_count (suc left) n clock [] = omega arith
evict_from_count (suc left) n clock ((j, e) ∷ es) =
    ground (arith, evict_from_count left (n + 1) clock es)

names-evict :
    (k : Bytes) (left n : ℕ) (clock : ℕ → ℤ) (es : List (Bytes × Entry))
    → Lacks k es
    → names_key (evict_from left n clock es).0 k ≡ false
unfolding evict_from
names-evict k zero n clock es h = refl
names-evict k (suc left) n clock [] h = refl
names-evict k (suc left) n clock ((j, e) ∷ es) h =
    ground (arith, names-evict k left (n + 1) clock es h.1)

evicted_gone :
    (k : Bytes) (left n : ℕ) (clock : ℕ → ℤ) (es : List (Bytes × Entry))
    → IsMap es
    → let (expired, rest) = evict_from left n clock es in
      find k rest ≡ (if names_key expired k then none else find k es)
unfolding evict_from find
evicted_gone k zero n clock es h = ground arith
evicted_gone k (suc left) n clock [] h = ground arith
evicted_gone k (suc left) n clock ((j, e) ∷ es) h = ground (
  arith,
  evicted_gone k left (n + 1) clock es h.1,
  Lacks-evict j left (n + 1) clock es h.0,
  find-Lacks j _ (Lacks-evict j left (n + 1) clock es h.0),
  find-Lacks j es h.0,
  names-evict j left (n + 1) clock es h.0,
  str_eq_iff j k,
)

-- The sweep of a store with unique keys returns at most 20 keys, as many as the store has lost; a
-- key returned has no entry any more, and every other key has the entry that it had.
pub evict_expired_exact :
    (k : Bytes) (clock : ℕ → ℤ) (s : Store)
    → IsValid s
    → let (expired, s') = evict_expired clock s in
      (length expired ≤ 20)
      × (length expired + size s' ≡ size s)
      × (find k s'.entries ≡ (if names_key expired k then none else find k s.entries))
unfolding evict_expired size
evict_expired_exact k clock s h =
    let (total, few) = evict_from_count evict_limit 0 clock s.entries in
    (few, total, evicted_gone k evict_limit 0 clock s.entries h)
