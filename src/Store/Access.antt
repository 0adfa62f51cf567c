-- ===== src/Store/Access.antt =====
-- What `get` answers behind `set` and `del`, and that keys stay unique.
use redis_lite.Common.{
  ℕ, ◌+◌, ◌*◌, ◌^◌, ◌<◌, Bool, true, false, List, Option, none, some, Bytes, str_eq, if◌then◌else◌,
  leb, ◌≡◌, ◌∙◌, arith, Bool-cases, inl, inr,
}
use redis_lite.Common.Int.{ℤ, pos}
use redis_lite.Common.Word.{add_i64-pos, mul_i64-pos}
use redis_lite.Map.{find, erase, IsMap}
use redis_lite.Map.Laws.{
  find-assign, find-erase, length-erase, erase-IsMap, erase-found, erase-not_found,
}
use redis_lite.Store.{Store, is_expired, expired_at, expiry_of, live_value, set, get, del, size}

abbrev pub is_some : {V : Type 0} → Option V → Bool
is_some none = false
is_some (some v) = true

abbrev pub IsValid : Store → Type 0
IsValid s = IsMap s.entries

-- Behind `set`, a lookup of the key set sees the new value until its expiry passes, and a lookup of
-- any other key what it saw before.
get-set :
    (start now : ℤ) (k j v : Bytes) (px : Option ℤ) (s : Store)
    → get now j (set start k v px s) ≡ (
        if str_eq k j
        then if expired_at now (expiry_of start px) then none else some v
        else get now j s)
unfolding get set is_expired
get-set start now k j v px s =
    ground (arith, find-assign j k (record { value = v; expiry = expiry_of start px }) s.entries)

expiry_of-pos :
    (start px : ℕ)
    → start + px * 1_000_000 < 2 ^ 63
    → expiry_of (pos start) (some (pos px)) ≡ some (pos (start + px * 1_000_000))
unfolding expiry_of
expiry_of-pos start px h =
    rw (mul_i64-pos px 1_000_000 (omega arith))
      (ground (arith, add_i64-pos start (px * 1_000_000) h))

-- `set` with a time to live of `px` milliseconds, at a time at which the expiry is representable:
-- the key has the value at every time before `start + px` and none from that time on; every other
-- key is answered as before.
pub get-set_ttl :
    (start px now : ℕ) (k j v : Bytes) (s : Store)
    → start + px * 1_000_000 < 2 ^ 63
    → get (pos now) j (set (pos start) k v (some (pos px)) s) ≡ (
        if str_eq k j
        then if leb (start + px * 1_000_000) now then none else some v
        else get (pos now) j s)
unfolding expired_at
get-set_ttl start px now k j v s h =
    get-set (pos start) (pos now) k j v (some (pos px)) s
    ∙ rw (expiry_of-pos start px h) (ground arith)

-- `set` without a time to live: the key has the value at every time, whatever expiry it had, and
-- every other key is answered as before.
pub get-set_forever :
    (start now : ℤ) (k j v : Bytes) (s : Store)
    → get now j (set start k v none s) ≡ (if str_eq k j then some v else get now j s)
unfolding expiry_of expired_at
get-set_forever start now k j v s = get-set start now k j v none s

erase-is_some : {V : Type 0} (k : Bytes) (m : List (Bytes × V)) → (erase k m).0 ≡ is_some (find k m)
erase-is_some k m = elim (Bool-cases (erase k m).0) [
  | inl e ↦ let (v, h) = erase-found k m e in rw (e, h)
  | inr e ↦ rw (e, erase-not_found k m e)
]

-- In a store with unique keys, `del` removes the key, answers every other key as before, and
-- returns true exactly if the store had an entry of that key, expired or not.
pub get-del :
    (now : ℤ) (k j : Bytes) (s : Store)
    → IsValid s
    → (get now j (del k s).1 ≡ (if str_eq k j then none else get now j s))
      × ((del k s).0 ≡ is_some (find k s.entries))
unfolding get del
get-del now k j s valid =
    (unfold live_value in ground (arith, find-erase j k s.entries valid), erase-is_some k s.entries)

pub size-del : (k : Bytes) (s : Store) → size (del k s).1 + (if (del k s).0 then 1 else 0) ≡ size s
unfolding size del
size-del k s = length-erase k s.entries

pub del-IsValid : (k : Bytes) (s : Store) → IsValid s → IsValid (del k s).1
unfolding del
del-IsValid k s h = erase-IsMap k s.entries h
