-- ===== src/Tests/Keys.antt =====
-- The store.
use redis_lite.Common.{
  ◌+◌, ◌*◌, ◌≤◌, ◌≡◌, refl, List, [], ◌∷◌, Bytes, codes, length, arith, none, some, str_eq, leb,
  if◌then◌else◌,
}
use redis_lite.Common.Int.{pos, negsuc}
use redis_lite.Common.Word.{add_i64, mul_i64}
use redis_lite.Map.{find, names_key}
use redis_lite.Store.{Store, set, get, del, size, expiry_of, is_expired, evict_expired}
use redis_lite.Store.Access.{IsValid, is_some, get-set_ttl, get-del}
use redis_lite.Store.Expiry.{get-evict_expired, evict_expired_exact}

-- `a` has expired at 50 ns, `b` expires at 9000 ns, `c` never.
abbrev three : Store
three = record {
  entries =
      (codes "a", record { value = codes "1"; expiry = some (pos 50) })
      ∷ (codes "b", record { value = codes "2"; expiry = some (pos 9000) })
      ∷ (codes "c", record { value = codes "3"; expiry = none })
      ∷ [];
}

three-IsValid : IsValid three
unfolding str_eq
three-IsValid = ((refl, (refl, tt)), ((refl, tt), (tt, tt)))

get-three :
    (get (pos 100) (codes "a") three ≡ none)
    × (get (pos 100) (codes "b") three ≡ some (codes "2"))
    × (get (pos 9000) (codes "b") three ≡ none)
unfolding get find str_eq is_expired
get-three = (refl, refl, refl)

-- A time to live that overflows the clock's nanoseconds: `expiry` is in the past.
overflowing_ttl :
    expiry_of (pos 1000) (some (pos 9_300_000_000_000)) ≡ some (negsuc 9146744073709550615)
unfolding expiry_of add_i64 mul_i64
overflowing_ttl = refl

abbrev evicted_three : List Bytes × Store
evicted_three = evict_expired (λ i. pos (100 + i)) three

evict_three : evicted_three.0 ≡ codes "a" ∷ []
unfolding evict_expired is_expired
evict_three = refl

get-set_ttl_example :
    get (pos 5_000_000) (codes "a") (set (pos 1000) (codes "a") (codes "9") (some (pos 5)) three)
    ≡ (if str_eq (codes "a") (codes "a")
        then if leb (1000 + 5 * 1_000_000) 5_000_000 then none else some (codes "9")
        else get (pos 5_000_000) (codes "a") three)
get-set_ttl_example =
    get-set_ttl 1000 5 5_000_000 (codes "a") (codes "a") (codes "9") three (omega arith)

get-del_example :
    (get (pos 100) (codes "c") (del (codes "b") three).1
      ≡ (if str_eq (codes "b") (codes "c") then none else get (pos 100) (codes "c") three))
    × ((del (codes "b") three).0 ≡ is_some (find (codes "b") three.entries))
get-del_example = get-del (pos 100) (codes "b") (codes "c") three three-IsValid

get-evict_expired_example :
    (get (pos 200) (codes "b") (evict_expired (λ i. pos 100) three).1
      ≡ get (pos 200) (codes "b") three)
    × IsValid (evict_expired (λ i. pos 100) three).1
get-evict_expired_example =
    get-evict_expired (codes "b") (pos 200) (λ i. pos 100) three (λ i. omega arith) three-IsValid

evict_expired_exact_example :
    let (expired, s') = evict_expired (λ i. pos 100) three in
    (length expired ≤ 20)
    × (length expired + size s' ≡ size three)
    × (find (codes "a") s'.entries
        ≡ (if names_key expired (codes "a") then none else find (codes "a") three.entries))
evict_expired_exact_example = evict_expired_exact (codes "a") (λ i. pos 100) three three-IsValid
