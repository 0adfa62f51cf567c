-- ===== src/Rdb/Lookup.antt =====
-- What each key holds on a replica that has loaded its master's snapshot.
use redis_lite.Common.{
  ◌^◌, ◌<◌, ◌≡◌, ◌∙◌, refl, ap, Bool, List, [], ◌∷◌, Option, none, some, Bytes, str_eq, str_eq_iff,
  length, All, if◌then◌else◌, arith,
}
use redis_lite.Common.Int.{ℤ, pos}
use redis_lite.Common.Word.{sub_i64, leb_ℤ}
use redis_lite.Map.{find, Lacks, IsMap}
use redis_lite.Map.Laws.{find-assign, find-Lacks}
use redis_lite.Store
use redis_lite.Store.{Entry, Store, expiry_of, is_expired}
use redis_lite.Store.Access.{IsValid}
use redis_lite.Rdb.Save.{Clocks, live, serialize}
use redis_lite.Rdb.Load.{store_entry, load}
use redis_lite.Rdb.RoundTrip.{Small, reload, sent_expiry}
use redis_lite.Rdb.Restore.{load-serialize}

-- What arrives of a value with the absolute expiry that was sent: its time to live is what is left
-- on the replica's wall clock.
abbrev pub arrived : ℤ → ℤ → Bytes → Option ℤ → Option Entry
arrived sys now val none = some (record { value = val; expiry = none })
arrived sys now val (some t) =
    let remaining = sub_i64 t sys in
    if leb_ℤ remaining (pos 0)
    then none
    else some (record { value = val; expiry = expiry_of now (some remaining) })

or_else : Option Entry → Option Entry → Option Entry
or_else none y = y
or_else (some e) y = some e

find-store_entry :
    (sys now : ℤ) (k key val : Bytes) (p : Option ℤ) (s : Store)
    → find k (store_entry sys now key val p s).entries ≡ (
        if str_eq key k
        then or_else (arrived sys now val p) (find k s.entries)
        else find k s.entries)
unfolding store_entry or_else Store.set
find-store_entry sys now k key val none s =
    unfold expiry_of in find-assign k key (record { value = val; expiry = none }) s.entries
find-store_entry sys now k key val (some t) s = ground (
  arith,
  find-assign k key (record { value = val; expiry = expiry_of now (some (sub_i64 t sys)) })
      s.entries,
)

module _ (c : Clocks) (sys now : ℤ) where
  -- What arrives of the entry that a key has.
  abbrev pub arrives : Option Entry → Option Entry
  arrives none = none
  arrives (some e) = arrived sys now e.value (sent_expiry c e.expiry)

  find-reload :
      (k : Bytes) (es : List (Bytes × Entry)) (s : Store)
      → IsMap es
      → find k (reload c sys now es s).entries ≡ or_else (arrives (find k es)) (find k s.entries)
  unfolding reload find or_else
  find-reload k [] s h = refl
  find-reload k ((key, e) ∷ es) s h = ground (
    arith,
    find-reload k es (store_entry sys now key e.value (sent_expiry c e.expiry) s) h.1,
    find-store_entry sys now k key e.value (sent_expiry c e.expiry) s,
    find-Lacks key es h.0,
    str_eq_iff key k,
  )

Lacks-live : (k : Bytes) (now : ℤ) (es : List (Bytes × Entry)) → Lacks k es → Lacks k (live now es)
unfolding live
Lacks-live k now [] h = tt
Lacks-live k now ((key, e) ∷ es) h = ground (arith, Lacks-live k now es h.1)

live-IsMap : (now : ℤ) (es : List (Bytes × Entry)) → IsMap es → IsMap (live now es)
unfolding live
live-IsMap now [] h = tt
live-IsMap now ((key, e) ∷ es) h = ground (arith, live-IsMap now es h.1, Lacks-live key now es h.0)

-- The entry of a key, if it has one that has not expired.
abbrev pub unexpired : ℤ → Option Entry → Option Entry
unexpired now none = none
unexpired now (some e) = if is_expired now e then none else some e

find-live :
    (k : Bytes) (now : ℤ) (es : List (Bytes × Entry))
    → IsMap es
    → find k (live now es) ≡ unexpired now (find k es)
unfolding live find
find-live k now [] h = refl
find-live k now ((key, e) ∷ es) h = ground (
  arith,
  find-live k now es h.1,
  find-Lacks key es h.0,
  find-Lacks key (live now es) (Lacks-live key now es h.0),
  str_eq_iff key k,
)

nothing_else :
    (x : Option Entry) (k : Bytes) (s : Store) → or_else x (find k (Store.clear s).entries) ≡ x
unfolding or_else find Store.clear
nothing_else none k s = refl
nothing_else (some e) k s = refl

-- After a full resync the replica agrees with its master key by key. For a master's store with
-- unique keys, fewer than 2 ^ 32 entries and no string of 2 ^ 32 bytes or more, and a replica whose
-- steady clock reads `now` and whose wall clock reads `sys`: every key has the master's value if the
-- master's entry had not expired, with no expiry if it had none and otherwise with what is left until
-- its absolute expiry; no other key is there, whatever the replica held before.
pub find-load-serialize :
    (c : Clocks) (sys now : ℤ) (s old : Store) (k : Bytes)
    → IsValid s
    → length s.entries < 2 ^ 32
    → All Small s.entries
    → find k (load sys (λ _. now) (serialize c s) old).1.entries
      ≡ arrives c sys now (unexpired c.steady_now (find k s.entries))
find-load-serialize c sys now s old k valid few small =
    let es = live c.steady_now s.entries in
    ap (λ (r : Bool × Store). find k r.1.entries) (load-serialize c sys now s old few small)
    ∙ find-reload c sys now k es (Store.clear old) (live-IsMap c.steady_now s.entries valid)
    ∙ nothing_else (arrives c sys now (find k es)) k old
    ∙ ap (arrives c sys now) (find-live k c.steady_now s.entries valid)
