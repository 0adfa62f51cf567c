-- ===== src/Map/Laws.antt =====
-- The map laws: what a lookup finds behind each operation, and that keys stay unique.
use redis_lite.Common.{
  true, false, List, [], ◌∷◌, none, some, Bytes, str_eq, str_eq_iff, if◌then◌else◌, ◌≡◌, refl,
  arith, length, ◌+◌, Bool-cases, inl, inr, ap,
}
use redis_lite.Map.{find, has, replace, assign, erase, Lacks, IsMap}

pub str_eq_comm : (s t : Bytes) → str_eq s t ≡ str_eq t s
str_eq_comm s t = ground (arith, str_eq_iff s t, str_eq_iff t s)

-- Texts that equal the same text are told apart from others alike.
pub str_eq_cong : (s t k : Bytes) → str_eq s t ≡ true → str_eq s k ≡ str_eq t k
str_eq_cong s t k h = ap (λ r. str_eq r k) ((str_eq_iff s t).0 h)

module _ {ℓ} {V : Type ℓ} where
  find-replace :
      (j k : Bytes) (v : V) (m : List (Bytes × V))
      → find j (replace k v m)
        ≡ (if str_eq k j then if has k m then some v else find j m else find j m)
  unfolding find replace has
  find-replace j k v [] = ground arith
  find-replace j k v ((i, w) ∷ m) =
      ground (arith, find-replace j k v m, str_eq_iff i k, str_eq_iff i j, str_eq_iff k j)

  pub find-assign :
      (j k : Bytes) (v : V) (m : List (Bytes × V))
      → find j (assign k v m) ≡ (if str_eq k j then some v else find j m)
  unfolding find assign
  find-assign j k v m = ground (arith, find-replace j k v m)

  pub find-Lacks : (k : Bytes) (m : List (Bytes × V)) → Lacks k m → find k m ≡ none
  unfolding find
  find-Lacks k [] h = refl
  find-Lacks k ((j, v) ∷ m) h = rw (h.0) (find-Lacks k m h.1)

  pub find-erase :
      (j k : Bytes) (m : List (Bytes × V))
      → IsMap m
      → find j (erase k m).1 ≡ (if str_eq k j then none else find j m)
  unfolding find erase
  find-erase j k [] h = ground arith
  find-erase j k ((i, w) ∷ m) h = ground (
    arith,
    find-erase j k m h.1,
    str_eq_iff i k,
    str_eq_iff i j,
    str_eq_iff k j,
    find-Lacks i m h.0,
  )

  -- `erase` reports whether the key was there.
  pub erase-found :
      (k : Bytes) (m : List (Bytes × V)) → (erase k m).0 ≡ true → (v : V) × (find k m ≡ some v)
  unfolding find erase
  erase-found k [] h = cc
  erase-found k ((i, w) ∷ m) h = elim (Bool-cases (str_eq i k)) [
    | inl e ↦ (w, rw e)
    | inr e ↦ rw e (erase-found k m (rw e at h))
  ]

  pub erase-not_found : (k : Bytes) (m : List (Bytes × V)) → (erase k m).0 ≡ false → find k m ≡ none
  unfolding find erase
  erase-not_found k [] h = refl
  erase-not_found k ((i, w) ∷ m) h = ground (arith, erase-not_found k m)

  Lacks-replace : (i k : Bytes) (v : V) (m : List (Bytes × V)) → Lacks i m → Lacks i (replace k v m)
  unfolding replace
  Lacks-replace i k v [] h = h
  Lacks-replace i k v ((j, w) ∷ m) h = ground (arith, Lacks-replace i k v m h.1)

  IsMap-replace : (k : Bytes) (v : V) (m : List (Bytes × V)) → IsMap m → IsMap (replace k v m)
  unfolding replace
  IsMap-replace k v [] h = h
  IsMap-replace k v ((j, w) ∷ m) h =
      ground (arith, IsMap-replace k v m h.1, Lacks-replace j k v m h.0)

  Lacks-has : (k : Bytes) (m : List (Bytes × V)) → has k m ≡ false → Lacks k m
  unfolding has
  Lacks-has k [] h = tt
  Lacks-has k ((j, w) ∷ m) h = ground (arith, Lacks-has k m)

  pub assign-IsMap : (k : Bytes) (v : V) (m : List (Bytes × V)) → IsMap m → IsMap (assign k v m)
  unfolding assign
  assign-IsMap k v m h = ground (arith, IsMap-replace k v m h, Lacks-has k m)

  Lacks-erase : (i k : Bytes) (m : List (Bytes × V)) → Lacks i m → Lacks i (erase k m).1
  unfolding erase
  Lacks-erase i k [] h = h
  Lacks-erase i k ((j, w) ∷ m) h = ground (arith, Lacks-erase i k m h.1)

  pub erase-IsMap : (k : Bytes) (m : List (Bytes × V)) → IsMap m → IsMap (erase k m).1
  unfolding erase
  erase-IsMap k [] h = h
  erase-IsMap k ((j, w) ∷ m) h = ground (arith, erase-IsMap k m h.1, Lacks-erase j k m h.0)

  -- `erase` takes out one element if it reports one.
  pub length-erase :
      (k : Bytes) (m : List (Bytes × V))
      → length (erase k m).1 + (if (erase k m).0 then 1 else 0) ≡ length m
  unfolding erase
  length-erase k [] = omega arith
  length-erase k ((j, w) ∷ m) = ground (arith, length-erase k m)
