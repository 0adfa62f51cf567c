-- ===== src/Map.antt =====
-- `std::unordered_map<std::string, V>` as the list of its elements in iteration order. Where a new
-- element comes in that order is not specified; here it is the front. The theorems hold for every
-- list with unique keys, so for every order.
pub mod Laws
use redis_lite.Common.{
  ℕ, ◌+◌, Bool, true, false, ◌||◌, List, [], ◌∷◌, Option, none, some, Bytes, str_eq, if◌then◌else◌,
  All, ◌≡◌,
}

module _ {ℓ} {V : Type ℓ} where
  -- `find(key)`
  unfoldable pub find : Bytes → List (Bytes × V) → Option V
  find k [] = none
  find k ((j, v) ∷ m) = if str_eq j k then some v else find k m

  has : Bytes → List (Bytes × V) → Bool
  has k [] = false
  has k ((j, v) ∷ m) = if str_eq j k then true else has k m

  replace : Bytes → V → List (Bytes × V) → List (Bytes × V)
  replace k v [] = []
  replace k v ((j, w) ∷ m) = if str_eq j k then (j, v) ∷ m else (j, w) ∷ replace k v m

  -- `m[key] = v`
  unfoldable pub assign : Bytes → V → List (Bytes × V) → List (Bytes × V)
  unfolding has replace
  assign k v m = if has k m then replace k v m else (k, v) ∷ m

  -- `erase(key)`: the number of elements removed, as `> 0`, and the map.
  unfoldable pub erase : Bytes → List (Bytes × V) → Bool × List (Bytes × V)
  erase k [] = (false, [])
  erase k ((j, v) ∷ m) =
      let (found, rest) = erase k m in if str_eq j k then (true, m) else (found, (j, v) ∷ rest)

  -- No element has the key.
  abbrev pub Lacks : Bytes → List (Bytes × V) → Type 0
  Lacks k [] = Unit
  Lacks k ((j, v) ∷ m) = (str_eq j k ≡ false) × Lacks k m

  -- The keys are unique.
  abbrev pub IsMap : List (Bytes × V) → Type 0
  IsMap [] = Unit
  IsMap ((j, v) ∷ m) = Lacks j m × IsMap m

-- The list of keys names the key.
abbrev pub names_key : List Bytes → Bytes → Bool
names_key [] j = false
names_key (k ∷ ks) j = str_eq k j || names_key ks j
