-- ===== src/Common/Text.antt =====
-- `std::string` as the list of its bytes, compared whole.
use Prim.Native.Nat.{ℕ}
use Prim.Native.Char.{code}
use Prim.Native.String.{String}
use mathlib.Core.Path.{◌≡◌, refl}
use mathlib.Core.Logic.{◌↔◌}
use mathlib.Core.Bool.{Bool, true, false, ◌&&◌}
use mathlib.Core.List.{List, [], ◌∷◌, ◌++◌}
use native.Mathlib.Omega.{arith}
use redis_lite.Common.Tests.{◌==◌}

abbrev pub Bytes : Type 0
Bytes = List ℕ

-- The code points of a literal: its bytes, as every literal of the program is ASCII.
abbrev pub codes : String → Bytes
codes String.[] = []
codes (String.◌∷◌ c s) = code c ∷ codes s

-- `operator==` of two strings.
unfoldable pub str_eq : Bytes → Bytes → Bool
str_eq [] [] = true
str_eq (a ∷ s) (b ∷ t) = a == b && str_eq s t
str_eq [] (b ∷ t) = false
str_eq (a ∷ s) [] = false

pub str_eq_iff : (s t : Bytes) → (str_eq s t ≡ true) ↔ (s ≡ t)
unfolding str_eq
str_eq_iff [] [] = (λ _. refl, λ _. refl)
str_eq_iff [] (b ∷ t) = ground arith
str_eq_iff (a ∷ s) [] = ground arith
str_eq_iff (a ∷ s) (b ∷ t) = ground (arith, str_eq_iff s t)

pub str_eq_refl : (s : Bytes) → str_eq s s ≡ true
str_eq_refl s = (str_eq_iff s s).1 refl

-- A predicate of every item.
abbrev pub All {ℓ κ} : {A : Type ℓ} → (A → Type κ) → List A → Type κ
All P [] = Unit
All P (x ∷ xs) = P x × All P xs

pub All-weaken {ℓ κ μ} :
    {A : Type ℓ} {P : A → Type κ} {Q : A → Type μ}
    → ((a : A) → P a → Q a)
    → (items : List A) → All P items
    → All Q items
All-weaken f [] h = tt
All-weaken f (a ∷ items) h = (f a h.0, All-weaken f items h.1)

pub All-append {ℓ κ} :
    {A : Type ℓ} (holds : A → Type κ) (front back : List A)
    → All holds front
    → All holds back
    → All holds (front ++ back)
All-append holds [] back f b = b
All-append holds (a ∷ front) back f b = (f.0, All-append holds front back f.1 b)

pub All-split {ℓ κ} :
    {A : Type ℓ} (holds : A → Type κ) (front back : List A)
    → All holds (front ++ back)
    → All holds front × All holds back
All-split holds [] back h = (tt, h)
All-split holds (a ∷ front) back h =
    let rest = All-split holds front back h.1 in ((h.0, rest.0), rest.1)
