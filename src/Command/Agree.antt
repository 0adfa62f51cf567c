-- ===== src/Command/Agree.antt =====
-- Two stores that agree still agree behind the same write, whenever each executes it: the master's
-- and the replica's `command::execute` (src/command.cpp).
use redis_lite.Common.{
  ℕ, ◌≡◌, refl, sym, ◌∙◌, Bool, true, false, List, [], ◌∷◌, Option, none, some, Bytes, str_eq,
  if◌then◌else◌, Bool-cases, inl, inr,
}
use redis_lite.Common.Int.{ℤ}
use redis_lite.Map.{find}
use redis_lite.Map.Laws.{find-assign, find-erase, assign-IsMap, erase-IsMap}
use redis_lite.Store
use redis_lite.Store.{Entry, Store, expiry_of}
use redis_lite.Store.Access.{is_some, IsValid}
use redis_lite.Replication.{ReplicationInfo}
use redis_lite.Command.Names.{to_upper, is_write_command, Kind, kind_of}
use redis_lite.Command.Branches
use redis_lite.Command.Branches.{set_parsed, set_options, not_positive, del_all}
use redis_lite.Command.Execute.{execute, rejected, run}
use redis_lite.Command.Fold.{is_write_kind, is_write_command_lem}
use redis_lite.Command.Writes.{execute_store}

-- An entry without the point in time at which it expires.
abbrev pub shape : Option Entry → Option (Bytes × Bool)
shape none = none
shape (some e) = some (e.value, is_some e.expiry)

-- The stores have the same keys, with the same values, and the same of them expire at some time.
abbrev pub Agree : Store → Store → Type 0
Agree s t = (k : Bytes) → shape (find k s.entries) ≡ shape (find k t.entries)

-- Both, with unique keys.
abbrev pub Alike : Store → Store → Type 0
Alike s t = IsValid s × IsValid t × Agree s t

pub Alike-sym : (s t : Store) → Alike s t → Alike t s
Alike-sym s t (v, w, agree) = (w, v, λ k. sym (agree k))

pub Alike-trans : (s t u : Store) → Alike s t → Alike t u → Alike s u
Alike-trans s t u (v, w, agree) (x, y, agree') = (v, y, λ k. agree k ∙ agree' k)

shape_of_branch :
    (b : Bool) (x y x' y' : Option Entry)
    → shape x ≡ shape x'
    → shape y ≡ shape y'
    → shape (if b then x else y) ≡ shape (if b then x' else y')
shape_of_branch true x y x' y' h k = h
shape_of_branch false x y x' y' h k = k

new_shape :
    (now now' : ℤ) (value : Bytes) (px : Option ℤ)
    → shape (some (record { value = value; expiry = expiry_of now px }))
      ≡ shape (some (record { value = value; expiry = expiry_of now' px }))
unfolding expiry_of
new_shape now now' value none = refl
new_shape now now' value (some px) = refl

set-Alike :
    (now now' : ℤ) (key value : Bytes) (px : Option ℤ) (s t : Store)
    → Alike s t
    → Alike (Store.set now key value px s) (Store.set now' key value px t)
unfolding Store.set
set-Alike now now' key value px s t (v, w, agree) = (
  assign-IsMap key _ s.entries v,
  assign-IsMap key _ t.entries w,
  λ k.
      rw (find-assign, find-assign)
        (shape_of_branch (str_eq key k) _ _ _ _ (new_shape now now' value px) (agree k)),
)

del-Alike : (key : Bytes) (s t : Store) → Alike s t → Alike (Store.del key s).1 (Store.del key t).1
unfolding Store.del
del-Alike key s t (v, w, agree) = (
  erase-IsMap key s.entries v,
  erase-IsMap key t.entries w,
  λ k.
      rw (find-erase k key s.entries v, find-erase k key t.entries w)
        (shape_of_branch (str_eq key k) none _ none _ refl (agree k)),
)

del_all-Alike :
    (names : List Bytes) (n m : ℕ) (s t : Store)
    → Alike s t
    → Alike (del_all names n s).1 (del_all names m t).1
unfolding del_all
del_all-Alike [] n m s t h = h
del_all-Alike (name ∷ names) n m s t h =
    del_all-Alike names _ _ (Store.del name s).1 (Store.del name t).1 (del-Alike name s t h)

set_parsed-Alike :
    (now now' : ℤ) (key value : Bytes) (px : Option (Option ℤ)) (s t : Store)
    → Alike s t
    → Alike (set_parsed now key value px s).1 (set_parsed now' key value px t).1
unfolding set_parsed
set_parsed-Alike now now' key value none s t h = h
set_parsed-Alike now now' key value (some px) s t h = elim (Bool-cases (not_positive px)) [
  | inl bad ↦ rw bad h
  | inr good ↦ rw good (set-Alike now now' key value px s t h)
]

run-Alike :
    (k : Kind) (now now' : ℤ) (name : Bytes) (rest : List Bytes) (s t : Store)
    (r r' : ReplicationInfo)
    → is_write_kind k ≡ true
    → Alike s t
    → Alike (run k now name rest s r).1 (run k now' name rest t r').1
unfolding run Branches.set Branches.del
run-Alike Kind.set now now' name [] s t r r' write h = h
run-Alike Kind.set now now' name (key ∷ []) s t r r' write h = h
run-Alike Kind.set now now' name (key ∷ value ∷ options) s t r r' write h =
    set_parsed-Alike now now' key value (set_options options none) s t h
run-Alike Kind.del now now' name [] s t r r' write h = h
run-Alike Kind.del now now' name (key ∷ names) s t r r' write h =
    del_all-Alike (key ∷ names) 0 0 s t h
run-Alike _ now now' name rest s t r r' write h = cc

rejected-from_master : (cmd : Bytes) (r : ReplicationInfo) → rejected cmd r true ≡ false
unfolding rejected
rejected-from_master cmd r = refl

-- A write of a client at a master, and the same write from the master's stream at a replica.
pub execute-Alike :
    (now now' : ℤ) (name : Bytes) (rest : List Bytes) (s t : Store) (r r' : ReplicationInfo)
    → is_write_command (to_upper name) ≡ true
    → rejected (to_upper name) r false ≡ false
    → Alike s t
    → Alike (execute now (name ∷ rest) s r false).1 (execute now' (name ∷ rest) t r' true).1
execute-Alike now now' name rest s t r r' write accepted h =
    rw
      (
        execute_store now name rest s r false,
        execute_store now' name rest t r' true,
        accepted,
        rejected-from_master (to_upper name) r',
      )
      (run-Alike (kind_of (to_upper name)) now now' name rest s t r r'
        (sym (is_write_command_lem name) ∙ write) h)
