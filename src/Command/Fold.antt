-- ===== src/Command/Fold.antt =====
-- Folding the case of a command's name.
use redis_lite.Common.{
  ℕ, ◌≡◌, refl, Bool, true, false, ◌||◌, [], ◌∷◌, Bytes, codes, str_eq, str_eq_iff, Bool-cases, inl,
  inr, ap₂, arith,
}
use redis_lite.Command.Names.{upper, to_upper, is_write_command, Kind, kind_of}

upper_idem : (c : ℕ) → upper (upper c) ≡ upper c
unfolding upper
upper_idem c = ground arith

pub to_upper_idem : (s : Bytes) → to_upper (to_upper s) ≡ to_upper s
unfolding to_upper
to_upper_idem [] = refl
to_upper_idem (c ∷ s) = ap₂ ◌∷◌ (upper_idem c) (to_upper_idem s)

abbrev pub is_write_kind : Kind → Bool
is_write_kind Kind.set = true
is_write_kind Kind.del = true
is_write_kind _ = false

write_or_other :
    (cmd : Bytes)
    → (str_eq cmd (codes "SET") || str_eq cmd (codes "DEL")) ≡ is_write_kind (kind_of cmd)
write_or_other cmd = elim (Bool-cases (str_eq cmd (codes "SET"))) [
  | inl set ↦ rw ((str_eq_iff cmd (codes "SET")).0 set) (unfold kind_of str_eq in refl)
  | inr not_set ↦ elim (Bool-cases (str_eq cmd (codes "DEL"))) [
    | inl del ↦ rw ((str_eq_iff cmd (codes "DEL")).0 del) (unfold kind_of str_eq in refl)
    | inr not_del ↦ unfold kind_of in ground arith
  ]
]

-- `is_write_command` and the dispatch agree on every name: the commands that it lets through on a
-- replica are those whose branch is neither that of SET nor that of DEL.
pub is_write_command_lem :
    (name : Bytes) → is_write_command (to_upper name) ≡ is_write_kind (kind_of (to_upper name))
unfolding is_write_command
is_write_command_lem name = rw to_upper_idem (write_or_other (to_upper name))
