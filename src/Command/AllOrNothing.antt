-- ===== src/Command/AllOrNothing.antt =====
-- The branches of SET (src/command.cpp), in `command::execute`.
use redis_lite.Common.{
  ◌≡◌, ◌≢◌, refl, Bool, true, false, List, [], ◌∷◌, Bytes, codes, str_eq, str_eq_iff, Bool-cases,
  Option-cases, inl, inr, arith, Option, none, some, if◌then◌else◌, ◌⊎◌,
}
use redis_lite.Common.Int.{ℤ, pos, ltb_ℤ}
use redis_lite.Common.Word.{add_i64, mul_i64}
use redis_lite.Number.{stoll}
use redis_lite.Map.{find}
use redis_lite.Map.Laws.{find-assign}
use redis_lite.Store
use redis_lite.Store.{Entry, Store, expiry_of}
use redis_lite.Replication.{ReplicationInfo}
use redis_lite.Command.Names.{to_upper, Kind, kind_of}
use redis_lite.Command.Branches.{
  Outcome, set, set_parsed, set_options, not_positive, ok, readonly, err_expire, err_integer,
  err_args,
}
use redis_lite.Command.Execute.{execute, rejected, run}

-- What the arguments behind the value say: the milliseconds asked for before them and behind them.
pub data Options : List Bytes → Option ℤ → Option ℤ → Type 0 where
  no_option : {px out : Option ℤ} → px ≡ out → Options [] px out
  last_alone : {opt : Bytes} {px out : Option ℤ} → px ≡ out → Options (opt ∷ []) px out
  in_millis :
      {opt value : Bytes} {rest : List Bytes} {px out : Option ℤ} (z : ℤ)
      → to_upper opt ≡ codes "PX"
      → stoll value ≡ some z
      → Options rest (some z) out
      → Options (opt ∷ value ∷ rest) px out
  in_seconds :
      {opt value : Bytes} {rest : List Bytes} {px out : Option ℤ} (z : ℤ)
      → to_upper opt ≡ codes "EX"
      → stoll value ≡ some z
      → Options rest (some (mul_i64 z (pos 1000))) out
      → Options (opt ∷ value ∷ rest) px out
  passed_over :
      {opt value : Bytes} {rest : List Bytes} {px out : Option ℤ}
      → to_upper opt ≢ codes "PX"
      → to_upper opt ≢ codes "EX"
      → Options (value ∷ rest) px out
      → Options (opt ∷ value ∷ rest) px out

not_equal : (a b : Bytes) → str_eq a b ≡ false → a ≢ b
not_equal a b h e = cc (h, (str_eq_iff a b).1 e)

set_options-Options :
    (options : List Bytes) (px out : Option ℤ)
    → set_options options px ≡ some out
    → Options options px out
unfolding set_options
set_options-Options [] px out h = Options.no_option (cc h)
set_options-Options (opt ∷ []) px out h = Options.last_alone (cc h)
set_options-Options (opt ∷ value ∷ rest) px out h =
    let upper = to_upper opt in
    elim (Bool-cases (str_eq upper (codes "PX"))) [
      | inl px_given ↦ elim (Option-cases (stoll value)) [
        | inl no_number ↦ absurd (cc (rw (px_given, no_number) at h))
        | inr (z, number) ↦
            Options.in_millis z ((str_eq_iff upper (codes "PX")).0 px_given) number
              (set_options-Options rest (some z) out (rw (px_given, number) at h))
      ]
      | inr not_px ↦ elim (Bool-cases (str_eq upper (codes "EX"))) [
        | inl ex_given ↦ elim (Option-cases (stoll value)) [
          | inl no_number ↦ absurd (cc (rw (not_px, ex_given, no_number) at h))
          | inr (z, number) ↦
              Options.in_seconds z ((str_eq_iff upper (codes "EX")).0 ex_given) number (
                set_options-Options rest (some (mul_i64 z (pos 1000))) out
                  (rw (not_px, ex_given, number) at h))
        ]
        | inr not_ex ↦
            Options.passed_over (not_equal upper (codes "PX") not_px)
              (not_equal upper (codes "EX") not_ex)
              (set_options-Options (value ∷ rest) px out (rw (not_px, not_ex) at h))
      ]
    ]

-- The time of expiry, in nanoseconds.
abbrev pub expires : ℤ → Option ℤ → Option ℤ
expires now none = none
expires now (some z) = some (add_i64 now (mul_i64 z (pos 1_000_000)))

abbrev pub IsPositive : Option ℤ → Type 0
IsPositive none = Unit
IsPositive (some z) = ltb_ℤ (pos 0) z ≡ true

-- The answer is `+OK`, the arguments are well formed, and the key has the value and the expiry asked
-- for; every other key has the entry that it had.
abbrev pub Written : ℤ → List Bytes → Store → Outcome → Type 0
Written now rest s out =
    (key value : Bytes) × (options : List Bytes) × (px : Option ℤ) × (rest ≡ key ∷ value ∷ options)
    × Options options none px
    × IsPositive px
    × (out.0 ≡ ok)
    × ((k : Bytes)
        → find k out.1.entries ≡ (
            if str_eq key k
            then some (record { value = value; expiry = expires now px })
            else find k s.entries))

-- The answer is another one, and the store is the same.
abbrev pub Untouched : Store → Outcome → Type 0
Untouched s out = (out.0 ≢ ok) × (out.1 ≡ s)

expiry_of-expires : (now : ℤ) (px : Option ℤ) → expiry_of now px ≡ expires now px
unfolding expiry_of
expiry_of-expires now none = refl
expiry_of-expires now (some z) = refl

positive : (px : Option ℤ) → not_positive px ≡ false → IsPositive px
unfolding not_positive
positive none h = tt
positive (some z) h = ground arith

set_parsed-All :
    (now : ℤ) (key value : Bytes) (options : List Bytes) (s : Store) (r : Option (Option ℤ))
    → set_options options none ≡ r
    → Written now (key ∷ value ∷ options) s (set_parsed now key value r s)
      ⊎ Untouched s (set_parsed now key value r s)
unfolding set_parsed ok err_integer err_expire Store.set
set_parsed-All now key value options s none e = inr (λ h. cc h, refl)
set_parsed-All now key value options s (some px) e = elim (Bool-cases (not_positive px)) [
  | inl bad ↦ rw bad (inr (λ h. cc h, refl))
  | inr good ↦ rw good (
      inl (
        key,
        value,
        options,
        px,
        refl,
        set_options-Options options none px e,
        positive px good,
        refl,
        λ k. rw find-assign (rw expiry_of-expires refl),
      ))
]

set-All :
    (now : ℤ) (rest : List Bytes) (s : Store)
    → Written now rest s (set now rest s) ⊎ Untouched s (set now rest s)
unfolding set ok err_args
set-All now [] s = inr (λ h. cc h, refl)
set-All now (key ∷ []) s = inr (λ h. cc h, refl)
set-All now (key ∷ value ∷ options) s =
    set_parsed-All now key value options s (set_options options none) refl

-- SET is all or nothing, with any arguments, from any sender and in any role. Either the answer is
-- `+OK`, a key and a value are given, whatever stands behind a PX or an EX that is read as an option
-- parses as a number, the last of these numbers is positive when taken as milliseconds, and the store
-- differs by the key alone, which has the value and expires after that time, or never if there is no
-- such number; or the answer is not `+OK`, and the store is as it was.
pub execute-set_writes :
    (now : ℤ) (name : Bytes) (rest : List Bytes) (s : Store) (r : ReplicationInfo)
    (from_master : Bool)
    → kind_of (to_upper name) ≡ Kind.set
    → Written now rest s (execute now (name ∷ rest) s r from_master)
      ⊎ Untouched s (execute now (name ∷ rest) s r from_master)
unfolding execute run readonly ok
execute-set_writes now name rest s r from_master h =
    rw h (elim (Bool-cases (rejected (to_upper name) r from_master)) [
      | inl no_write ↦ rw no_write (inr (λ e. cc e, refl))
      | inr write ↦ rw write (set-All now rest s)
    ])
