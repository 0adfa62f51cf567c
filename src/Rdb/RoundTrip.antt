-- ===== src/Rdb/RoundTrip.antt =====
-- What a replica has after loading what its master serialized.
use redis_lite.Common.{
  ℕ, zero, suc, ◌*◌, ◌^◌, ◌≤◌, ◌<◌, ◌≡◌, ◌∙◌, refl, ap, Bool, true, List, [], ◌∷◌, ◌++◌,
  append_assoc, Option, none, some, Bytes, length, All, arith,
}
use redis_lite.Common.Int.{ℤ}
use redis_lite.Common.Word.{to_u64}
use redis_lite.Store.{Entry, Store}
use redis_lite.Rdb.Codec.{write_string, write_le64}
use redis_lite.Rdb.Save.{
  Clocks, write_expiry, write_entry, write_entries, abs_ms, opcode_eof, type_string,
  opcode_expiretime_ms,
}
use redis_lite.Rdb.Load.{store_entry, step, load_loop}
use redis_lite.Rdb.Steps.{loop-expiretime, loop-string}

-- The strings that a length field of four bytes can announce.
abbrev pub Small : Bytes × Entry → Type 0
Small (key, e) = (length key < 2 ^ 32) × (length e.value < 2 ^ 32)

-- The absolute expiry of an entry, as it is sent.
abbrev pub sent_expiry : Clocks → Option ℤ → Option ℤ
sent_expiry c none = none
sent_expiry c (some t) = some (abs_ms c t)

-- The entries stored one by one, at the replica's clocks.
unfoldable pub reload : Clocks → ℤ → ℤ → List (Bytes × Entry) → Store → Store
reload c sys now [] s = s
reload c sys now ((key, e) ∷ es) s =
    reload c sys now es (store_entry sys now key e.value (sent_expiry c e.expiry) s)

plain_bytes :
    (c : Clocks) (key val rest : Bytes)
    → (write_expiry c none ++ type_string ∷ (write_string key ++ write_string val)) ++ rest
      ≡ type_string ∷ (write_string key ++ (write_string val ++ rest))
unfolding write_expiry
plain_bytes c key val rest =
    ap (λ b. type_string ∷ b) (append_assoc (write_string key) (write_string val) rest)

expiring_bytes :
    (c : Clocks) (t : ℤ) (key val rest : Bytes)
    → (write_expiry c (some t) ++ type_string ∷ (write_string key ++ write_string val)) ++ rest
      ≡ opcode_expiretime_ms
        ∷ (write_le64 (to_u64 (abs_ms c t))
            ++ type_string ∷ (write_string key ++ (write_string val ++ rest)))
unfolding write_expiry
expiring_bytes c t key val rest = simp append_assoc

module _ (c : Clocks) (sys now : ℤ) where
  abbrev loop : ℕ → Bytes → Option ℤ → Store → Bool × Store
  loop f = load_loop f sys (λ _. now)

  load_entry-write :
      (x : Option ℤ) (key val rest : Bytes) (f : ℕ) (s : Store)
      → length key < 2 ^ 32
      → length val < 2 ^ 32
      → (g : ℕ) × (f ≤ g)
        × (loop
              (suc (suc f))
              ((write_expiry c x ++ type_string ∷ (write_string key ++ write_string val)) ++ rest)
              none
              s
            ≡ loop g rest none (store_entry sys now key val (sent_expiry c x) s))
  load_entry-write none key val rest f s h k = (
    suc f,
    omega arith,
    ap (λ b. loop (suc (suc f)) b none s) (plain_bytes c key val rest)
        ∙ loop-string sys (λ _. now) (suc f) key val rest none s h k,
  )
  load_entry-write (some t) key val rest f s h k = (
    f,
    omega arith,
    ap (λ b. loop (suc (suc f)) b none s) (expiring_bytes c t key val rest)
        ∙ loop-expiretime sys (λ _. now) (suc f) c t
            (type_string ∷ (write_string key ++ (write_string val ++ rest))) none s
        ∙ loop-string sys (λ _. now) f key val rest (some (abs_ms c t)) s h k,
  )

  pub load_entries :
      (es : List (Bytes × Entry)) (tail : Bytes) (f : ℕ) (s : Store)
      → 2 * length es < f
      → All Small es
      → loop f (write_entries c es ++ opcode_eof ∷ tail) none s ≡ (true, reload c sys now es s)
  load_entries [] tail zero s h small = absurd (omega arith)
  load_entries [] tail (suc f) s h small = unfold write_entries load_loop step reload in refl
  load_entries (entry ∷ es) tail zero s h small = absurd (omega arith)
  load_entries (entry ∷ es) tail (suc zero) s h small = absurd (omega arith)
  load_entries ((key, e) ∷ es) tail (suc (suc f)) s h small =
      let rest = write_entries c es ++ opcode_eof ∷ tail in
      let (g, enough, read) = load_entry-write e.expiry key e.value rest f s small.0.0 small.0.1 in
      let joined : write_entries c ((key, e) ∷ es) ++ opcode_eof ∷ tail
          ≡ (write_expiry c e.expiry ++ type_string ∷ (write_string key ++ write_string e.value))
            ++ rest =
        unfold write_entries write_entry in
        append_assoc (write_entry c (key, e)) (write_entries c es) (opcode_eof ∷ tail) in
      ap (λ b. loop (suc (suc f)) b none s) joined
      ∙ read
      ∙ load_entries es tail g (store_entry sys now key e.value (sent_expiry c e.expiry) s)
          (omega (arith, enough)) small.1
      ∙ unfold reload in refl
