-- ===== src/Rdb/Steps.antt =====
-- What the loop of `load` does on each part that `serialize` writes.
use redis_lite.Common.{
  ℕ, suc, ◌%◌, ◌^◌, ◌<◌, ◌≡◌, ◌∙◌, refl, ap, [], ◌∷◌, ◌++◌, append_assoc, Option, none, some, Bytes,
  codes, length, arith,
}
use redis_lite.Common.Int.{ℤ, pos, negsuc}
use redis_lite.Common.Word.{to_u64, to_i64, sub_i64, add_i64_back}
use redis_lite.Number.{of_ℤ}
use redis_lite.Store.{Store}
use redis_lite.Rdb.Codec.{
  of_le, write_length, write_string, write_le64, write_le32, read_string, of_taken, int_string,
  special_string, signed,
}
use redis_lite.Rdb.Save.{
  Clocks, aux_ver, aux_bits, aux_ctime, aux_mem, aux_base, to_ms, abs_ms, opcode_aux,
  opcode_selectdb, opcode_resizedb, opcode_expiretime_ms, type_string,
}
use redis_lite.Rdb.Load.{
  Step, skipped, skipped_length, go_on, skip_string, skip_length, expire_ms, store_entry,
  load_value, load_entry, step, load_loop,
}
use redis_lite.Rdb.Lengths.{
  take_bytes-append, taken-le_bytes, read_length-write_length, read_string-write_string,
  read_le64-write_le64,
}

read-int8 :
    (b : ℕ) (rest : Bytes)
    → read_string (0xC0 ∷ b ∷ rest) ≡ some (of_ℤ (signed 8 (of_le (b ∷ []))), rest)
unfolding read_string special_string
read-int8 b rest =
    ap (λ t. int_string 8 (of_taken t)) (take_bytes-append (b ∷ []) rest 1 refl)
    ∙ unfold int_string of_taken in refl

read-int32 :
    (n : ℕ) (rest : Bytes)
    → n < 2 ^ 32
    → read_string (0xC2 ∷ (write_le32 n ++ rest)) ≡ some (of_ℤ (signed 32 n), rest)
unfolding read_string special_string write_le32
read-int32 n rest h = ap (int_string 32) (taken-le_bytes 4 n rest h) ∙ unfold int_string in refl

to_u64-lt : (z : ℤ) → to_u64 z < 2 ^ 64
to_u64-lt (pos n) = omega arith
to_u64-lt (negsuc n) = omega arith

abs_ms_back : (c : Clocks) (t : ℤ) → to_i64 (to_u64 (abs_ms c t)) ≡ abs_ms c t
unfolding abs_ms
abs_ms_back c t = add_i64_back c.sys_now_ms (to_ms (sub_i64 t c.steady_now))

module _ (sys : ℤ) (clock : ℕ → ℤ) where
  pub loop-next :
      (f opcode : ℕ) (rest : Bytes) (p : Option ℤ) (s : Store) {rest' : Bytes} {p' : Option ℤ}
      {s' : Store}
      → step sys (clock (length rest)) opcode rest p s ≡ Step.next rest' p' s'
      → load_loop (suc f) sys clock (opcode ∷ rest) p s ≡ load_loop f sys clock rest' p' s'
  unfolding load_loop
  loop-next f opcode rest p s h = rw (h, load_loop)

  -- A field that is skipped, whatever it holds.
  pub loop-aux :
      (f : ℕ) (name value rest : Bytes) {text : Bytes} (p : Option ℤ) (s : Store)
      → length name < 2 ^ 32
      → read_string (value ++ rest) ≡ some (text, rest)
      → load_loop (suc f) sys clock (opcode_aux ∷ (write_string name ++ (value ++ rest))) p s
        ≡ load_loop f sys clock rest p s
  loop-aux f name value rest p s h e =
      loop-next f opcode_aux (write_string name ++ (value ++ rest)) p s (
        unfold step go_on skip_string skipped in
        rw (read_string-write_string name (value ++ rest) h, e))

  pub loop-aux_ver :
      (f : ℕ) (rest : Bytes) (p : Option ℤ) (s : Store)
      → load_loop (suc f) sys clock (aux_ver ++ rest) p s ≡ load_loop f sys clock rest p s
  unfolding aux_ver
  loop-aux_ver f rest p s =
      ap (λ b. load_loop (suc f) sys clock (opcode_aux ∷ b) p s)
        (append_assoc (write_string (codes "redis-ver")) (write_string (codes "7.2.0")) rest)
      ∙ loop-aux f (codes "redis-ver") (write_string (codes "7.2.0")) rest p s (omega arith)
          (read_string-write_string (codes "7.2.0") rest (omega arith))

  pub loop-aux_bits :
      (f : ℕ) (rest : Bytes) (p : Option ℤ) (s : Store)
      → load_loop (suc f) sys clock (aux_bits ++ rest) p s ≡ load_loop f sys clock rest p s
  unfolding aux_bits
  loop-aux_bits f rest p s =
      ap (λ b. load_loop (suc f) sys clock (opcode_aux ∷ b) p s)
        (append_assoc (write_string (codes "redis-bits")) (0xC0 ∷ 0x40 ∷ []) rest)
      ∙ loop-aux f (codes "redis-bits") (0xC0 ∷ 0x40 ∷ []) rest p s (omega arith)
          (read-int8 0x40 rest)

  pub loop-aux_ctime :
      (f : ℕ) (now_sec : ℤ) (rest : Bytes) (p : Option ℤ) (s : Store)
      → load_loop (suc f) sys clock (aux_ctime now_sec ++ rest) p s ≡ load_loop f sys clock rest p s
  unfolding aux_ctime
  loop-aux_ctime f now_sec rest p s =
      ap (λ b. load_loop (suc f) sys clock (opcode_aux ∷ b) p s)
        (append_assoc (write_string (codes "ctime")) (0xC2 ∷ write_le32 (to_u64 now_sec % 2 ^ 32))
          rest)
      ∙ loop-aux f (codes "ctime") (0xC2 ∷ write_le32 (to_u64 now_sec % 2 ^ 32)) rest p s
          (omega arith) (read-int32 (to_u64 now_sec % 2 ^ 32) rest (omega arith))

  pub loop-aux_mem :
      (f : ℕ) (rest : Bytes) (p : Option ℤ) (s : Store)
      → load_loop (suc f) sys clock (aux_mem ++ rest) p s ≡ load_loop f sys clock rest p s
  unfolding aux_mem
  loop-aux_mem f rest p s =
      ap (λ b. load_loop (suc f) sys clock (opcode_aux ∷ b) p s)
        (append_assoc (write_string (codes "used-mem")) (0xC2 ∷ write_le32 0) rest)
      ∙ loop-aux f (codes "used-mem") (0xC2 ∷ write_le32 0) rest p s (omega arith)
          (read-int32 0 rest (omega arith))

  pub loop-aux_base :
      (f : ℕ) (rest : Bytes) (p : Option ℤ) (s : Store)
      → load_loop (suc f) sys clock (aux_base ++ rest) p s ≡ load_loop f sys clock rest p s
  unfolding aux_base
  loop-aux_base f rest p s =
      ap (λ b. load_loop (suc f) sys clock (opcode_aux ∷ b) p s)
        (append_assoc (write_string (codes "aof-base")) (0xC0 ∷ 0x00 ∷ []) rest)
      ∙ loop-aux f (codes "aof-base") (0xC0 ∷ 0x00 ∷ []) rest p s (omega arith)
          (read-int8 0x00 rest)

  pub loop-selectdb :
      (f n : ℕ) (rest : Bytes) (p : Option ℤ) (s : Store)
      → n < 2 ^ 32
      → load_loop (suc f) sys clock (opcode_selectdb ∷ (write_length n ++ rest)) p s
        ≡ load_loop f sys clock rest p s
  loop-selectdb f n rest p s h =
      loop-next f opcode_selectdb (write_length n ++ rest) p s
        (unfold step go_on skip_length skipped_length in rw (read_length-write_length n rest h))

  pub loop-resizedb :
      (f m n : ℕ) (rest : Bytes) (p : Option ℤ) (s : Store)
      → m < 2 ^ 32
      → n < 2 ^ 32
      → load_loop
          (suc f)
          sys
          clock
          (opcode_resizedb ∷ (write_length m ++ (write_length n ++ rest)))
          p
          s
        ≡ load_loop f sys clock rest p s
  loop-resizedb f m n rest p s h k =
      loop-next f opcode_resizedb (write_length m ++ (write_length n ++ rest)) p s (
        unfold step go_on skip_length skipped_length in
        rw (
          read_length-write_length m (write_length n ++ rest) h,
          read_length-write_length n rest k,
        ))

  -- A time that went through `uint64_t` and back.
  pub loop-expiretime :
      (f : ℕ) (c : Clocks) (t : ℤ) (rest : Bytes) (p : Option ℤ) (s : Store)
      → load_loop
          (suc f)
          sys
          clock
          (opcode_expiretime_ms ∷ (write_le64 (to_u64 (abs_ms c t)) ++ rest))
          p
          s
        ≡ load_loop f sys clock rest (some (abs_ms c t)) s
  loop-expiretime f c t rest p s =
      loop-next f opcode_expiretime_ms (write_le64 (to_u64 (abs_ms c t)) ++ rest) p s (
        unfold step expire_ms in
        rw (read_le64-write_le64 (to_u64 (abs_ms c t)) rest (to_u64-lt (abs_ms c t)))
          (ap (λ z. Step.next rest (some z) s) (abs_ms_back c t)))

  pub loop-string :
      (f : ℕ) (key val rest : Bytes) (p : Option ℤ) (s : Store)
      → length key < 2 ^ 32
      → length val < 2 ^ 32
      → load_loop
          (suc f)
          sys
          clock
          (type_string ∷ (write_string key ++ (write_string val ++ rest)))
          p
          s
        ≡ load_loop f sys clock rest none (
            store_entry sys
              (clock (length (write_string key ++ (write_string val ++ rest))))
              key
              val
              p
              s)
  loop-string f key val rest p s h k =
      loop-next f type_string (write_string key ++ (write_string val ++ rest)) p s (
        unfold step load_entry load_value in
        rw (
          read_string-write_string key (write_string val ++ rest) h,
          read_string-write_string val rest k,
        ))
