-- ===== src/Rdb/Save.antt =====
-- `rdb::serialize` (src/rdb.cpp). The clocks' readings are arguments; the entries come in the
-- iteration order of the store.
use redis_lite.Common.{
  ℕ, suc, ◌/◌, ◌%◌, ◌^◌, List, [], ◌∷◌, ◌++◌, Option, none, some, Bytes, codes, length,
  if◌then◌else◌,
}
use redis_lite.Common.Int.{ℤ, pos, negsuc, sub_ℕ}
use redis_lite.Common.Word.{add_i64, sub_i64, to_u64}
use redis_lite.Store.{Entry, Store, is_expired}
use redis_lite.Rdb.Crc.{crc64}
use redis_lite.Rdb.Codec.{write_length, write_string, write_le64, write_le32}

-- `system_clock` in seconds for the header, then `steady_clock` in nanoseconds and `system_clock`
-- in milliseconds.
pub record Clocks : Type 0 where
  pub now_sec : ℤ
  pub steady_now : ℤ
  pub sys_now_ms : ℤ

abbrev pub opcode_aux : ℕ
opcode_aux = 0xFA

abbrev pub opcode_selectdb : ℕ
opcode_selectdb = 0xFE

abbrev pub opcode_resizedb : ℕ
opcode_resizedb = 0xFB

abbrev pub opcode_expiretime_ms : ℕ
opcode_expiretime_ms = 0xFC

abbrev pub opcode_expiretime : ℕ
opcode_expiretime = 0xFD

abbrev pub opcode_eof : ℕ
opcode_eof = 0xFF

abbrev pub type_string : ℕ
type_string = 0x00

-- `"REDIS0011"`
abbrev pub magic : Bytes
magic = codes "REDIS0011"

-- `duration_cast<milliseconds>` of nanoseconds: rounds towards zero.
unfoldable pub to_ms : ℤ → ℤ
to_ms (pos n) = pos (n / 1_000_000)
to_ms (negsuc n) = sub_ℕ 0 (suc n / 1_000_000)

-- The aux fields, in the order of the source.
unfoldable pub aux_ver : Bytes
aux_ver = opcode_aux ∷ (write_string (codes "redis-ver") ++ write_string (codes "7.2.0"))

unfoldable pub aux_bits : Bytes
aux_bits = opcode_aux ∷ (write_string (codes "redis-bits") ++ (0xC0 ∷ 0x40 ∷ []))

unfoldable pub aux_mem : Bytes
aux_mem = opcode_aux ∷ (write_string (codes "used-mem") ++ 0xC2 ∷ write_le32 0)

unfoldable pub aux_base : Bytes
aux_base = opcode_aux ∷ (write_string (codes "aof-base") ++ (0xC0 ∷ 0x00 ∷ []))

unfoldable pub aux_ctime : ℤ → Bytes
aux_ctime now_sec =
    opcode_aux ∷ (write_string (codes "ctime") ++ 0xC2 ∷ write_le32 (to_u64 now_sec % 2 ^ 32))

-- The entries that have not expired.
unfoldable pub live : ℤ → List (Bytes × Entry) → List (Bytes × Entry)
live now [] = []
live now ((key, e) ∷ es) =
    let rest = live now es in if is_expired now e then rest else (key, e) ∷ rest

unfoldable pub expires_size : List (Bytes × Entry) → ℕ
expires_size [] = 0
expires_size ((key, e) ∷ es) =
    let rest = expires_size es in elim (e.expiry) [ none ↦ rest | some t ↦ suc rest ]

-- The absolute time in milliseconds at which an entry expires.
unfoldable pub abs_ms : Clocks → ℤ → ℤ
abs_ms c expiry = add_i64 c.sys_now_ms (to_ms (sub_i64 expiry c.steady_now))

unfoldable pub write_expiry : Clocks → Option ℤ → Bytes
write_expiry c none = []
write_expiry c (some t) = opcode_expiretime_ms ∷ write_le64 (to_u64 (abs_ms c t))

unfoldable pub write_entry : Clocks → Bytes × Entry → Bytes
write_entry c (key, e) =
    write_expiry c e.expiry ++ type_string ∷ (write_string key ++ write_string e.value)

unfoldable pub write_entries : Clocks → List (Bytes × Entry) → Bytes
write_entries c [] = []
write_entries c (entry ∷ es) = write_entry c entry ++ write_entries c es

-- Everything but the checksum.
unfoldable pub body : Clocks → Store → Bytes
body c s =
    let es = live c.steady_now s.entries in
    magic
    ++ (aux_ver
        ++ (aux_bits
            ++ (aux_ctime c.now_sec
                ++ (aux_mem
                    ++ (aux_base
                        ++ (opcode_selectdb
                            ∷ (write_length 0
                                ++ (opcode_resizedb
                                    ∷ (write_length (length es)
                                        ++ (write_length (expires_size es)
                                            ++ (write_entries c es ++ opcode_eof ∷ [])))))))))))

unfoldable pub serialize : Clocks → Store → Bytes
serialize c s = body c s ++ write_le64 (crc64 (body c s))
