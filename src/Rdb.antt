-- ===== src/Rdb.antt =====
-- `rdb.hpp` and `rdb.cpp`: the snapshot that a master sends to a replica.
pub mod Crc
pub mod Codec
pub mod Save
pub mod Load
pub mod Rounds
pub mod Lengths
pub mod Steps
pub mod RoundTrip
pub mod Restore
pub mod Lookup
