-- ===== src/Lib.antt =====
-- RedisLite: a model of the server and the theorems that make it correct.
--
-- RedisLite is a key-value server that speaks the Redis protocol, with master-replica replication.
-- A connection's bytes go into a read buffer; the server takes one command at a time off its front
-- (`resp::parse`), runs it (`command::execute`) on the store, and appends the answer to the write
-- buffer. A write is encoded again (`resp::encode_array`), fed to the replication backlog and sent
-- to the replicas. A replica that connects is sent a snapshot (`rdb::serialize`, `rdb::load`) or, if
-- the backlog still holds its offset, the bytes of the stream from there on.
--
--   Number, Map   what the code uses of the C++ standard library: `std::to_string`, `std::stoi`,
--                 `std::stoll`, and `std::unordered_map` as the list of its elements
--   Resp          src/resp_parser.hpp and src/resp_parser.cpp: `parse` and the encoders
--   Pipeline      the loop of `Server::handle_read` in src/server.cpp over the read buffer; what is
--                 done with a command is a parameter
--   Store         src/store.hpp and src/store.cpp
--   Replication   src/replication_info.hpp: the record, and `generate_replid` of the numbers drawn
--   Command       src/command.hpp and src/command.cpp: Names (case folding and dispatch), Branches
--                 (one function for each command), Execute (`command::execute`); Agree is about the
--                 same command at a master and at its replica
--   Backlog       src/replication_backlog.hpp: the circular buffer, its loops chunk by chunk; Stream
--                 is the abstract view, the last bytes of a stream with their offsets
--   Rdb           src/rdb.hpp and src/rdb.cpp: Crc, Codec (lengths, strings, little-endian numbers),
--                 Save (`rdb::serialize`), Load (`rdb::load`)
--   Server        src/server.hpp, src/client.hpp and src/server.cpp: State (the members, the heap of
--                 clients, the environment), Send (`try_send`, `remove_client`), Wait (`handle_wait`,
--                 `resolve_pending_waits`, `check_wait_timeouts`, `propagate_to_replicas`), Replicate
--                 (what a write and an eviction do, `handle_master_read`, `handle_replica_read`),
--                 Psync (`handle_psync`), Handshake (the dialogue of `connect_to_master`), Role
--                 (`handle_replicaof` and what it calls, the constructor), Loop (`handle_accept`,
--                 `handle_read`, `run`), Writer (`writer_loop` and the main thread at one queue). Safe says which
--                 references a server holds, and Removal, Handlers, Peers, Teardown, Changes, Commands
--                 and Progress follow them through every handler up to the loop; Stream, Writes,
--                 Batch, Intake, Mirror, Follow and Converge follow the bytes of a write from a client
--                 to a replica; the other modules are about the handler that their comment names
--   Config        src/config.hpp and src/config.cpp, and the metadata that src/main.cpp starts with
--   Program       `main` of src/main.cpp, from the command line to the loop
--   Common        shared names, Boolean tests, lists, integers and 64-bit words; Tests runs the model
--
-- A string is the list of its bytes. A pointer into a buffer is the list of the bytes from it on. A
-- method of a class takes the object and returns it. A clock's reading is an argument, or a function
-- where the code reads the clock several times; time points are nanoseconds. `int64_t` sums wrap
-- around in 64 bits. An exception is `none`; `std::optional` is Option.
--
-- The server's handlers take its state and return it. A `Client*` is the number of
-- clients that were made before that one, so a client is never taken for another whose memory it has;
-- a deleted client is `none`; a handler that uses one, or an iterator that is no longer valid, or
-- that ends in an exception that nothing catches, returns `none`. What `send`, the clocks, the random
-- numbers and the other end of a handshake answer is the record `Env`; each question has its number,
-- so answers may differ from question to question. The order in which
-- epoll reports events is the list that `run` takes. The threads meet only at the queues of the
-- replicas, under a lock: what the writer thread and the main thread do at one queue is a list of
-- moves in any order.
--
-- Fuel: `parse` recurs on the number of arguments announced and `scan_line` on the bytes; `pump`
-- takes one round for each byte of the read buffer and one more, and every round that goes on takes a
-- byte; `load` has one round for each byte, and each opcode takes one; the copying loops of the
-- backlog have one round for each byte, and each round copies at least one; `std::to_string` has
-- one digit for each round, on the number itself; `flush` and `drain` have one round for each byte
-- of the buffer, and a `send` that goes on takes at least one. The loops of a handshake recur on the
-- pieces received.
--
-- Not modelled: the creation of sockets, name resolution and the registration with epoll (answers of
-- the environment); the condition variable of the writer thread, which decides only when a round
-- starts; how random numbers are drawn; log output; the failover controller
-- (controller/), a program of its own; containers and monitoring.
pub mod Common
pub mod Number
pub mod Resp
pub mod Pipeline
pub mod Map
pub mod Store
pub mod Replication
pub mod Command
pub mod Backlog
pub mod Rdb
pub mod Server
pub mod Config
pub mod Program
mod Tests
