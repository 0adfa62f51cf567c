-- ===== src/Pipeline.antt =====
-- The pipelining loop of `Server::handle_read` (src/server.cpp): every complete command of a
-- connection's read buffer is handled in order, and the rest waits for more bytes. What is done
-- with a command is the parameter `handle`.
pub mod Chunks
pub mod Prefix
use redis_lite.Common.{
  ℕ, zero, suc, ◌+◌, List, [], ◌∷◌, ◌++◌, Bytes, length, drop, ◌==◌, if◌then◌else◌,
}
use redis_lite.Resp.{ParseResult, parse}

module _ {ℓ} {S : Type ℓ} (handle : S → ParseResult → S) where
  -- `while (true) { parse; if (bytes_consumed == 0) break; …; read_buf.erase(0, bytes_consumed); }`
  unfoldable pub pump : ℕ → S → Bytes → S × Bytes
  pump zero s read_buf = (s, read_buf)
  pump (suc fuel) s read_buf =
      let result = parse read_buf in
      let rest = pump fuel (handle s result) (drop result.bytes_consumed read_buf) in
      if result.bytes_consumed == 0 then (s, read_buf) else rest

  -- Every round takes at least one byte, so a round for each byte and one more are enough.
  unfoldable pub process : S → Bytes → S × Bytes
  unfolding pump
  process s read_buf = pump (suc (length read_buf)) s read_buf

  -- `read_buf.append(buf, n)` and the loop, for one `recv`.
  unfoldable pub receive : S × Bytes → Bytes → S × Bytes
  unfolding process
  receive (s, read_buf) chunk = process s (read_buf ++ chunk)

  unfoldable pub receive_all : S × Bytes → List Bytes → S × Bytes
  unfolding receive
  receive_all c [] = c
  receive_all c (chunk ∷ chunks) = receive_all (receive c chunk) chunks
