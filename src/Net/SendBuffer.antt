-- ===== src/Net/SendBuffer.antt =====
-- SendBuffer.h and SendBuffer.cpp: a buffer for one packet.
use simple_mmo.Prelude.{ℕ, List, ◌++◌, take, drop, replicate}

pub record SendBuffer : Type 0 where
  pub buffer : List ℕ
  pub write_pos : ℕ

unfoldable pub make : ℕ → SendBuffer
make size = record { buffer = replicate size 0; write_pos = 0 }

-- `memcpy(_buffer.data(), data, len)`. The callers give no more bytes than the buffer holds.
unfoldable pub copy_data : List ℕ → ℕ → SendBuffer → SendBuffer
copy_data bytes len b = record { buffer = take len bytes ++ drop len b.buffer; write_pos = len }

-- The bytes that `WSABUF` hands to the socket.
abbrev pub payload : SendBuffer → List ℕ
payload b = take b.write_pos b.buffer
