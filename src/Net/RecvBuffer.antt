-- ===== src/Net/RecvBuffer.antt =====
-- RecvBuffer.h and RecvBuffer.cpp. Bytes are numbers below 256 and are only moved. The positions
-- are C++ `int`s that are never negative; `-` stops at 0 where the source would go below, which the
-- invariant in the module Laws excludes.
pub mod Laws
mod Tests
use simple_mmo.Prelude.{
  ℕ, ◌+◌, ◌-◌, Bool, true, false, List, ◌++◌, ltb, ◌==◌, if◌then◌else◌, take, drop, replicate,
  length,
}

pub record RecvBuffer : Type 0 where
  pub buffer_size : ℕ
  pub read_pos : ℕ
  pub write_pos : ℕ
  pub buffer : List ℕ

unfoldable pub make : ℕ → RecvBuffer
make size = record { buffer_size = size; read_pos = 0; write_pos = 0; buffer = replicate size 0 }

abbrev pub data_size : RecvBuffer → ℕ
data_size b = b.write_pos - b.read_pos

abbrev pub free_size : RecvBuffer → ℕ
free_size b = b.buffer_size - b.write_pos

unfoldable pub on_read : ℕ → RecvBuffer → Bool × RecvBuffer
on_read n b =
    if ltb (data_size b) n then (false, b) else (true, record b { read_pos = b.read_pos + n })

unfoldable pub on_write : ℕ → RecvBuffer → Bool × RecvBuffer
on_write n b =
    if ltb (free_size b) n then (false, b) else (true, record b { write_pos = b.write_pos + n })

-- `memcpy(&_buffer[0], &_buffer[_readPos], n)`, as a copy of the bytes that stood there before.
abbrev pub copy_to_front : ℕ → RecvBuffer → List ℕ
copy_to_front n b = take n (drop b.read_pos b.buffer) ++ drop n b.buffer

-- The assignments run in the order of the source: `DataSize()` is read again after `_readPos = 0`.
unfoldable pub clean_check : RecvBuffer → RecvBuffer
clean_check b =
    if data_size b == 0
    then record b { read_pos = 0; write_pos = 0 }
    else (let copied = record b { buffer = copy_to_front (data_size b) b } in
        let rewound = record copied { read_pos = 0 } in
        record rewound { write_pos = data_size rewound })

-- The bytes that the kernel puts at `WritePos()` when a receive completes.
unfoldable pub deposit : List ℕ → RecvBuffer → RecvBuffer
deposit bytes b = record b {
  buffer = take b.write_pos b.buffer ++ (bytes ++ drop (b.write_pos + length bytes) b.buffer);
}

-- The bytes from `ReadPos()` on that `DataSize()` announces.
abbrev pub unread : RecvBuffer → List ℕ
unread b = take (data_size b) (drop b.read_pos b.buffer)
