-- ===== src/Net/Framing.antt =====
-- Session::ProcessData (Session.cpp): cutting the received bytes into packets. A packet begins with
-- a `PacketHeader`, two little-endian 16-bit words, its whole size and its type.
pub mod Frames
pub mod Stall
mod Tests
use simple_mmo.Prelude.{
  ℕ, zero, suc, ◌+◌, ◌-◌, ◌*◌, Option, none, some, List, [], ◌∷◌, ltb, if◌then◌else◌, drop, length,
  get_or, set,
}

pub record PacketHeader : Type 0 where
  pub size : ℕ
  pub type : ℕ

abbrev pub header_bytes : ℕ
header_bytes = 4

abbrev pub word_at : ℕ → List ℕ → ℕ
word_at i bytes = get_or bytes i 0 + 256 * get_or bytes (i + 1) 0

-- `*reinterpret_cast<PacketHeader*>(buffer)`.
unfoldable pub read_header : List ℕ → PacketHeader
read_header bytes = record { size = word_at 0 bytes; type = word_at 2 bytes }

-- A byte that a handler writes into the packet it was given: how far behind the header, and what.
abbrev pub Write : Type 0
Write = ℕ × ℕ

-- The memory after the writes into the packet that begins at `start`. A write behind the end of the
-- memory, which C++ leaves undefined, is dropped.
abbrev pub apply_writes : ℕ → List Write → List ℕ → List ℕ
apply_writes start [] memory = memory
apply_writes start ((i, b) ∷ ws) memory =
    apply_writes start ws (set memory (start + header_bytes + i) b)

-- The handler of a packet is given the memory from the packet's first byte on, and its size. It
-- gives its writes into that memory with the new state; none of the server's handlers writes into
-- the header.
module _ {S : Type 0} (handle : S → List ℕ → ℕ → S × List Write) where
  -- The loop of `ProcessData(buffer, len)` at `processLen = done`. `buffer` is the memory from
  -- `ReadPos()` to the end of the vector, and is given back as the handlers have left it; `none`
  -- means that the fuel ran out.
  unfoldable pub process_from : ℕ → S → List ℕ → ℕ → ℕ → Option (S × List ℕ × ℕ)
  process_from zero s buffer len done = none
  process_from (suc fuel) s buffer len done =
      let rest = drop done buffer in
      let size = (read_header rest).size in
      let handled = handle s rest size in
      let next =
        process_from fuel handled.0 (apply_writes done handled.1 buffer) len (done + size) in
      if ltb (len - done) header_bytes
      then some (s, buffer, done)
      else (if ltb (len - done) size then some (s, buffer, done) else next)

  unfoldable pub process_data : ℕ → S → List ℕ → ℕ → Option (S × List ℕ × ℕ)
  unfolding process_from
  process_data fuel s buffer len = process_from fuel s buffer len 0
