-- ===== src/Wire/Stress.antt =====
-- The test client (STRESS/NetworkModule.cpp): how its `Worker_Thread` puts received bytes together
-- into packets. A packet goes through buffers of 255 bytes.
pub mod Reassembly
use simple_mmo.Prelude.{
  ℕ, zero, suc, ◌+◌, ◌-◌, List, ◌++◌, ◌==◌, ◌||◌, if◌then◌else◌, ltb, leb, take, drop, length,
}
use simple_mmo.Net.Framing.{read_header}

abbrev pub max_packet_size : ℕ
max_packet_size = 255

-- The fields of CLIENT that a receive uses.
pub record Client : Type 0 where
  pub packet_buf : List ℕ
  pub prev_packet_data : ℕ
  pub curr_packet_size : ℕ

-- What the loop ends in: its state, or a `memcpy` beyond a buffer, or the fuel ran out.
pub data Received (S : Type 0) : Type 0 where
  received : S → Client → Received S
  overrun : Received S
  out_of_fuel : Received S

-- `memcpy(packet_buf + pr_size, buf, io_size)`
abbrev pub keep_bytes : ℕ → ℕ → List ℕ → List ℕ → List ℕ
keep_bytes pr_size io_size buf packet_buf =
    take pr_size packet_buf ++ (take io_size buf ++ drop (pr_size + io_size) packet_buf)

-- The size of the packet that is being put together, read from its header where it begins.
unfoldable pub packet_size : List ℕ → Client → ℕ
packet_size buf c = if c.curr_packet_size == 0 then (read_header buf).size else c.curr_packet_size

module _ {S : Type 0} (handle : S → List ℕ → S) where
  -- The loop `while (io_size > 0)`. `buf` is the memory from the next byte received on, `c` has
  -- `pr_size` and `psize` as its numbers. Lengths are unsigned: a size below `pr_size` would make the
  -- second `memcpy` one of about 4 GB.
  unfoldable pub receive_loop : ℕ → S → ℕ → List ℕ → Client → Received S
  receive_loop zero s io_size buf c = out_of_fuel
  receive_loop (suc fuel) s io_size buf c =
      let pr_size = c.prev_packet_data in
      let psize = packet_size buf c in
      let packet = take pr_size c.packet_buf ++ take (psize - pr_size) buf in
      let after =
        receive_loop fuel (handle s packet) (io_size - (psize - pr_size))
          (drop (psize - pr_size) buf) (record c { prev_packet_data = 0; curr_packet_size = 0 }) in
      let kept = receive_loop fuel s 0 buf (record {
        packet_buf = keep_bytes pr_size io_size buf c.packet_buf;
        prev_packet_data = pr_size + io_size;
        curr_packet_size = psize;
      }) in
      if io_size == 0
      then received s c
      else (if leb psize (io_size + pr_size)
          then (if ltb psize pr_size || ltb max_packet_size psize then overrun else after)
          else (if ltb max_packet_size (pr_size + io_size) then overrun else kept))

  -- A completed receive of the bytes `chunk`; behind them the buffer still has `stale`.
  unfoldable pub receive : S → List ℕ → List ℕ → Client → Received S
  unfolding receive_loop
  receive s chunk stale c = receive_loop (suc (length chunk)) s (length chunk) (chunk ++ stale) c
