-- ===== src/Net/Session/Receiving.antt =====
-- A completed receive (`Session::ProcessRecv`), from the bytes in the buffer to the next `WSARecv`.
use simple_mmo.Prelude.{
  ℕ, ◌+◌, ◌-◌, ◌≤◌, ◌<◌, ◌≡◌, ap, ◌∙◌, Bool, true, some, List, ◌++◌, arith, length, All, drop, take,
  ==_ne,
}
use simple_mmo.Net.RecvBuffer.{RecvBuffer, clean_check, on_read, on_write}
use simple_mmo.Net.Framing.{process_data}
use simple_mmo.Net.Framing.Frames.{
  IsFrame, IsPartial, StayInside, concat, deliver, written, process_data-frames,
}
use simple_mmo.Net.Session.{
  Session, Outcome, ok, Handler, run_handler, register_recv, finish_recv, process_recv, after_data,
  store,
}

-- The session and the buffer once the bytes have been counted in.
abbrev pub arrived : ℕ → Session → Session
arrived n s = record s { recv_buffer = record s.recv_buffer { write_pos = n } }

on_write-arrived :
    (n : ℕ) (b : RecvBuffer)
    → n ≤ b.buffer_size
    → b.write_pos ≡ 0
    → on_write n b ≡ (true, record b { write_pos = n })
unfolding on_write
on_write-arrived n b le w = ground arith

on_read-fits :
    (done n : ℕ) (b : RecvBuffer)
    → done ≤ n
    → b.read_pos ≡ 0
    → b.write_pos ≡ n
    → on_read done b ≡ (true, record b { read_pos = done })
unfolding on_read
on_read-fits done n b le r w = ground arith

module _ (handler : Handler) where
  process_recv-after_data :
      (fuel : ℕ) (fails : Bool) (n : ℕ) (s : Session)
      → 0 < n
      → n ≤ s.recv_buffer.buffer_size
      → s.recv_buffer.read_pos ≡ 0
      → s.recv_buffer.write_pos ≡ 0
      → process_recv handler fuel fails n s
        ≡ after_data handler fails
            (process_data (run_handler handler) fuel (ok (arrived n s)) s.recv_buffer.buffer n)
  unfolding process_recv
  process_recv-after_data fuel fails n s p le r w =
      rw (==_ne n 0 (omega arith), on_write-arrived n s.recv_buffer le w)
        (λ i. after_data handler fails (
          process_data (run_handler handler) fuel (ok (arrived n s))
            (drop (r i) s.recv_buffer.buffer) (whole i)))
    where
      whole : n - s.recv_buffer.read_pos ≡ n
      whole = omega arith

  finish_recv-fits :
      (fails : Bool) (done n : ℕ) (s : Session)
      → done ≤ n
      → s.recv_buffer.read_pos ≡ 0
      → s.recv_buffer.write_pos ≡ n
      → finish_recv handler fails done s
        ≡ register_recv fails
            (record s { recv_buffer = clean_check (record s.recv_buffer { read_pos = done }) })
  unfolding finish_recv
  finish_recv-fits fails done n s le r w = rw (on_read-fits done n s.recv_buffer le r w)

  -- The end of a receive in a session whose receive buffer the handlers have left alone.
  finish_recv-store :
      (fails : Bool) (done n : ℕ) (memory : List ℕ) (s t : Session)
      → done ≤ n
      → s.recv_buffer.read_pos ≡ 0
      → t.recv_buffer ≡ (arrived n s).recv_buffer
      → finish_recv handler fails done (store handler memory t)
        ≡ register_recv fails (record t {
          recv_buffer =
              clean_check
                (record s.recv_buffer { write_pos = n; read_pos = done; buffer = memory });
        })
  finish_recv-store fails done n memory s t le r q =
      finish_recv-fits fails done n (store handler memory t) le (ap (λ b. b.read_pos) q ∙ r)
        (ap (λ b. b.write_pos) q)
      ∙ ap
          (λ b. register_recv fails (record t {
            recv_buffer =
                clean_check
                  (record b { read_pos = done; buffer = take b.read_pos b.buffer ++ memory });
          }))
          q
      ∙ ap
          (λ k. register_recv fails (record t {
            recv_buffer = clean_check (record s.recv_buffer {
              write_pos = n;
              read_pos = done;
              buffer = take k s.recv_buffer.buffer ++ memory;
            });
          }))
          r

  -- When a receive into an empty buffer brings whole packets and the beginning of one more, and
  -- the packets' handlers, one after the other, end without a fault, leave the session's receive
  -- buffer alone and write nothing behind their packets, each of the packets is handled once, in
  -- order, and then the buffer, with what the handlers wrote into their packets, is compacted from
  -- the end of the last packet on and the next receive is started, if the session is still
  -- connected.
  pub process_recv-frames :
      (fs : List (List ℕ)) (rest tail : List ℕ) (fuel : ℕ) (fails : Bool) (s t : Session)
      → All IsFrame fs
      → IsPartial rest tail
      → length fs < fuel
      → let n = length (concat fs) + length rest in
        0 < n
        → n ≤ s.recv_buffer.buffer_size
        → s.recv_buffer.read_pos ≡ 0
        → s.recv_buffer.write_pos ≡ 0
        → s.recv_buffer.buffer ≡ concat fs ++ (rest ++ tail)
        → deliver (run_handler handler) (ok (arrived n s)) fs (rest ++ tail) ≡ ok t
        → t.recv_buffer ≡ (arrived n s).recv_buffer
        → StayInside (run_handler handler) (ok (arrived n s)) fs (rest ++ tail)
        → process_recv handler fuel fails n s
          ≡ register_recv fails (record t {
            recv_buffer = clean_check (record s.recv_buffer {
              write_pos = n;
              read_pos = length (concat fs);
              buffer =
                  written (run_handler handler) (ok (arrived n s)) fs (rest ++ tail)
                  ++ (rest ++ tail);
            });
          })
  process_recv-frames fs rest tail fuel fails s t ws p f pos le r w b d q i =
      let n : ℕ = length (concat fs) + length rest in
      let start : Outcome Session = ok (arrived n s) in
      let memory : List ℕ =
        written (run_handler handler) start fs (rest ++ tail) ++ (rest ++ tail) in
      process_recv-after_data fuel fails n s pos le r w
      ∙ ap (λ m. after_data handler fails (process_data (run_handler handler) fuel start m n)) b
      ∙ ap (after_data handler fails)
          (process_data-frames (run_handler handler) fs fuel start rest tail ws p i f)
      ∙ ap (λ m. after_data handler fails (some (m, memory, length (concat fs)))) d
      ∙ finish_recv-store fails (length (concat fs)) n memory s t (omega arith) r q
