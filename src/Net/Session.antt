-- ===== src/Net/Session.antt =====
-- Session.h and Session.cpp: a client's connection. The handlers run to their end one at a time
-- here; on several threads they can interleave. What they start outside, in the socket, the room and the service, is written to a log in
-- the order of the calls. Whether a socket call fails at once is an argument.
pub mod Lifetime
pub mod Sent
pub mod Sending
pub mod Receiving
pub mod Threads
mod Tests
use simple_mmo.Prelude.{
  ℕ, ◌+◌, Bool, true, false, Option, none, some, List, [], ◌∷◌, ◌++◌, ◌==◌, if◌then◌else◌, drop,
  take,
}
use simple_mmo.Net.RecvBuffer.{RecvBuffer, data_size, free_size, on_read, on_write, clean_check}
use simple_mmo.Net.SendBuffer.{SendBuffer}
use simple_mmo.Net.SendBufferQueue
use simple_mmo.Net.Framing.{Write, process_data}

-- `_currPlayer`: the player object and the room that its weak pointer gives.
pub record CurrentPlayer : Type 0 where
  pub player_id : ℕ
  pub room : Option ℕ

pub data Effect : Type 0 where
  -- `WSARecv` with that much room, and `WSASend` of these buffers.
  start_recv : ℕ → Effect
  start_send : List SendBuffer → Effect
  -- `room->PushJob(&Room::PlayerLeaveRoom, _currPlayer)`
  leave_room : ℕ → ℕ → Effect
  add_session : ℕ → Effect
  release_session : ℕ → Effect

pub record Session : Type 0 where
  pub session_id : ℕ
  pub connected : Bool
  pub recv_buffer : RecvBuffer
  pub send_queue : List SendBuffer
  pub send_registered : Bool
  pub in_flight : List SendBuffer
  pub current_player : Option CurrentPlayer
  pub log : List Effect

-- A handler ends with a new state, reads through a null pointer, or does not end.
pub data Outcome {ℓ} (A : Type ℓ) : Type ℓ where
  ok : A → Outcome A
  null_dereference : Outcome A
  endless_loop : Outcome A

infixl 5 ◌>>=◌
abbrev pub ◌>>=◌ {ℓ κ} : {A : Type ℓ} {B : Type κ} → Outcome A → (A → Outcome B) → Outcome B
ok a >>= f = f a
null_dereference >>= f = null_dereference
endless_loop >>= f = endless_loop

abbrev pub note : Effect → Session → Session
note e s = record s { log = s.log ++ (e ∷ []) }

abbrev pub note_leave : Option ℕ → ℕ → Session → Session
note_leave none p s = s
note_leave (some r) p s = note (leave_room r p) s

-- The part of `Disconnect` behind the exchange of `_connected`.
abbrev close_player : Option CurrentPlayer → Session → Outcome Session
close_player none s = null_dereference
close_player (some p) s = ok (note (release_session s.session_id) (note_leave p.room p.player_id s))

unfoldable pub disconnect : Session → Outcome Session
disconnect s =
    if s.connected then close_player s.current_player (record s { connected = false }) else ok s

unfoldable pub register_recv : Bool → Session → Outcome Session
register_recv fails s =
    if s.connected
    then (let started = note (start_recv (free_size s.recv_buffer)) s in
        if fails then disconnect started else ok started)
    else ok s

unfoldable pub on_connected : Bool → Session → Outcome Session
on_connected fails s =
    register_recv fails (note (add_session s.session_id) (record s { connected = true }))

unfoldable pub register_send : Bool → Session → Outcome Session
register_send fails s =
    if s.connected
    then (let batch = s.in_flight ++ s.send_queue in
        let started = note (start_send batch) (record s { in_flight = batch; send_queue = [] }) in
        if fails
        then disconnect (record started { in_flight = []; send_registered = false })
        else ok started)
    else ok s

unfoldable pub send : Bool → SendBuffer → Bool → Session → Outcome Session
send fails buffer push_only s =
    if s.connected
    then (let pushed = record s { send_queue = SendBufferQueue.push buffer s.send_queue } in
        if push_only
        then ok pushed
        else (if s.send_registered
            then ok pushed
            else register_send fails (record pushed { send_registered = true })))
    else ok s

unfoldable pub process_send : Bool → ℕ → Session → Outcome Session
process_send fails num_bytes s =
    let cleared = record s { in_flight = [] } in
    if num_bytes == 0
    then disconnect cleared
    else (if SendBufferQueue.is_empty s.send_queue
        then ok (record cleared { send_registered = false })
        else register_send fails cleared)

-- A packet handler, which may change the session and write into its packet
-- (`PacketHandler::ProcessPacket`).
abbrev pub Handler : Type 0
Handler = Session → List ℕ → ℕ → Outcome (Session × List Write)

-- The state and the writes of a handler's end; a fault stops it before anything else is read.
abbrev pub split_writes : Outcome (Session × List Write) → Outcome Session × List Write
split_writes (ok (s, ws)) = (ok s, ws)
split_writes null_dereference = (null_dereference, [])
split_writes endless_loop = (endless_loop, [])

module _ (handler : Handler) where
  abbrev pub run_handler : Outcome Session → List ℕ → ℕ → Outcome Session × List Write
  run_handler m bytes size = split_writes (m >>= λ s. handler s bytes size)

  -- The end of `ProcessRecv`, when `ProcessData` has consumed `done` bytes.
  unfoldable pub finish_recv : Bool → ℕ → Session → Outcome Session
  finish_recv fails done s =
      let (fits, read) = on_read done s.recv_buffer in
      if fits
      then register_recv fails (record s { recv_buffer = clean_check read })
      else disconnect s

  -- The memory from `ReadPos()` on as the handlers have left it.
  abbrev pub store : List ℕ → Session → Session
  store memory s =
      let b = s.recv_buffer in
      record s { recv_buffer = record b { buffer = take b.read_pos b.buffer ++ memory } }

  abbrev after_data : Bool → Option (Outcome Session × List ℕ × ℕ) → Outcome Session
  after_data fails none = endless_loop
  after_data fails (some (m, memory, done)) = m >>= λ s. finish_recv fails done (store memory s)

  -- `ProcessRecv`, with fuel for the loop of `ProcessData`. The kernel has put the bytes into the
  -- buffer before. The loop has the buffer's memory in hand, and the session gets it back behind it.
  unfoldable pub process_recv : ℕ → Bool → ℕ → Session → Outcome Session
  process_recv fuel fails num_bytes s =
      if num_bytes == 0
      then disconnect s
      else (let (fits, written) = on_write num_bytes s.recv_buffer in
          let data_at = drop written.read_pos written.buffer in
          let start = ok (record s { recv_buffer = written }) in
          if fits
          then after_data fails (process_data run_handler fuel start data_at (data_size written))
          else ok s)

-- What the rest of the server and the completion port do with a session, apart from a receive, one
-- after the other. No caller asks for `pushOnly`.
pub data Event : Type 0 where
  sends : Bool → SendBuffer → Event
  send_done : Bool → ℕ → Event
  disconnects : Event

unfoldable pub step : Event → Session → Outcome Session
step (sends fails b) s = send fails b false s
step (send_done fails n) s = process_send fails n s
step disconnects s = disconnect s

unfoldable pub run : List Event → Session → Outcome Session
run [] s = ok s
run (e ∷ es) s = step e s >>= run es
