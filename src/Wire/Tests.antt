-- ===== src/Wire/Tests.antt =====
-- A packet of the server read back, and a receive of the test client that completes a packet.
use simple_mmo.Prelude.{
  ℕ, true, false, Bool, some, List, [], ◌∷◌, ◌++◌, ◌<◌, ◌==◌, if◌then◌else◌, ◌≡◌, refl, inr, inl,
  arith, map, length, ◌+◌, replicate,
}
use simple_mmo.Prelude.Int.{pos, negsuc}
use simple_mmo.Game.Floats.{Floats}
use simple_mmo.Game.Objects.{ObjectType, PlayerType, MoveState, ObjectInfo}
use simple_mmo.Game.World.{Packet, sc_move_object}
use simple_mmo.Net.SendBuffer.{payload}
use simple_mmo.Wire.Bytes.{two_32}
use simple_mmo.Wire.Layout.{FloatBits}
use simple_mmo.Wire.Serializer.{make_packet}
use simple_mmo.Wire.Reading.{read_packet, read_packet-make_packet}
use simple_mmo.Net.Framing.{Write, read_header, process_data}
use simple_mmo.Net.Framing.Frames.{IsFrame, concat, written}
use simple_mmo.Net.RecvBuffer.{clean_check}
use simple_mmo.Net.Session.{
  CurrentPlayer, Session, Outcome, ok, run_handler, register_recv, process_recv,
}
use simple_mmo.Net.Session.Receiving.{arrived, process_recv-frames}
use simple_mmo.Wire.Handlers.{
  log_packet, process_packet, handle_packet, end_packet, handle_chat, in_room_of, packet_writes,
  chat_writes, read_bool, wide_string,
}
use simple_mmo.Wire.Handlers.Moves.{Move, frame_of, move_action, process_data-moves}
use simple_mmo.Wire.Stress.{Client, received, receive}
use simple_mmo.Wire.Stress.Reassembly.{Keeps, deliver, receive-frames}

-- Two floats, 0 and 1.
abbrev bit_floats : Floats
bit_floats = record {
  F = Bool;
  ratio = λ a b. if a == 0 then false else true;
  add = λ a b. a;
  sub = λ a b. a;
  mul = λ a b. a;
  div = λ a b. a;
  lt = λ a b. false;
  le = λ a b. true;
  eq = λ a b. true;
  neg = λ a. a;
  abs = λ a. a;
  sqrt = λ a. a;
  cos = λ a. a;
  sin = λ a. a;
  atan2 = λ a b. a;
  largest = true;
  to_int = λ a. if a then pos 1 else pos 0;
  of_int = λ z. true;
}

bit_small : (x : Bool) → (if x then 1065353216 else 0) < two_32
bit_small x = ground arith

bit_back : (x : Bool) → (if (if x then 1065353216 else 0) == 0 then false else true) ≡ x
bit_back x = ground arith

abbrev bit_bits : FloatBits ⦃fl = bit_floats⦄
bit_bits = record {
  to_bits = λ x. if x then 1065353216 else 0;
  of_bits = λ n. if n == 0 then false else true;
  bits_small = bit_small;
  of_bits-to_bits = bit_back;
}

abbrev monster : ObjectInfo ⦃fl = bit_floats⦄
monster = record {
  id = 100001;
  object_type = ObjectType.monster;
  player_type = PlayerType.monster;
  position = record {
    x = true;
    y = false;
    z = true;
    yaw = false;
    v_x = true;
    v_y = false;
    v_z = true;
    state = MoveState.run;
  };
  stat = record {
    max_hp = pos 100;
    hp = negsuc 4;
    attack_damage = pos 5;
    attack_speed = true;
    move_speed = true;
  };
}

abbrev told : Packet ⦃fl = bit_floats⦄
told = sc_move_object monster 17

read_packet-make_packet_example :
    read_packet ⦃fl = bit_floats⦄ ⦃bits = bit_bits⦄
      (payload (make_packet ⦃fl = bit_floats⦄ ⦃bits = bit_bits⦄ told) ++ 8 ∷ 0 ∷ [])
    ≡ some (told, 8 ∷ 0 ∷ [])
read_packet-make_packet_example =
    read_packet-make_packet ⦃fl = bit_floats⦄ ⦃bits = bit_bits⦄ told (8 ∷ 0 ∷ []) (
      record {
        id = omega arith;
        max_hp = omega arith;
        hp = omega arith;
        attack_damage = omega arith;
      },
      omega arith,
    )

-- Three bytes of a packet of 8 bytes have been kept.
abbrev waiting : Client
waiting = record {
  packet_buf = 8 ∷ 0 ∷ 10 ∷ 0 ∷ 0 ∷ 0 ∷ [];
  prev_packet_data = 3;
  curr_packet_size = 8;
}

abbrev dead : List ℕ
dead = 8 ∷ 0 ∷ 10 ∷ 0 ∷ 7 ∷ 0 ∷ 0 ∷ 0 ∷ []

waiting-Keeps : Keeps (8 ∷ 0 ∷ 10 ∷ []) waiting
waiting-Keeps = record {
  start = inr (omega arith, omega arith, omega arith);
  kept = refl;
  counted = refl;
  size = refl;
}

receive-frames_example :
    (c' : Client) × (receive
        (λ (s : List (List ℕ)) p. s ++ p ∷ [])
        []
        (0 ∷ 7 ∷ 0 ∷ 0 ∷ 0 ∷ 20 ∷ 0 ∷ [])
        (99 ∷ [])
        waiting
      ≡ received (deliver (λ (s : List (List ℕ)) p. s ++ p ∷ []) [] (dead ∷ [])) c')
    × Keeps (20 ∷ 0 ∷ []) c'
unfolding read_header
receive-frames_example =
    receive-frames (λ (s : List (List ℕ)) p. s ++ p ∷ []) (dead ∷ []) [] (8 ∷ 0 ∷ 10 ∷ [])
      (0 ∷ 7 ∷ 0 ∷ 0 ∷ 0 ∷ 20 ∷ 0 ∷ []) (20 ∷ 0 ∷ []) (99 ∷ []) waiting waiting-Keeps
      ((record { holds_header = omega arith; sized = λ rest. refl }, omega arith), tt)
      (inr (omega arith, omega arith, omega arith)) refl

abbrev walker : CurrentPlayer
walker = record { player_id = 1; room = some 7 }

abbrev steps : List (Move ⦃fl = bit_floats⦄ ⦃bits = bit_bits⦄)
steps = (monster.position, false) ∷ (monster.position, true) ∷ []

-- Two moves and the first byte of a third packet.
process_data-moves_example :
    process_data
      (log_packet ⦃fl = bit_floats⦄ ⦃bits = bit_bits⦄ (some walker))
      3
      (some [])
      (concat (map (frame_of ⦃fl = bit_floats⦄ ⦃bits = bit_bits⦄) steps) ++ ((37 ∷ []) ++ (0 ∷ [])))
      (length (concat (map (frame_of ⦃fl = bit_floats⦄ ⦃bits = bit_bits⦄) steps)) + 1)
    ≡ some (
      some (map (move_action ⦃fl = bit_floats⦄ ⦃bits = bit_bits⦄ (some walker)) steps),
      concat (map (frame_of ⦃fl = bit_floats⦄ ⦃bits = bit_bits⦄) steps) ++ ((37 ∷ []) ++ (0 ∷ [])),
      length (concat (map (frame_of ⦃fl = bit_floats⦄ ⦃bits = bit_bits⦄) steps)),
    )
process_data-moves_example =
    process_data-moves ⦃fl = bit_floats⦄ ⦃bits = bit_bits⦄ (some walker) steps (37 ∷ []) (0 ∷ [])
      (inl (omega arith))

-- A chat of 100 characters, which its handler cuts.
abbrev long_chat : List ℕ
long_chat = 204 ∷ 0 ∷ 3 ∷ 0 ∷ replicate 200 65

long_chat-IsFrame : IsFrame long_chat
unfolding read_header
long_chat-IsFrame = record { holds_header = omega arith; sized = λ rest. refl }

-- The chat and the first byte of one more packet have come into an empty buffer.
abbrev chatting : Session
chatting = record {
  session_id = 1;
  connected = true;
  recv_buffer = record {
    buffer_size = 206;
    read_pos = 0;
    write_pos = 0;
    buffer = long_chat ++ ((4 ∷ []) ++ (0 ∷ []));
  };
  send_queue = [];
  send_registered = false;
  in_flight = [];
  current_player = some walker;
  log = [];
}

abbrev served : Outcome Session → List ℕ → ℕ → Outcome Session × List Write
served = run_handler (handle_packet ⦃fl = bit_floats⦄ ⦃bits = bit_bits⦄)

process_recv-frames_example :
    process_recv (handle_packet ⦃fl = bit_floats⦄ ⦃bits = bit_bits⦄) 2 false 205 chatting
    ≡ register_recv false (record (arrived 205 chatting) {
      recv_buffer = clean_check (record chatting.recv_buffer {
        write_pos = 205;
        read_pos = 204;
        buffer =
            written served (ok (arrived 205 chatting)) (long_chat ∷ []) (4 ∷ 0 ∷ [])
            ++ ((4 ∷ []) ++ (0 ∷ []));
      });
    })
unfolding handle_packet end_packet process_packet handle_chat in_room_of packet_writes chat_writes
    read_header read_bool wide_string
process_recv-frames_example =
    process_recv-frames (handle_packet ⦃fl = bit_floats⦄ ⦃bits = bit_bits⦄) (long_chat ∷ [])
      (4 ∷ []) (0 ∷ []) 2 false chatting (arrived 205 chatting) (long_chat-IsFrame, tt)
      (inl (omega arith)) (omega arith) (omega arith) (omega arith) refl refl refl refl refl
      ((omega arith, (omega arith, tt)), tt)
