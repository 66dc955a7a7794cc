-- ===== src/Wire/Handlers/Moves.antt =====
-- The move packets of a client (TestProtocol.h) from its buffer to the room's jobs: `ProcessData` of
-- Session.cpp with the handlers of PacketHandler.cpp.
use simple_mmo.Prelude.{
  ℕ, suc, ◌+◌, Bool, true, false, Option, none, some, List, [], ◌∷◌, ◌++◌, if◌then◌else◌, map,
  length, All, ◌≡◌, refl, ap, ap₂, subst, sym, ◌∙◌, arith, append_assoc, append-nil,
}
use simple_mmo.Prelude.Options.{◌>>=◌}
use simple_mmo.Game.Floats.{Floats}
use simple_mmo.Game.Objects.{PositionInfo}
use simple_mmo.Game.Handling.{player_moves}
use simple_mmo.Net.Framing.{read_header, apply_writes, process_data}
use simple_mmo.Net.Framing.Frames.{
  IsFrame, IsPartial, Inside, StayInside, concat, deliver, written, process_data-frames,
}
use simple_mmo.Net.Session.{CurrentPlayer}
use simple_mmo.Wire.Bytes.{write_u16, write_int, write_u32}
use simple_mmo.Wire.Layout.{
  FloatBits, write_float, write_id, write_position, read_position-write_position,
}
use simple_mmo.Wire.Serializer.{write_header}
use simple_mmo.Wire.Handlers.{
  Action, requests, ignores, read_bool, in_room_of, handle_move, process_packet, log_packet,
  packet_writes, move_type,
}

module _ ⦃fl : Floats⦄ ⦃bits : FloatBits⦄ where
  -- CS_MOVE_PACKET, filled with a position and the flag.
  abbrev pub write_move : PositionInfo → Bool → List ℕ → List ℕ
  write_move p force rest =
      write_header 37 move_type (write_position p ((if force then 1 else 0) ∷ rest))

  abbrev pub Move : Type 0
  Move = PositionInfo × Bool

  abbrev pub frame_of : Move → List ℕ
  frame_of (p, force) = write_move p force []

  -- The job for the room, or nothing.
  abbrev pub move_action : Option CurrentPlayer → Move → Action
  move_action none m = ignores
  move_action (some player) (p, force) = elim player.room [
    | none ↦ ignores
    | some room ↦ requests room (player_moves player.player_id p force)
  ]

  frame_of-append :
      (p : PositionInfo) (force : Bool) (rest : List ℕ)
      → write_move p force [] ++ rest ≡ write_move p force rest
  unfolding write_header write_u16 write_position write_float write_id write_int write_u32
  frame_of-append p force rest = refl

  frame_of-IsFrame : (m : Move) → IsFrame (frame_of m)
  unfolding write_header write_u16 write_position write_float write_id write_int write_u32
      read_header
  frame_of-IsFrame (p, force) = record { holds_header = omega arith; sized = λ rest. refl }

  read_flag :
      (force : Bool) (rest : List ℕ)
      → read_bool ((if force then 1 else 0) ∷ rest) ≡ some (force, rest)
  unfolding read_bool
  read_flag true rest = refl
  read_flag false rest = refl

  read_header-write_move :
      (p : PositionInfo) (force : Bool) (rest : List ℕ)
      → (read_header (write_move p force rest)).type ≡ move_type
  unfolding write_header write_u16 read_header
  read_header-write_move p force rest = refl

  handle_move-write_move :
      (player : Option CurrentPlayer) (p : PositionInfo) (force : Bool) (rest : List ℕ)
      → handle_move player (write_move p force rest) ≡ some (move_action player (p, force))
  unfolding handle_move in_room_of write_header write_u16
  handle_move-write_move none p force rest = refl
  handle_move-write_move (some player) p force rest = in_room player.room
    where
      in_room :
          (room : Option ℕ)
          → handle_move (some (record player { room = room })) (write_move p force rest)
            ≡ some (move_action (some (record player { room = room })) (p, force))
      in_room none = refl
      in_room (some room) =
          rw
            (read_position-write_position p ((if force then 1 else 0) ∷ rest), read_flag force rest)
            refl

  process_packet-write_move :
      (player : Option CurrentPlayer) (p : PositionInfo) (force : Bool) (rest : List ℕ)
      → process_packet player (write_move p force rest) ≡ some (move_action player (p, force))
  unfolding process_packet
  process_packet-write_move player p force rest =
      rw (read_header-write_move p force rest) (handle_move-write_move player p force rest)

  packet_writes-write_move :
      (player : Option CurrentPlayer) (p : PositionInfo) (force : Bool) (rest : List ℕ)
      → packet_writes player (write_move p force rest) ≡ []
  unfolding packet_writes
  packet_writes-write_move player p force rest = rw (read_header-write_move p force rest) refl

  log_packet-frame_of :
      (player : Option CurrentPlayer) (log : List Action) (m : Move) (rest : List ℕ) (size : ℕ)
      → log_packet player (some log) (frame_of m ++ rest) size
        ≡ (some (log ++ move_action player m ∷ []), [])
  log_packet-frame_of player log (p, force) rest size =
      ap (λ memory. log_packet player (some log) memory size) (frame_of-append p force rest)
      ∙ ap₂ (λ action ws. (action >>= λ a. some (log ++ a ∷ []), ws))
          (process_packet-write_move player p force rest)
          (packet_writes-write_move player p force rest)

  deliver-moves :
      (player : Option CurrentPlayer) (log : List Action) (ms : List Move) (after : List ℕ)
      → deliver (log_packet player) (some log) (map frame_of ms) after
        ≡ some (log ++ map (move_action player) ms)
  deliver-moves player log [] after = ap some (sym (append-nil log))
  deliver-moves player log (m ∷ ms) after =
      ap (λ r. deliver (log_packet player) r.0 (map frame_of ms) after)
        (log_packet-frame_of player log m (concat (map frame_of ms) ++ after) (length (frame_of m)))
      ∙ deliver-moves player (log ++ move_action player m ∷ []) ms after
      ∙ ap some (append_assoc log (move_action player m ∷ []) (map (move_action player) ms))

  -- A move's handler writes nothing.
  StayInside-moves :
      (player : Option CurrentPlayer) (log : List Action) (ms : List Move) (after : List ℕ)
      → StayInside (log_packet player) (some log) (map frame_of ms) after
  StayInside-moves player log [] after = tt
  StayInside-moves player log (m ∷ ms) after =
      subst
        (λ r.
          Inside (length (frame_of m)) r.1
          × StayInside (log_packet player) r.0 (map frame_of ms) after)
        (sym (
          log_packet-frame_of player log m (concat (map frame_of ms) ++ after)
            (length (frame_of m))))
        (tt, StayInside-moves player (log ++ move_action player m ∷ []) ms after)

  written-moves :
      (player : Option CurrentPlayer) (log : List Action) (ms : List Move) (after : List ℕ)
      → written (log_packet player) (some log) (map frame_of ms) after ≡ concat (map frame_of ms)
  written-moves player log [] after = refl
  written-moves player log (m ∷ ms) after =
      ap
        (λ r.
          apply_writes 0 r.1 (frame_of m)
          ++ written (log_packet player) r.0 (map frame_of ms) after)
        (log_packet-frame_of player log m (concat (map frame_of ms) ++ after) (length (frame_of m)))
      ∙ ap (λ l. frame_of m ++ l) (written-moves player (log ++ move_action player m ∷ []) ms after)

  frames-AreFrames : (ms : List Move) → All IsFrame (map frame_of ms)
  frames-AreFrames [] = tt
  frames-AreFrames (m ∷ ms) = (frame_of-IsFrame m, frames-AreFrames ms)

  length-map_frames : (ms : List Move) → length (map frame_of ms) ≡ length ms
  length-map_frames [] = refl
  length-map_frames (m ∷ ms) = ap suc (length-map_frames ms)

  -- Whatever moves a client sends, when its bytes have arrived together with the beginning of one
  -- more packet, the loop over the buffer starts exactly one job for each of them, in the order in
  -- which they were sent and with the position and the flag that were sent, in the room of the
  -- session's player, if it has one, and none otherwise; it consumes exactly their
  -- bytes and leaves the memory as it is.
  pub process_data-moves :
      (player : Option CurrentPlayer) (ms : List Move) (rest tail : List ℕ)
      → IsPartial rest tail
      → process_data
          (log_packet player)
          (suc (length ms))
          (some [])
          (concat (map frame_of ms) ++ (rest ++ tail))
          (length (concat (map frame_of ms)) + length rest)
        ≡ some (
          some (map (move_action player) ms),
          concat (map frame_of ms) ++ (rest ++ tail),
          length (concat (map frame_of ms)),
        )
  process_data-moves player ms rest tail p =
      process_data-frames (log_packet player) (map frame_of ms) (suc (length ms)) (some []) rest
        tail (frames-AreFrames ms) p (StayInside-moves player [] ms (rest ++ tail))
        (omega (arith, length-map_frames ms))
      ∙ ap₂ (λ s m. some (s, m ++ (rest ++ tail), length (concat (map frame_of ms))))
          (deliver-moves player [] ms (rest ++ tail)) (written-moves player [] ms (rest ++ tail))
