-- ===== src/Wire/Handlers.antt =====
-- PacketHandler.cpp: what the packets of a client (TestProtocol.h) make the server do. A handler gets
-- the memory from the packet's first byte on and asks neither for the packet's size nor for the end
-- of the memory; an access behind it is `none`. An id or an enum that no value has is `none`, too.
pub mod Moves
pub mod Guards
use simple_mmo.Prelude.{
  ℕ, zero, suc, ◌+◌, ◌*◌, Bool, true, false, Option, none, some, List, [], ◌∷◌, ◌++◌, ◌==◌,
  if◌then◌else◌, not, drop,
}
use simple_mmo.Prelude.Options.{◌>>=◌}
use simple_mmo.Game.Floats.{Floats}
use simple_mmo.Game.Objects.{PlayerType}
use simple_mmo.Game.Handling.{Request, player_moves, attacks}
use simple_mmo.Net.Framing.{Write, read_header}
use simple_mmo.Net.Session.{
  CurrentPlayer, Session, Outcome, Handler, ok, null_dereference, disconnect,
}
use simple_mmo.Net.Session.{◌>>=◌ as ◌>>=ₒ◌}
use simple_mmo.Wire.Bytes.{Reader}
use simple_mmo.Wire.Layout.{FloatBits, read_id, read_position}

-- CS_PACKET_LIST
abbrev pub login_type : ℕ
login_type = 0

abbrev pub signup_type : ℕ
signup_type = 1

abbrev pub logout_type : ℕ
logout_type = 2

abbrev pub chat_type : ℕ
chat_type = 3

abbrev pub move_type : ℕ
move_type = 4

abbrev pub enter_room_type : ℕ
enter_room_type = 6

abbrev pub attack_type : ℕ
attack_type = 8

-- A `char*` up to the first zero, and a `wchar_t*` of at most so many characters.
unfoldable pub c_string : List ℕ → Option (List ℕ)
c_string [] = none
c_string (b ∷ bytes) =
    let rest = c_string bytes in if b == 0 then some [] else (rest >>= λ cs. some (b ∷ cs))

unfoldable pub wide_string : ℕ → List ℕ → Option (List ℕ)
wide_string zero bytes = some []
wide_string (suc n) (a ∷ b ∷ bytes) =
    let rest = wide_string n bytes in
    if a + 256 * b == 0 then some [] else (rest >>= λ cs. some ((a + 256 * b) ∷ cs))
wide_string (suc n) _ = none

unfoldable pub read_bool : Reader Bool
read_bool [] = none
read_bool (b ∷ rest) = some (not (b == 0), rest)

-- The text "dummy".
abbrev dummy : List ℕ
dummy = 100 ∷ 117 ∷ 109 ∷ 109 ∷ 121 ∷ []

module _ ⦃fl : Floats⦄ where
  -- What a handler starts: a job of the database's thread, a job of a room, the entry of a player,
  -- which may be null, or the end of the session.
  pub data Action : Type 0 where
    tries_login : List ℕ → List ℕ → Action
    tries_sign_up : List ℕ → List ℕ → ℕ → Action
    chats : ℕ → ℕ → List ℕ → Action
    requests : ℕ → Request → Action
    enters_room : Option CurrentPlayer → Action
    disconnects : Action
    ignores : Action

  -- A job for the room of the session's player, if there is one.
  unfoldable pub in_room_of : Option CurrentPlayer → (ℕ → ℕ → Option Action) → Option Action
  in_room_of none job = some ignores
  in_room_of (some p) job = room_found p.room
    where
      room_found : Option ℕ → Option Action
      room_found none = some ignores
      room_found (some room) = job room p.player_id

  unfoldable pub handle_login : List ℕ → Option Action
  handle_login memory = do
    id ← c_string (drop 4 memory)
    pw ← c_string (drop 24 memory)
    (is_dummy, _) ← read_bool (drop 44 memory)
    some (if is_dummy then tries_login dummy dummy else tries_login id pw)

  unfoldable pub handle_signup : List ℕ → Option Action
  handle_signup memory = do
    id ← c_string (drop 4 memory)
    pw ← c_string (drop 24 memory)
    (type, _) ← read_id (drop 44 memory)
    some (tries_sign_up id pw type)

  -- The last of 100 characters is set to zero first.
  unfoldable pub handle_chat : Option CurrentPlayer → List ℕ → Option Action
  handle_chat player memory = in_room_of player λ room id. do
    (_, _) ← read_bool (drop 203 memory)
    message ← wide_string 99 (drop 4 memory)
    some (chats room id message)

  -- `packet->message[MAX_CHAT_LEN - 1] = L'\0'`, as two bytes behind the header.
  unfoldable pub chat_writes : Option CurrentPlayer → List Write
  chat_writes none = []
  chat_writes (some p) = elim p.room [ none ↦ [] | some room ↦ (198, 0) ∷ (199, 0) ∷ [] ]

  unfoldable pub handle_attack : Option CurrentPlayer → List ℕ → Option Action
  handle_attack player memory = in_room_of player λ room id. do
    (target_id, _) ← read_id (drop 4 memory)
    some (requests room (attacks id 0 target_id))

  module _ ⦃bits : FloatBits⦄ where
    unfoldable pub handle_move : Option CurrentPlayer → List ℕ → Option Action
    handle_move player memory = in_room_of player λ room id. do
      (position, rest) ← read_position (drop 4 memory)
      (force, _) ← read_bool rest
      some (requests room (player_moves id position force))

    -- PacketHandler::ProcessPacket
    unfoldable pub process_packet : Option CurrentPlayer → List ℕ → Option Action
    process_packet player memory =
        let type = (read_header memory).type in
        if type == login_type
        then handle_login memory
        else (if type == signup_type
            then handle_signup memory
            else (if type == chat_type
                then handle_chat player memory
                else (if type == move_type
                    then handle_move player memory
                    else (if type == enter_room_type
                        then some (enters_room player)
                        else (if type == attack_type
                            then handle_attack player memory
                            else (if type == logout_type
                                then some disconnects
                                else some ignores))))))

    -- What a packet's handler writes into its packet: the last character of a chat.
    unfoldable pub packet_writes : Option CurrentPlayer → List ℕ → List Write
    packet_writes player memory =
        if (read_header memory).type == chat_type then chat_writes player else []

    -- The handler in the loop of `ProcessData`, which keeps what it starts.
    abbrev pub log_packet :
        Option CurrentPlayer → Option (List Action) → List ℕ → ℕ → Option (List Action) × List Write
    log_packet player log memory size = (
      do actions ← log; action ← process_packet player memory; some (actions ++ action ∷ []),
      packet_writes player memory,
    )

    -- What a packet's handler does to its session. An access behind the memory, which C++ leaves
    -- undefined, is a fault here.
    unfoldable pub end_packet :
        Option Action → List Write → Session → Outcome (Session × List Write)
    end_packet none ws s = null_dereference
    end_packet (some disconnects) ws s = disconnect s >>=ₒ λ t. ok (t, ws)
    end_packet (some _) ws s = ok (s, ws)

    unfoldable pub handle_packet : Handler
    handle_packet s memory size =
        end_packet (process_packet s.current_player memory) (packet_writes s.current_player memory)
          s
