-- ===== src/Wire/Chat.antt =====
-- `Room::PlayerChat` and its `Broadcast` (Room.cpp). The packet is filled here and not by the
-- serializer, so what is sent stands as bytes. `wcscpy_s` ends the program, `none`, on a message
-- that does not fit with its zero.
mod Fits
use simple_mmo.Prelude.{
  ℕ, ◌+◌, ◌*◌, Option, none, some, List, [], ◌∷◌, if◌then◌else◌, ltb, length, Dict,
}
use simple_mmo.Game.Floats.{Floats}
use simple_mmo.Game.World.{Room}
use simple_mmo.Wire.Bytes.{Writer, write_u16}
use simple_mmo.Wire.Layout.{write_id}
use simple_mmo.Wire.Serializer.{write_header}

abbrev pub max_chat_len : ℕ
max_chat_len = 100

-- The characters with the zero behind them.
unfoldable pub write_wide : Writer (List ℕ)
write_wide [] rest = write_u16 0 rest
write_wide (c ∷ cs) rest = write_u16 c (write_wide cs rest)

-- SC_CHAT
abbrev pub sc_chat_type : ℕ
sc_chat_type = 5

-- `packetSize`, and the bytes of the packet up to there.
abbrev pub chat_size : List ℕ → ℕ
chat_size message = 8 + (length message + 1) * 2

abbrev pub chat_bytes : ℕ → List ℕ → List ℕ
chat_bytes sender message =
    write_header (chat_size message) sc_chat_type (write_id sender (write_wide message []))

module _ ⦃fl : Floats⦄ where
  abbrev pub send_bytes : Option ℕ → List ℕ → List (ℕ × List ℕ) → List (ℕ × List ℕ)
  send_bytes none bytes sends = sends
  send_bytes (some session) bytes sends = (session, bytes) ∷ sends

  unfoldable pub broadcast_bytes : Dict ℕ → List ℕ → Room → List (ℕ × List ℕ)
  broadcast_bytes [] bytes r = []
  broadcast_bytes ((id, a) ∷ players) bytes r =
      send_bytes (r.heap a).session bytes (broadcast_bytes players bytes r)

  -- Room::PlayerChat: what each session is sent. The room stays as it is.
  unfoldable pub player_chat : ℕ → List ℕ → Room → Option (List (ℕ × List ℕ))
  player_chat sender message r =
      if ltb (length message) max_chat_len
      then some (broadcast_bytes r.players (chat_bytes sender message) r)
      else none
