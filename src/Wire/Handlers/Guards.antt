-- ===== src/Wire/Handlers/Guards.antt =====
-- The guards of the packet handlers (PacketHandler.cpp).
use simple_mmo.Prelude.{ℕ, Option, none, some, ◌≡◌}
use simple_mmo.Game.Floats.{Floats}
use simple_mmo.Net.Session.{CurrentPlayer}
use simple_mmo.Wire.Handlers.{
  Action, tries_login, tries_sign_up, chats, requests, enters_room, disconnects, ignores,
  enter_room_type,
}

module _ ⦃fl : Floats⦄ where
  -- No job is pushed to a room by the handler of a packet of this type. That of CS_ENTER_ROOM hands
  -- the player to the room manager, which pushes the job by which it enters a room.
  abbrev pub SparesRooms : ℕ → Option Action → Type 0
  SparesRooms type none = Unit
  SparesRooms type (some (tries_login id pw)) = Unit
  SparesRooms type (some (tries_sign_up id pw player_type)) = Unit
  SparesRooms type (some (chats room id message)) = ⊥
  SparesRooms type (some (requests room q)) = ⊥
  SparesRooms type (some (enters_room p)) = type ≡ enter_room_type
  SparesRooms type (some disconnects) = Unit
  SparesRooms type (some ignores) = Unit

  -- Nobody has logged in, or the player is in no room.
  abbrev pub HasNoRoom : Option CurrentPlayer → Type 0
  HasNoRoom none = Unit
  HasNoRoom (some p) = p.room ≡ none
