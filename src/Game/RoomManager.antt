-- ===== src/Game/RoomManager.antt =====
-- RoomManager of Room.h and Room.cpp: the rooms by their ids, and the room in which a player is
-- queued. A room counts the players that it has; the jobs that it has not run yet stand in its queue.
mod Entry
mod Tests
use simple_mmo.Prelude.{
  ℕ, suc, Option, none, some, List, [], ◌∷◌, ◌++◌, if◌then◌else◌, ltb, ◌==◌, Dict, erase, emplace,
}

-- What the manager sees of a room: `NumPlayers()`, and the players whose `PlayerEnterRoom` is queued.
pub record ManagedRoom : Type 0 where
  pub num_players : ℕ
  pub entering : List ℕ

-- `_idGenerator` is shared by all managers, of which there is one.
pub record RoomManager : Type 0 where
  pub rooms : Dict ManagedRoom
  pub last_id : ℕ

abbrev pub max_room_capacity : ℕ
max_room_capacity = 100

-- `room->PushJob(&Room::PlayerEnterRoom, player)`
abbrev pub push_enter : ℕ → ManagedRoom → ManagedRoom
push_enter player room = record room { entering = room.entering ++ player ∷ [] }

-- RoomManager::CreateRoom, with its id. Filling the room with monsters is the room's business.
unfoldable pub create_room : RoomManager → ℕ × RoomManager
create_room m =
    let id = suc m.last_id in
    let room : ManagedRoom = record { num_players = 0; entering = [] } in
    (id, record m { last_id = id; rooms = (emplace id room m.rooms).0 })

-- RoomManager::Remove
unfoldable pub remove : ℕ → RoomManager → RoomManager
remove id m = record m { rooms = erase id m.rooms }

abbrev pub skip_room :
    ℕ → ManagedRoom → Option (ℕ × Dict ManagedRoom) → Option (ℕ × Dict ManagedRoom)
skip_room id room none = none
skip_room id room (some (i, rooms)) = some (i, (id, room) ∷ rooms)

-- The loop of `EnterPlayer`: the rooms with the job pushed to the first that has fewer players than
-- the capacity, and its id, the player's new owner.
unfoldable pub enter_first : ℕ → Dict ManagedRoom → Option (ℕ × Dict ManagedRoom)
enter_first player [] = none
enter_first player ((id, room) ∷ rooms) =
    let rest = enter_first player rooms in
    if ltb room.num_players max_room_capacity
    then some (id, (id, push_enter player room) ∷ rooms)
    else skip_room id room rest

-- The job for the room with an id.
unfoldable pub push_to : ℕ → ℕ → Dict ManagedRoom → Dict ManagedRoom
push_to player id [] = []
push_to player id ((i, room) ∷ rooms) =
    let rest = push_to player id rooms in
    if i == id then (i, push_enter player room) ∷ rooms else (i, room) ∷ rest

abbrev pub entered_or_new : ℕ → RoomManager → Option (ℕ × Dict ManagedRoom) → Option ℕ × RoomManager
entered_or_new player m (some (id, rooms)) = (some id, record m { rooms = rooms })
entered_or_new player m none =
    let (id, made) = create_room m in (none, record made { rooms = push_to player id made.rooms })

-- RoomManager::EnterPlayer: the owner that the player is given at once, which it is not for a new
-- room, and the manager.
unfoldable pub enter_player : ℕ → RoomManager → Option ℕ × RoomManager
enter_player player m = entered_or_new player m (enter_first player m.rooms)
