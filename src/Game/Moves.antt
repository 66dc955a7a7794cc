-- ===== src/Game/Moves.antt =====
-- Objects that enter a room, move in it and leave it: AddObject, RemoveObject, PlayerEnterRoom,
-- PlayerLeaveRoom, PlayerMove, NpcEnterRoom and NPCMove of Room.cpp. An access outside a vector or
-- the grid is `none`. The navigation mesh's random position for a dummy player is an argument.
pub mod Sights
pub mod Shown
pub mod Arrival
pub mod Reports
pub mod Tracking
pub mod Walking
pub mod Placed
pub mod Tracked
pub mod Scenes
use simple_mmo.Prelude.{
  ℕ, Bool, true, false, Option, none, some, List, [], ◌∷◌, ◌&&◌, if◌then◌else◌, not, erase, emplace,
}
use simple_mmo.Prelude.Options.{◌>>=◌}
use simple_mmo.Game.Floats.{Floats}
use simple_mmo.Game.Objects.{Object, PositionInfo, MoveState, is_player}
use simple_mmo.Game.GameMap.{GameMap, SpawnPoint, ViewUpdate, enter_map, update_map, leave_game_map}
use simple_mmo.Game.World.{
  sc_add_object, sc_move_object, Room, update_at, send_to, get_game_object, id_to_player,
}
use simple_mmo.Game.World.Broadcast.{broadcast_aoi}
use simple_mmo.Game.Navmesh.{Detour, can_move}
use simple_mmo.Game.Movement.{VectorMath, place_of, move}
use simple_mmo.Game.Monster.{is_empty}
use simple_mmo.Game.Damage.{id_at}
use simple_mmo.Game.View.{update_view}

module _ ⦃fl : Floats⦄ where
  open fl use {F, ratio}

  abbrev pub set_position : PositionInfo → Object → Object
  set_position p o = record o { info = record o.info { position = p } }

  abbrev pub enter_owner : Object → Object
  enter_owner o = record o { in_room = true }

  -- `{ X, Y, Z }`, whose other fields become 0.
  abbrev pub spawn_position : SpawnPoint → PositionInfo
  spawn_position s = record {
    x = s.x;
    y = s.y;
    z = s.z;
    yaw = ratio 0 1;
    v_x = ratio 0 1;
    v_y = ratio 0 1;
    v_z = ratio 0 1;
    state = MoveState.none;
  }

  -- Where a player starts; `none` is `spawnPoints[0]` of an empty vector.
  abbrev pub place_player : PositionInfo → ℕ → List SpawnPoint → Room → Option Room
  place_player random a [] r = none
  place_player random a (s ∷ ss) r =
      some (update_at a (set_position (if (r.heap a).is_dummy then random else spawn_position s)) r)

  -- Room::AddObject: whether the object was added, and the room.
  unfoldable pub add_object : PositionInfo → ℕ → Room → Option (Bool × Room)
  add_object random a r =
      let (objects, fresh) = emplace (id_at a r) a r.objects in
      let entered = update_at a enter_owner (record r { objects = objects }) in
      if fresh
      then (if is_player (r.heap a).info.object_type
          then (place_player random a r.game_map.spawn_points entered >>= λ placed.
              some (true, placed))
          else some (true, entered))
      else some (false, r)

  unfoldable pub remove_object : ℕ → Room → Room
  remove_object id r = record r { objects = erase id r.objects }

  abbrev pub position_at : ℕ → Room → PositionInfo
  position_at a r = (r.heap a).info.position

  -- A step of the game map, and the update of views if it has anything to tell.
  abbrev pub show : ℕ → Room → Option (ViewUpdate × GameMap) → Option Room
  show a r none = none
  show a r (some (u, m)) =
      let r' = record r { game_map = m } in
      some (if is_empty u.entered && is_empty u.leaved then r' else update_view a u r')

  abbrev pub player_added : ℕ → Bool × Room → Option Room
  player_added a (false, r) = some r
  player_added a (true, r) =
      let (players, _) = emplace (id_at a r) a r.players in
      let session = (r.heap a).session in
      let add = sc_add_object (r.heap a).info in
      let told = send_to session add (send_to session add (record r { players = players })) in
      show a told (enter_map (id_at a told) (position_at a told) told.game_map)

  -- Room::PlayerEnterRoom
  unfoldable pub player_enter_room : PositionInfo → ℕ → Room → Option Room
  player_enter_room random a r = add_object random a r >>= player_added a

  abbrev pub monster_added : ℕ → Bool × Room → Option Room
  monster_added a (false, r) = some r
  monster_added a (true, r) =
      let (monsters, _) = emplace (id_at a r) a r.monsters in
      let listed = record r { monsters = monsters } in
      show a listed (enter_map (id_at a listed) (position_at a listed) listed.game_map)

  -- Room::NpcEnterRoom
  unfoldable pub npc_enter_room : PositionInfo → ℕ → Room → Option Room
  npc_enter_room random a r = add_object random a r >>= monster_added a

  abbrev pub drop_player : ℕ → Room → Room
  drop_player id r = record r { players = erase id r.players }

  -- Room::PlayerLeaveRoom
  unfoldable pub player_leave_room : ℕ → Room → Option Room
  player_leave_room a r = do
    let id = id_at a r
    seen ← show a r (leave_game_map id r.game_map)
    some (drop_player id (remove_object id seen))

  abbrev pub move_found : ℕ → Option ℕ → Room → Option Room
  move_found a none r = some r
  move_found a (some _) r = show a r (update_map (id_at a r) (position_at a r) r.game_map)

  -- Room::NPCMove
  unfoldable pub npc_move : ℕ → Room → Option Room
  npc_move a r = move_found a (get_game_object (id_at a r) r) r

  -- The own `Move` of a dummy player, towards where it is.
  abbrev pub stand : VectorMath → Object → Object
  stand dx o = (move dx (place_of o.info.position) o).1

  abbrev pub correct : ℕ → Room → Room
  correct a r =
      send_to (r.heap a).session (sc_move_object (r.heap a).info (r.heap a).last_move_time) r

  -- The move behind the checks.
  abbrev pub place_at : ℕ → PositionInfo → Room → Room
  place_at a p r =
      let placed = update_at a (set_position p) r in
      broadcast_aoi a (sc_move_object (placed.heap a).info (placed.heap a).last_move_time) false
        placed

  abbrev pub stand_if_dummy : VectorMath → ℕ → Room → Room
  stand_if_dummy dx a r = if (r.heap a).is_dummy then update_at a (stand dx) r else r

  -- Whether the way is free is asked for the position before a dummy's own `Move`.
  abbrev pub move_player : Detour → VectorMath → ℕ → PositionInfo → Option ℕ → Room → Option Room
  move_player d dx a p none r = some r
  move_player d dx a p (some _) r =
      let stood = stand_if_dummy dx a r in
      let placed = place_at a p stood in
      if can_move d (position_at a r) p
      then show a placed (update_map (id_at a placed) (position_at a placed) placed.game_map)
      else some (correct a stood)

  -- Room::PlayerMove. The flag `force` is not used.
  unfoldable pub player_move : Detour → VectorMath → ℕ → PositionInfo → Bool → Room → Option Room
  player_move d dx a p force r = move_player d dx a p (id_to_player (id_at a r) r) r
