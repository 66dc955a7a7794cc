-- ===== src/Game/Moves/Scenes.antt =====
-- A room with a map of 3 cells by 1 where objects enter, move and leave.
use simple_mmo.Prelude.{ℕ, false, ◌==◌, if◌then◌else◌, refl, [], ◌∷◌, find, erase, arith}
use simple_mmo.Prelude.Int.{pos}
use simple_mmo.Game.Removal.{count}
use simple_mmo.Game.Objects.{Object, ObjectType}
use simple_mmo.Game.Examples.{numbers, somewhere, object, small_map, plain, straight, room}
use simple_mmo.Game.GameMap.{to_cell_pos}
use simple_mmo.Game.GameMap.Occupancy.{put_at, take_off}
use simple_mmo.Game.GameMap.Scenes.{column, places, scene, scene-Represents}
use simple_mmo.Game.World.{Room, id_to_player}
use simple_mmo.Game.Moves.{
  set_position, player_enter_room, npc_enter_room, npc_move, player_leave_room, player_move,
}
use simple_mmo.Game.Moves.Shown.{Tracks}
use simple_mmo.Game.Moves.Walking.{may_go, walked, player_move-Tracks}
use simple_mmo.Game.Moves.Tracking.{
  Reaches, player_enter_room-Tracks, npc_enter_room-Tracks, npc_move-Tracks,
  player_leave_room-Tracks,
}

-- The object that stands at each address: the player 1, the monster 2, which is about to move to the
-- second column, and the player 3 and the monster 4, which are not in the room yet.
abbrev cast : ℕ → Object ⦃fl = numbers⦄
cast a =
    if a == 0
    then object 1 ObjectType.player
    else (if a == 1
        then set_position ⦃fl = numbers⦄ (record somewhere { x = 1 }) (object 2 ObjectType.monster)
        else (if a == 2
            then object 3 ObjectType.player
            else set_position ⦃fl = numbers⦄ (record somewhere { x = 1 })
                (object 4 ObjectType.monster)))

abbrev pub stage : Room ⦃fl = numbers⦄
stage = record room {
  game_map = record small_map {
    cells = scene;
    spawn_points = record { point_id = pos 1; x = 2; y = 0; z = 0; yaw = 0 } ∷ [];
  };
  heap = cast;
}

pub stage-Tracks : Tracks ⦃fl = numbers⦄ stage places
unfolding find count
stage-Tracks = record {
  keyed = λ i a p. ground arith;
  map = scene-Represents;
  absent = λ i p. ground arith;
  listed = λ i j a b p q ne. ground arith;
  self = λ i a p. ground arith;
  strangers = λ i j a p q. ground arith;
}

npc_move-Tracks_example :
    Reaches ⦃fl = numbers⦄
      (npc_move ⦃fl = numbers⦄ 1 stage)
      stage.objects
      (put_at 2 (column 1) places)
unfolding find to_cell_pos
npc_move-Tracks_example =
    npc_move-Tracks ⦃fl = numbers⦄ 1 (column 2) stage places refl stage-Tracks refl (refl, refl)

player_leave_room-Tracks_example :
    Reaches ⦃fl = numbers⦄
      (player_leave_room ⦃fl = numbers⦄ 0 stage)
      (erase 1 stage.objects)
      (take_off 1 places)
unfolding find
player_leave_room-Tracks_example =
    player_leave_room-Tracks ⦃fl = numbers⦄ 0 stage places refl stage-Tracks

player_enter_room-Tracks_example :
    Reaches ⦃fl = numbers⦄
      (player_enter_room ⦃fl = numbers⦄ somewhere 2 stage)
      ((3, 2) ∷ stage.objects)
      (put_at 3 (column 2) places)
unfolding find to_cell_pos
player_enter_room-Tracks_example =
    player_enter_room-Tracks ⦃fl = numbers⦄ somewhere 2
      (record { point_id = pos 1; x = 2; y = 0; z = 0; yaw = 0 }) [] stage places refl refl refl
      refl stage-Tracks (refl, refl)

npc_enter_room-Tracks_example :
    Reaches ⦃fl = numbers⦄
      (npc_enter_room ⦃fl = numbers⦄ somewhere 3 stage)
      ((4, 3) ∷ stage.objects)
      (put_at 4 (column 1) places)
unfolding find to_cell_pos
npc_enter_room-Tracks_example =
    npc_enter_room-Tracks ⦃fl = numbers⦄ somewhere 3 stage places refl refl refl stage-Tracks
      (refl, refl)

-- The player 1 walks from the first column to the third.
player_move-Tracks_example :
    Reaches ⦃fl = numbers⦄
      (player_move ⦃fl = numbers⦄ plain straight 0 (record somewhere { x = 2 }) false stage)
      stage.objects
      (walked ⦃fl = numbers⦄ plain straight 0
        (record somewhere { x = 2 })
        (may_go ⦃fl = numbers⦄ plain straight 0
          (record somewhere { x = 2 })
          (id_to_player ⦃fl = numbers⦄ 1 stage)
          stage)
        stage
        places)
unfolding find to_cell_pos
player_move-Tracks_example =
    player_move-Tracks ⦃fl = numbers⦄ plain straight 0 (record somewhere { x = 2 }) false (column 0)
      stage places refl stage-Tracks refl (λ free. (refl, refl))
