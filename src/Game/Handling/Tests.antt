-- ===== src/Game/Handling/Tests.antt =====
-- A room that runs some jobs.
use simple_mmo.Prelude.{
  ℕ, true, false, some, List, [], ◌∷◌, inr, ◌==◌, if◌then◌else◌, ◌≡◌, refl, find, arith,
}
use simple_mmo.Prelude.Int.{pos, ◌+ℤ◌}
use simple_mmo.Game.Examples.{numbers, somewhere, plain, straight, low, small_map, object}
use simple_mmo.Game.Objects.{Object, ObjectType}
use simple_mmo.Game.GameMap.{GameMap, SpawnPoint, to_cell_pos}
use simple_mmo.Game.GameMap.Loading.{Bounds, widen, with_grid, load_grid, load_map_data}
use simple_mmo.Game.GameMap.Scenes.{places, column}
use simple_mmo.Game.World.{execute_skill_hit}
use simple_mmo.Game.Moves.Placed.{Placed, IsDistinct}
use simple_mmo.Game.Moves.Scenes.{stage, stage-Tracks}
use simple_mmo.Game.Moves.Tracked.{Tracked}
use simple_mmo.Game.Handling.{
  Request, player_enters, player_moves, attacks, fires, new_room, execute_jobs,
}
use simple_mmo.Game.Handling.Opening.{loaded_room-Tracked}
use simple_mmo.Game.Handling.Tracking.{AllowedAlong, EndsTracked, execute_jobs-Tracked}

stage-Placed : Placed stage.objects places
unfolding IsDistinct find
stage-Placed = record {
  distinct = (refl, (refl, tt));
  place = λ i a p. (if i == 1 then column 0 else column 2, ground arith);
}

stage-Tracked : Tracked ⦃fl = numbers⦄ stage
stage-Tracked = (places, stage-Tracks, stage-Placed)

-- The player 1 walks to the monster 2, which attacks and hits.
abbrev jobs : List (ℕ × Request ⦃fl = numbers⦄)
jobs =
    (0, player_moves 0 (record somewhere { x = 2 }) false)
    ∷ (5, attacks 1 0 1)
    ∷ (505, fires somewhere (λ a. low) (execute_skill_hit 2 401 1))
    ∷ []

jobs-AllowedAlong : AllowedAlong ⦃fl = numbers⦄ plain straight jobs stage
unfolding AllowedAlong find to_cell_pos
jobs-AllowedAlong = (inr (refl, λ free. (refl, refl)), λ r' e. (tt, λ r'' e'. (tt, λ r''' e''. tt)))

execute_jobs-Tracked_example :
    EndsTracked ⦃fl = numbers⦄ plain straight
      (execute_jobs ⦃fl = numbers⦄ plain straight jobs stage)
execute_jobs-Tracked_example =
    execute_jobs-Tracked ⦃fl = numbers⦄ plain straight jobs stage stage-Tracked jobs-AllowedAlong

-- A mesh that is one point, so that its map has 1001 columns and rows for these floats.
abbrev point : Bounds ⦃fl = numbers⦄
point = record { min_x = 0; max_x = 0; min_y = 0; max_y = 0 }

abbrev start : SpawnPoint ⦃fl = numbers⦄
start = record { point_id = pos 1; x = 2; y = 0; z = 0; yaw = 0 }

abbrev blank_map : GameMap ⦃fl = numbers⦄
blank_map = record small_map {
  cells = record { grid = []; id_to_cell_pos = []; grid_width = 0; grid_height = 0 };
}

abbrev loaded : GameMap ⦃fl = numbers⦄
loaded = record (with_grid ⦃fl = numbers⦄ (widen ⦃fl = numbers⦄ point) 1001 1001 blank_map) {
  spawn_points = start ∷ [];
}

loads :
    load_map_data ⦃fl = numbers⦄ (some point) (some (start ∷ [])) blank_map ≡ some (true, loaded)
unfolding load_map_data load_grid ◌+ℤ◌
loads = refl

abbrev newcomer : ℕ → Object ⦃fl = numbers⦄
newcomer a = object 1 ObjectType.player

-- A player enters, and strikes at nobody.
abbrev first_jobs : List (ℕ × Request ⦃fl = numbers⦄)
first_jobs = (0, player_enters somewhere 0) ∷ (5, attacks 0 0 2) ∷ []

first_jobs-AllowedAlong :
    AllowedAlong ⦃fl = numbers⦄ plain straight first_jobs (new_room ⦃fl = numbers⦄ loaded newcomer)
unfolding AllowedAlong find to_cell_pos
first_jobs-AllowedAlong = ((refl, (refl, refl), (refl, refl)), λ r' e. (tt, λ r'' e'. tt))

loaded_room-Tracked_example : EndsTracked ⦃fl = numbers⦄ plain straight (
    execute_jobs ⦃fl = numbers⦄ plain straight first_jobs (new_room ⦃fl = numbers⦄ loaded newcomer))
loaded_room-Tracked_example =
    loaded_room-Tracked ⦃fl = numbers⦄ plain straight point (some (start ∷ [])) blank_map loaded
      true newcomer first_jobs refl loads first_jobs-AllowedAlong
