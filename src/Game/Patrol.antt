-- ===== src/Game/Patrol.antt =====
-- Monster.cpp: `SetPath` and what a patrolling monster does, with `GameMap::GetRandomPosInCell`
-- (GameMap.cpp). Random numbers are an argument, the draw and its bounds to its value; so is what a
-- `PositionInfo` that was not initialised holds.
use simple_mmo.Prelude.{
  ℕ, zero, suc, ◌+◌, ◌*◌, Bool, true, false, Option, none, some, List, [], ◌∷◌, ◌&&◌, not,
  if◌then◌else◌,
}
use simple_mmo.Prelude.Int.{ℤ, pos, negsuc}
use simple_mmo.Game.Floats.{Floats}
use simple_mmo.Game.Objects.{
  Object, PositionInfo, MoveState, MonsterState, is_player, is_ready, reset,
}
use simple_mmo.Game.Stat.{is_dead}
use simple_mmo.Game.Navmesh.{Detour, can_move, find_path}
use simple_mmo.Game.GameMap.{GameMap, to_cell_pos}
use simple_mmo.Game.World.{Room, update_at, get_game_object}
use simple_mmo.Game.Monster.{stop_move, change_state}
use simple_mmo.Game.Damage.{set_target}

-- `cellPos.x * CELL_SIZE`
abbrev pub times_cell_size : ℤ → ℤ
times_cell_size (pos n) = pos (n * 1000)
times_cell_size (negsuc n) = negsuc (n * 1000 + 999)

module _ ⦃fl : Floats⦄ where
  open fl use {F, ratio, add, sub, mul, div, lt, le, atan2, of_int, to_int, largest}

  -- The value of each draw between two bounds.
  abbrev pub Rolls : Type 0
  Rolls = ℕ → F → F → F

  abbrev pub in_cell : F → F → ℕ → Rolls → F
  in_cell min margin i rolls = rolls i (add min margin) (sub (add min (ratio 1000 1)) margin)

  abbrev pub dist_sq : Object → Object → F
  dist_sq o target =
      let dx = sub target.info.position.x o.info.position.x in
      let dy = sub target.info.position.y o.info.position.y in add (mul dx dx) (mul dy dy)

  -- `_traceRange * _traceRange`
  abbrev pub trace_range_sq : F
  trace_range_sq = mul (ratio 800 1) (ratio 800 1)

  -- Monster::SetPath
  abbrev pub take_path : List PositionInfo → Object → Object
  take_path path o = record o { path = path; path_index = 0 }

  abbrev pub start_path : Object → Object
  start_path o = record o {
    has_path = true;
    info = record o.info { position = record o.info.position { state = MoveState.run } };
  }

  abbrev pub is_empty_path : List PositionInfo → Bool
  is_empty_path [] = true
  is_empty_path (p ∷ ps) = false

  unfoldable pub set_path : ℕ → List PositionInfo → Room → Room
  set_path a path r =
      let r' = update_at a (take_path path) r in
      if is_empty_path path then stop_move a r' else update_at a start_path r'

  -- The closest player in reach, with the squared distance.
  abbrev pub Closest : Type 0
  Closest = Option ℕ × F

  abbrev pub closer : Object → ℕ → Room → Closest → Closest
  closer o a r (best, min) =
      let there = dist_sq o (r.heap a) in
      if is_player (r.heap a).info.object_type
        && (lt there min && (le there trace_range_sq && not (is_dead (r.heap a).info.stat.hp)))
      then (some a, there)
      else (best, min)

  abbrev pub closer_found : Object → Option ℕ → Room → Closest → Closest
  closer_found o none r best = best
  closer_found o (some a) r best = closer o a r best

  -- The loop over the view list in `UpdatePatrol`.
  unfoldable pub closest_player : Object → List ℕ → Room → Closest → Closest
  closest_player o [] r best = best
  closest_player o (id ∷ ids) r best =
      closest_player o ids r (closer_found o (get_game_object id r) r best)

  abbrev pub set_patrol_timer : ℕ → ℕ → Object → Object
  set_patrol_timer now ms o = record o { patrol_timer = reset now ms }

  abbrev pub walk : ℕ → Bool × List PositionInfo → Room → Room
  walk a (false, path) r = update_at a (set_patrol_timer r.now 500) r
  walk a (true, path) r = update_at a (set_patrol_timer r.now 1000) (set_path a path r)

  module _ (d : Detour) where
    -- The loop of `GetRandomPosInCell`, with the tries left and the draws made.
    unfoldable pub random_pos_from : ℕ → ℕ → F → F → Rolls → PositionInfo → PositionInfo
    random_pos_from zero draws min_x min_y rolls p = p
    random_pos_from (suc tries) draws min_x min_y rolls p =
        let dest : PositionInfo = record {
          x = in_cell min_x (ratio 50 1) draws rolls;
          y = in_cell min_y (ratio 50 1) (draws + 1) rolls;
          z = p.z;
          yaw = ratio 0 1;
          v_x = ratio 0 1;
          v_y = ratio 0 1;
          v_z = ratio 0 1;
          state = MoveState.none;
        } in
        let rest = random_pos_from tries (draws + 2) min_x min_y rolls p in
        if can_move d p dest then dest else rest

    -- GameMap::GetRandomPosInCell
    unfoldable pub get_random_pos_in_cell : Rolls → PositionInfo → GameMap → PositionInfo
    get_random_pos_in_cell rolls p m =
        let c = to_cell_pos p m in
        random_pos_from 10 0 (add m.min_x (of_int (times_cell_size c.x)))
          (add m.min_y (of_int (times_cell_size c.y))) rolls p

    abbrev pub stroll : PositionInfo → Rolls → ℕ → Room → Room
    stroll blank rolls a r =
        let p = (r.heap a).info.position in
        if not (r.heap a).has_path && is_ready r.now (r.heap a).patrol_timer
        then walk a (find_path d blank p (get_random_pos_in_cell rolls p r.game_map) []) r
        else r

    abbrev pub hunt : PositionInfo → Rolls → ℕ → Option ℕ → Room → Room
    hunt blank rolls a none r = stroll blank rolls a r
    hunt blank rolls a (some target) r =
        change_state a MonsterState.trace (update_at a (set_target (some target)) r)

    -- Monster::UpdatePatrol
    unfoldable pub update_patrol : PositionInfo → Rolls → ℕ → Room → Room
    update_patrol blank rolls a r =
        let o = r.heap a in
        let (closest, _) = closest_player o o.view_list r (none, largest) in
        if o.in_room then hunt blank rolls a closest r else r
