-- ===== src/Game/Updates.antt =====
-- Monster.cpp: following a path and `Monster::Update`; `Room::Update` (Room.cpp).
pub mod Views
pub mod Tracking
use simple_mmo.Prelude.{
  ℕ, suc, Bool, true, false, Option, none, some, List, [], ◌∷◌, ◌&&◌, ◌||◌, not, if◌then◌else◌, leb,
  drop, length, Dict,
}
use simple_mmo.Prelude.Int.{pos, ◌-ℤ◌}
use simple_mmo.Prelude.Options.{◌>>=◌}
use simple_mmo.Game.Floats.{Floats}
use simple_mmo.Game.Objects.{Object, PositionInfo, Vector3, MoveState, is_monster, is_ready, reset}
use simple_mmo.Game.Stat.{is_dead}
use simple_mmo.Game.Navmesh.{Detour}
use simple_mmo.Game.World.{sc_move_object, update, reserve_job, Room, update_at}
use simple_mmo.Game.World.Broadcast.{broadcast_aoi}
use simple_mmo.Game.Monster.{stop_move}
use simple_mmo.Game.Movement.{VectorMath, place_of, move, movable_update}
use simple_mmo.Game.Moves.{npc_move}
use simple_mmo.Game.Patrol.{Rolls}
use simple_mmo.Game.Behavior.{update_ai}

abbrev pub is_run : MoveState → Bool
is_run MoveState.run = true
is_run _ = false

module _ ⦃fl : Floats⦄ where
  open fl use {F, ratio, add, sub, mul, div, lt, le, atan2, of_int, to_int, largest}

  abbrev pub put_object : Object → Object → Object
  put_object new old = new

  abbrev pub tell_move : ℕ → Bool → Room → Room
  tell_move a changed r =
      if changed && (r.heap a).in_room
      then broadcast_aoi a (sc_move_object (r.heap a).info (r.heap a).last_move_time) false r
      else r

  abbrev pub next_corner : Object → Object
  next_corner o = record o { path_index = suc o.path_index }

  abbrev pub set_decision_timer : ℕ → Object → Object
  set_decision_timer now o = record o { ai_decision_timer = reset now 500 }

  -- The room is told where the monster runs.
  unfoldable pub report_run : ℕ → Room → Option Room
  report_run a r =
      if is_run (r.heap a).info.position.state && (r.heap a).in_room then npc_move a r else some r

  module _ (dx : VectorMath) where
    -- `Move` on the object at an address, and its packet.
    abbrev pub step_to : ℕ → Vector3 → Room → Room
    step_to a dest r =
        let (changed, o) = move dx dest (r.heap a) in
        tell_move a changed (update_at a (put_object o) r)

    -- The loop of `FollowPath` over the corners that are left.
    unfoldable pub follow_from : List PositionInfo → ℕ → Room → Room
    follow_from [] a r = stop_move a r
    follow_from (p ∷ ps) a r =
        let here = place_of (r.heap a).info.position in
        let rest = follow_from ps a (update_at a next_corner r) in
        if lt (dx.length (dx.subtract (place_of p) here)) (ratio 50 1)
        then rest
        else step_to a (place_of p) r

    -- Monster::FollowPath
    unfoldable pub follow_path : ℕ → Room → Room
    follow_path a r =
        let o = r.heap a in
        if not o.has_path || leb (length o.path) o.path_index
        then r
        else follow_from (drop o.path_index o.path) a r

    abbrev pub follow_if : ℕ → Room → Room
    follow_if a r = if (r.heap a).has_path then follow_path a r else r

    abbrev pub drift : F → ℕ → Option Room → Option Room
    drift dt a none = none
    drift dt a (some r) = some (update_at a (movable_update dx dt r.now) r)

  module _ (d : Detour) (dx : VectorMath) where
    -- The decision at the beginning of `Monster::Update`.
    unfoldable pub decide : PositionInfo → Rolls → ℕ → Room → Room
    decide blank rolls a r =
        if is_ready r.now (r.heap a).ai_decision_timer
        then update_ai d dx blank rolls a (update_at a (set_decision_timer r.now) r)
        else r

    -- Monster::Update
    unfoldable pub monster_update : PositionInfo → Rolls → F → ℕ → Room → Option Room
    monster_update blank rolls dt a r =
        if is_dead (r.heap a).info.stat.hp
        then some r
        else (if (r.heap a).wake_up
            then drift dx dt a (report_run a (follow_if dx a (decide blank rolls a r)))
            else some r)

    -- The virtual call: Player::Update is that of MovableObject.
    unfoldable pub object_update : PositionInfo → Rolls → F → ℕ → Room → Option Room
    object_update blank rolls dt a r =
        if is_monster (r.heap a).info.object_type
        then monster_update blank rolls dt a r
        else drift dx dt a (some r)

    -- The loop of `Room::Update` over the objects.
    unfoldable pub update_objects : PositionInfo → (ℕ → Rolls) → F → Dict ℕ → Room → Option Room
    update_objects blank rolls dt [] r = some r
    update_objects blank rolls dt ((id, a) ∷ os) r =
        object_update blank (rolls a) dt a r >>= update_objects blank rolls dt os

    -- Room::Update, given when the last update was. The difference of the times is an `int` to the
    -- clock's precision.
    unfoldable pub room_update : PositionInfo → (ℕ → Rolls) → ℕ → Room → Option Room
    room_update blank rolls last_update r =
        update_objects blank rolls (div (of_int (pos r.now -ℤ pos last_update)) (ratio 1000 1))
          r.objects (reserve_job 100 (update r.now) r)
