-- ===== src/Game/Monster.antt =====
-- Monster.cpp: stopping, state changes, falling asleep and waking up. The object stands at an
-- address of the room's heap; where it has no room, nothing is broadcast.
use simple_mmo.Prelude.{ℕ, Bool, true, false, List, [], ◌∷◌, if◌then◌else◌}
use simple_mmo.Game.Floats.{Floats}
use simple_mmo.Game.Objects.{Object, MoveState, MonsterState, is_idle, same_state, reset, Vector3}
use simple_mmo.Game.Stat.{is_dead}
use simple_mmo.Game.World.{sc_move_object, Room, update_at}
use simple_mmo.Game.World.Broadcast.{broadcast_aoi}

abbrev pub is_empty : List ℕ → Bool
is_empty [] = true
is_empty (x ∷ xs) = false

module _ ⦃fl : Floats⦄ where
  open fl use {F, ratio}

  abbrev zero_vector : Vector3
  zero_vector = record { x = ratio 0 1; y = ratio 0 1; z = ratio 0 1 }

  -- MovableObject::StopMove (GameObject.cpp) on an object that is not idle.
  abbrev pub halt : Object → Object
  halt o = record o {
    current_speed = ratio 0 1;
    velocity = zero_vector;
    move_dir = zero_vector;
    info = record o.info {
      position = record o.info.position {
        v_x = ratio 0 1;
        v_y = ratio 0 1;
        v_z = ratio 0 1;
        state = MoveState.idle;
      };
    };
  }

  unfoldable pub movable_stop_move : Object → Object
  movable_stop_move o = if is_idle o.info.position.state then o else halt o

  abbrev pub drop_path : Object → Object
  drop_path o = movable_stop_move (record o { has_path = false })

  -- Monster::StopMove
  unfoldable pub stop_move : ℕ → Room → Room
  stop_move a r =
      if is_idle (r.heap a).info.position.state
      then r
      else (let r' = update_at a drop_path r in
          let o' = r'.heap a in
          if o'.in_room
          then broadcast_aoi a (sc_move_object o'.info o'.last_move_time) false r'
          else r')

  abbrev pub reset_timer : MonsterState → ℕ → Object → Object
  reset_timer MonsterState.trace now o = record o { path_search_timer = reset now 0 }
  reset_timer MonsterState.patrol now o = record o { patrol_timer = reset now 1000 }
  reset_timer _ now o = o

  abbrev pub enter_state : MonsterState → ℕ → Object → Object
  enter_state s now o = reset_timer s now (record o { monster_state = s })

  -- Monster::ChangeState
  unfoldable pub change_state : ℕ → MonsterState → Room → Room
  change_state a new_state r =
      if same_state (r.heap a).monster_state new_state
      then r
      else update_at a (enter_state new_state r.now) (stop_move a r)

  abbrev pub set_awake : Bool → Object → Object
  set_awake b o = record o { wake_up = b }

  -- Monster::WakeUpByPlayer
  unfoldable pub wake_up_by_player : ℕ → Room → Room
  wake_up_by_player a r =
      if is_dead (r.heap a).info.stat.hp
      then r
      else (if (r.heap a).wake_up
          then r
          else change_state a MonsterState.patrol (update_at a (set_awake true) r))

  -- Monster::SleepIfNoPlayer
  unfoldable pub sleep_if_no_player : ℕ → Room → Room
  sleep_if_no_player a r =
      if is_dead (r.heap a).info.stat.hp
      then r
      else (if is_empty (r.heap a).view_list
          then change_state a MonsterState.none (update_at a (set_awake false) r)
          else r)
