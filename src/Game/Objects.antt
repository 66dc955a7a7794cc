-- ===== src/Game/Objects.antt =====
-- ProtocolSturct.h, GameObject.h, Character.h, Player.h, Monster.h, Utils.h (`Cooldown`): the data
-- of the game. A class hierarchy is one record, and a field is meant for objects whose class has
-- it. Ids come from counters and are never negative; hit points are C++ `int`s that do not overflow.
use simple_mmo.Prelude.{ℕ, ◌-◌, Bool, Option, List, leb}
use simple_mmo.Prelude.Int.{ℤ}
use simple_mmo.Game.Floats.{Floats}

pub data MoveState : Type 0 where
  none idle run jump attack : MoveState

pub data ObjectType : Type 0 where
  none player monster npc item environment : ObjectType

pub data PlayerType : Type 0 where
  none greystone sparrow gideon monster : PlayerType

pub data MonsterState : Type 0 where
  none patrol trace attack hit : MonsterState

-- Utils.h. The clock is in milliseconds and does not run backwards.
pub record Cooldown : Type 0 where
  pub last_tick : ℕ
  pub duration_ms : ℕ

abbrev pub is_ready : ℕ → Cooldown → Bool
is_ready now c = leb c.duration_ms (now - c.last_tick)

abbrev pub reset : ℕ → ℕ → Cooldown
reset now duration = record { last_tick = now; duration_ms = duration }

module _ ⦃fl : Floats⦄ where
  open fl use {F}

  pub record PositionInfo : Type 0 where
    pub x : F
    pub y : F
    pub z : F
    pub yaw : F
    pub v_x : F
    pub v_y : F
    pub v_z : F
    pub state : MoveState

  pub record StatInfo : Type 0 where
    pub max_hp : ℤ
    pub hp : ℤ
    pub attack_damage : ℤ
    pub attack_speed : F
    pub move_speed : F

  pub record ObjectInfo : Type 0 where
    pub id : ℕ
    pub object_type : ObjectType
    pub player_type : PlayerType
    pub position : PositionInfo
    pub stat : StatInfo

  pub record Vector3 : Type 0 where
    pub x : F
    pub y : F
    pub z : F

  -- GameObject, MovableObject, Character; then Player; then Monster.
  pub record Object : Type 0 where
    pub info : ObjectInfo
    pub last_move_time : ℕ
    -- whether the weak pointer to the owner room gives the room
    pub in_room : Bool
    pub velocity : Vector3
    pub move_dir : Vector3
    pub current_speed : F
    pub max_speed : F
    pub view_list : List ℕ
    pub hit_timer : Cooldown
    -- the session that the weak pointer gives
    pub session : Option ℕ
    pub is_dummy : Bool
    pub monster_state : MonsterState
    pub wake_up : Bool
    -- the address of the target that the weak pointer gives
    pub target_player : Option ℕ
    pub ai_decision_timer : Cooldown
    pub patrol_timer : Cooldown
    pub attack_timer : Cooldown
    pub path_search_timer : Cooldown
    pub path : List PositionInfo
    pub path_index : ℕ
    pub has_path : Bool
    pub last_target_pos : PositionInfo
    pub attack_range : F

abbrev pub is_player : ObjectType → Bool
is_player ObjectType.player = Bool.true
is_player _ = Bool.false

abbrev pub is_monster : ObjectType → Bool
is_monster ObjectType.monster = Bool.true
is_monster _ = Bool.false

abbrev pub is_idle : MoveState → Bool
is_idle MoveState.idle = Bool.true
is_idle _ = Bool.false

-- `==` on MonsterState.
abbrev pub same_state : MonsterState → MonsterState → Bool
same_state MonsterState.none MonsterState.none = Bool.true
same_state MonsterState.patrol MonsterState.patrol = Bool.true
same_state MonsterState.trace MonsterState.trace = Bool.true
same_state MonsterState.attack MonsterState.attack = Bool.true
same_state MonsterState.hit MonsterState.hit = Bool.true
same_state _ _ = Bool.false
