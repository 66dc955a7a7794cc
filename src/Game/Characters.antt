-- ===== src/Game/Characters.antt =====
-- The table of characters (`CharacterData`, `DataManager` of ServerData.h), and the constructors of
-- Monster.cpp and Player.cpp with those of their base classes.
mod Fresh
use simple_mmo.Prelude.{ℕ, ◌+◌, ◌*◌, false, Option, none, some, [], ◌∷◌, Dict, find}
use simple_mmo.Prelude.Int.{ℤ, pos}
use simple_mmo.Game.Floats.{Floats}
use simple_mmo.Game.Objects.{
  Object, ObjectType, PlayerType, MoveState, MonsterState, PositionInfo, StatInfo, Vector3,
  Cooldown, reset,
}
use simple_mmo.Game.Skills.{SkillData, get_skill_data}
use simple_mmo.Game.Combat.{type_number}

module _ ⦃fl : Floats⦄ where
  open fl use {F, ratio}

  pub record CharacterData : Type 0 where
    pub type_id : ℕ
    pub hp : ℤ
    pub max_hp : ℤ
    pub attack_damage : ℤ
    pub attack_speed : F
    pub move_speed : F

  -- A row of the table, with a number of tenths for the attack speed.
  abbrev character : ℕ → ℕ → ℕ → ℕ → ℕ → ℕ → ℕ × CharacterData
  character id hp max_hp damage speed_tenths move = (
    id,
    record {
      type_id = id;
      hp = pos hp;
      max_hp = pos max_hp;
      attack_damage = pos damage;
      attack_speed = ratio speed_tenths 10;
      move_speed = ratio move 1;
    },
  )

  -- `_characterTable` behind `DataManager::Init`.
  unfoldable pub character_table : Dict CharacterData
  character_table =
      character 1 500 500 40 10 500
      ∷ character 2 450 450 35 11 550
      ∷ character 3 800 800 30 9 450
      ∷ character 4 150 150 20 20 400
      ∷ []

  unfoldable pub get_character_data : ℕ → Option CharacterData
  get_character_data id = find id character_table

  abbrev no_vector : Vector3
  no_vector = record { x = ratio 0 1; y = ratio 0 1; z = ratio 0 1 }

  -- An `ObjectInfo` and a `Cooldown` as they are initialised; the clock's epoch is 0.
  abbrev no_position : PositionInfo
  no_position = record {
    x = ratio 0 1;
    y = ratio 0 1;
    z = ratio 0 1;
    yaw = ratio 0 1;
    v_x = ratio 0 1;
    v_y = ratio 0 1;
    v_z = ratio 0 1;
    state = MoveState.none;
  }

  abbrev no_stat : StatInfo
  no_stat = record {
    max_hp = pos 0;
    hp = pos 0;
    attack_damage = pos 0;
    attack_speed = ratio 0 1;
    move_speed = ratio 0 1;
  }

  abbrev never : Cooldown
  never = record { last_tick = 0; duration_ms = 0 }

  -- An object before the constructor's body, with what the members hold that nothing initialises.
  abbrev pub bare : ObjectType → PositionInfo → F → Object
  bare kind blank range = record {
    info = record {
      id = 0;
      object_type = kind;
      player_type = PlayerType.none;
      position = no_position;
      stat = no_stat;
    };
    last_move_time = 0;
    in_room = false;
    velocity = no_vector;
    move_dir = no_vector;
    current_speed = ratio 0 1;
    max_speed = ratio 500 1;
    view_list = [];
    hit_timer = never;
    session = none;
    is_dummy = false;
    monster_state = MonsterState.none;
    wake_up = false;
    target_player = none;
    ai_decision_timer = never;
    patrol_timer = never;
    attack_timer = never;
    path_search_timer = never;
    path = [];
    path_index = 0;
    has_path = false;
    last_target_pos = blank;
    attack_range = range;
  }

  abbrev pub with_stat : Option CharacterData → Object → Object
  with_stat none o = o
  with_stat (some c) o = record o {
    info = record o.info {
      stat = record {
        max_hp = c.max_hp;
        hp = c.hp;
        attack_damage = c.attack_damage;
        attack_speed = c.attack_speed;
        move_speed = c.move_speed;
      };
    };
  }

  -- The type of a character, its stats, and its speed.
  unfoldable pub as_character : PlayerType → Object → Object
  as_character type o =
      let typed = record o { info = record o.info { player_type = type } } in
      let rated = with_stat (get_character_data (type_number type)) typed in
      record rated { max_speed = rated.info.stat.move_speed }

  abbrev pub with_range : Option SkillData → Object → Object
  with_range none o = o
  with_range (some skill) o = record o { attack_range = skill.radius }

  -- Monster::Monster
  unfoldable pub new_monster : PositionInfo → F → ℕ → Object
  new_monster blank range now =
      let made = as_character PlayerType.monster (bare ObjectType.monster blank range) in
      let ranged = with_range (get_skill_data (type_number PlayerType.monster * 100 + 1)) made in
      record ranged { ai_decision_timer = reset now 0 }

  -- Player::Player
  unfoldable pub new_player : ℕ → PlayerType → PositionInfo → F → Object
  new_player session type blank range =
      record (as_character type (bare ObjectType.player blank range)) { session = some session }
