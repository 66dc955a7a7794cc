-- ===== src/Game/Examples.antt =====
-- Objects and a map for the examples, with numbers for floats.
use simple_mmo.Prelude.{
  ℕ, ◌+◌, ◌-◌, ◌*◌, true, false, none, some, [], ◌∷◌, ltb, leb, ◌==◌, if◌then◌else◌, find, arith,
}
use simple_mmo.Prelude.Int.{pos, pos_part}
use simple_mmo.Game.Removal.{count}
use simple_mmo.Game.View.Symmetry.{Views}
use simple_mmo.Game.Floats.{Floats}
use simple_mmo.Game.Objects.{
  Object, ObjectType, PlayerType, MoveState, MonsterState, Vector3, PositionInfo, Cooldown,
}
use simple_mmo.Game.GameMap.{GameMap}
use simple_mmo.Game.World.{Room}
use simple_mmo.Game.Navmesh.{Detour}
use simple_mmo.Game.Movement.{VectorMath}
use simple_mmo.Game.Patrol.{Rolls}

abbrev pub numbers : Floats
numbers = record {
  F = ℕ;
  ratio = λ a b. a;
  add = λ a b. a + b;
  sub = λ a b. a - b;
  mul = λ a b. a * b;
  div = λ a b. a;
  lt = ltb;
  le = leb;
  eq = λ a b. a == b;
  neg = λ a. a;
  abs = λ a. a;
  sqrt = λ a. a;
  cos = λ a. a;
  sin = λ a. a;
  atan2 = λ a b. a;
  largest = 1000000;
  to_int = pos;
  of_int = pos_part;
}

abbrev pub somewhere : PositionInfo ⦃fl = numbers⦄
somewhere = record {
  x = 0;
  y = 0;
  z = 0;
  yaw = 0;
  v_x = 0;
  v_y = 0;
  v_z = 0;
  state = MoveState.run;
}

abbrev pub still : Vector3 ⦃fl = numbers⦄
still = record { x = 0; y = 0; z = 0 }

abbrev pub ready : Cooldown
ready = record { last_tick = 0; duration_ms = 0 }

-- A mesh without obstacles.
abbrev pub plain : Detour ⦃fl = numbers⦄
plain = record {
  loaded = true;
  find_nearest_poly = λ p extents. (1, p);
  ray = λ poly start end. some 1;
  find_path_polys = λ from to start end. 1 ∷ [];
  find_straight_path = λ start end polys. start ∷ end ∷ [];
  lerp = λ start end t. end;
  dist_sqr = λ p q. 0;
}

-- Vectors that are not turned, scaled or added up.
abbrev pub straight : VectorMath ⦃fl = numbers⦄
straight = record {
  subtract = λ v w. v;
  normalize = λ v. v;
  length = λ v. v.x;
  scale = λ v s. v;
  multiply_add = λ v s w. w;
  to_degrees = λ x. x;
  sum_of_squares = λ x y. x * x + y * y;
}

-- The lower bound of each draw.
abbrev pub low : Rolls ⦃fl = numbers⦄
low i from to = from

abbrev pub object : ℕ → ObjectType → Object ⦃fl = numbers⦄
object id kind = record {
  info = record {
    id = id;
    object_type = kind;
    player_type = PlayerType.sparrow;
    position = somewhere;
    stat = record {
      max_hp = pos 100;
      hp = pos 100;
      attack_damage = pos 5;
      attack_speed = 1;
      move_speed = 1;
    };
  };
  last_move_time = 0;
  in_room = true;
  velocity = still;
  move_dir = still;
  current_speed = 0;
  max_speed = 0;
  view_list = [];
  hit_timer = ready;
  session = some id;
  is_dummy = false;
  monster_state = MonsterState.none;
  wake_up = false;
  target_player = none;
  ai_decision_timer = ready;
  patrol_timer = ready;
  attack_timer = ready;
  path_search_timer = ready;
  path = [];
  path_index = 0;
  has_path = false;
  last_target_pos = somewhere;
  attack_range = 1;
}

abbrev pub small_map : GameMap ⦃fl = numbers⦄
small_map = record {
  cells = record { grid = (([] ∷ []) ∷ []); id_to_cell_pos = []; grid_width = 1; grid_height = 1 };
  min_x = 0;
  max_x = 0;
  min_y = 0;
  max_y = 0;
  spawn_points = [];
}

-- The player 1 stands at address 0, the monster 2 at address 1.
abbrev pub room : Room ⦃fl = numbers⦄
room = record {
  objects = (1, 0) ∷ (2, 1) ∷ [];
  players = (1, 0) ∷ [];
  monsters = (2, 1) ∷ [];
  game_map = small_map;
  heap = λ a. if a == 0 then object 1 ObjectType.player else object 2 ObjectType.monster;
  now = 0;
  sends = [];
  reserved = [];
}

pub room-Views : Views ⦃fl = numbers⦄ room
unfolding find count
room-Views = record {
  keyed = λ i a p. ground arith;
  mutual_views = λ i j a b p q ca cb. ground arith;
  players_only = λ i j a b p q m n. ground arith;
}
