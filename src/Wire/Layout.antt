-- ===== src/Wire/Layout.antt =====
-- The packed structs PositionInfo, StatInfo and ObjectInfo (ProtocolSturct.h) as bytes. An enum is an
-- `int`. The bits of a `float` are a parameter, since they are the processor's.
use simple_mmo.Prelude.{
  ℕ, ◌+◌, ◌<◌, Option, none, some, List, [], ◌∷◌, get_elem?, ◌≡◌, refl, arith, length,
}
use simple_mmo.Prelude.Options.{◌>>=◌}
use simple_mmo.Prelude.Int.{ℤ, pos, negsuc}
use simple_mmo.Game.Floats.{Floats}
use simple_mmo.Game.Objects.{MoveState, ObjectType, PlayerType, PositionInfo, StatInfo, ObjectInfo}
use simple_mmo.Wire.Bytes.{
  Reader, Writer, two_31, two_32, IsInt, write_u32, read_u32, write_int, read_int,
  read_u32-write_u32, read_int-write_int, length-write_u32, length-write_int,
}

-- The 32 bits of a `float`, and the float of 32 bits.
pub record FloatBits ⦃fl : Floats⦄ : Type 0 where
  pub to_bits : fl.F → ℕ
  pub of_bits : ℕ → fl.F
  pub bits_small : (x : fl.F) → to_bits x < two_32
  pub of_bits-to_bits : (x : fl.F) → of_bits (to_bits x) ≡ x

abbrev pub move_state_code : MoveState → ℕ
move_state_code MoveState.none = 0
move_state_code MoveState.idle = 1
move_state_code MoveState.run = 2
move_state_code MoveState.jump = 3
move_state_code MoveState.attack = 4

abbrev pub object_type_code : ObjectType → ℕ
object_type_code ObjectType.none = 0
object_type_code ObjectType.player = 1
object_type_code ObjectType.monster = 2
object_type_code ObjectType.npc = 3
object_type_code ObjectType.item = 4
object_type_code ObjectType.environment = 5

abbrev pub player_type_code : PlayerType → ℕ
player_type_code PlayerType.none = 0
player_type_code PlayerType.greystone = 1
player_type_code PlayerType.sparrow = 2
player_type_code PlayerType.gideon = 3
player_type_code PlayerType.monster = 4

-- A number that is no constructor's is refused.
abbrev pub move_state_of : ℕ → Option MoveState
move_state_of n =
    get_elem?
      (MoveState.none ∷ MoveState.idle ∷ MoveState.run ∷ MoveState.jump ∷ MoveState.attack ∷ []) n

abbrev pub object_type_of : ℕ → Option ObjectType
object_type_of n =
    get_elem?
      (ObjectType.none ∷ ObjectType.player ∷ ObjectType.monster ∷ ObjectType.npc ∷ ObjectType.item
        ∷ ObjectType.environment ∷ [])
      n

abbrev pub player_type_of : ℕ → Option PlayerType
player_type_of n =
    get_elem?
      (PlayerType.none ∷ PlayerType.greystone ∷ PlayerType.sparrow ∷ PlayerType.gideon
        ∷ PlayerType.monster ∷ [])
      n

-- A non-negative `int`, as an id and the number of an enum are.
abbrev pub IsId : ℕ → Type 0
IsId n = n < two_31

unfoldable pub write_id : Writer ℕ
write_id n rest = write_int (pos n) rest

abbrev id_of : ℤ → List ℕ → Option (ℕ × List ℕ)
id_of (pos n) rest = some (n, rest)
id_of (negsuc n) rest = none

unfoldable pub read_id : Reader ℕ
read_id bytes = do (z, rest) ← read_int bytes; id_of z rest

pub read_id-write_id : (n : ℕ) (rest : List ℕ) → IsId n → read_id (write_id n rest) ≡ some (n, rest)
unfolding read_id write_id
read_id-write_id n rest h = rw (read_int-write_int (pos n) rest h) refl

pub length-write_id : (n : ℕ) (rest : List ℕ) → length (write_id n rest) ≡ 4 + length rest
unfolding write_id
length-write_id n rest = length-write_int (pos n) rest

-- An enum by the number of its constructor.
unfoldable pub as_enum : {A : Type 0} → (ℕ → Option A) → Reader A
as_enum of bytes = do (n, rest) ← read_id bytes; a ← of n; some (a, rest)

as_enum-write_id :
    {A : Type 0}
    → (of : ℕ → Option A) (n : ℕ) (a : A) (rest : List ℕ) → IsId n
    → of n ≡ some a
    → as_enum of (write_id n rest) ≡ some (a, rest)
unfolding as_enum
as_enum-write_id of n a rest h e = rw (read_id-write_id n rest h, e) refl

move_state_back :
    (c : MoveState) (rest : List ℕ)
    → as_enum move_state_of (write_id (move_state_code c) rest) ≡ some (c, rest)
move_state_back MoveState.none rest =
    as_enum-write_id move_state_of 0 MoveState.none rest (omega arith) refl
move_state_back MoveState.idle rest =
    as_enum-write_id move_state_of 1 MoveState.idle rest (omega arith) refl
move_state_back MoveState.run rest =
    as_enum-write_id move_state_of 2 MoveState.run rest (omega arith) refl
move_state_back MoveState.jump rest =
    as_enum-write_id move_state_of 3 MoveState.jump rest (omega arith) refl
move_state_back MoveState.attack rest =
    as_enum-write_id move_state_of 4 MoveState.attack rest (omega arith) refl

object_type_back :
    (c : ObjectType) (rest : List ℕ)
    → as_enum object_type_of (write_id (object_type_code c) rest) ≡ some (c, rest)
object_type_back ObjectType.none rest =
    as_enum-write_id object_type_of 0 ObjectType.none rest (omega arith) refl
object_type_back ObjectType.player rest =
    as_enum-write_id object_type_of 1 ObjectType.player rest (omega arith) refl
object_type_back ObjectType.monster rest =
    as_enum-write_id object_type_of 2 ObjectType.monster rest (omega arith) refl
object_type_back ObjectType.npc rest =
    as_enum-write_id object_type_of 3 ObjectType.npc rest (omega arith) refl
object_type_back ObjectType.item rest =
    as_enum-write_id object_type_of 4 ObjectType.item rest (omega arith) refl
object_type_back ObjectType.environment rest =
    as_enum-write_id object_type_of 5 ObjectType.environment rest (omega arith) refl

player_type_back :
    (c : PlayerType) (rest : List ℕ)
    → as_enum player_type_of (write_id (player_type_code c) rest) ≡ some (c, rest)
player_type_back PlayerType.none rest =
    as_enum-write_id player_type_of 0 PlayerType.none rest (omega arith) refl
player_type_back PlayerType.greystone rest =
    as_enum-write_id player_type_of 1 PlayerType.greystone rest (omega arith) refl
player_type_back PlayerType.sparrow rest =
    as_enum-write_id player_type_of 2 PlayerType.sparrow rest (omega arith) refl
player_type_back PlayerType.gideon rest =
    as_enum-write_id player_type_of 3 PlayerType.gideon rest (omega arith) refl
player_type_back PlayerType.monster rest =
    as_enum-write_id player_type_of 4 PlayerType.monster rest (omega arith) refl

module _ ⦃fl : Floats⦄ ⦃bits : FloatBits⦄ where
  open fl use {F}

  unfoldable pub write_float : Writer F
  write_float x rest = write_u32 (bits.to_bits x) rest

  unfoldable pub read_float : Reader F
  read_float bytes = do (n, rest) ← read_u32 bytes; some (bits.of_bits n, rest)

  unfoldable pub write_position : Writer PositionInfo
  write_position p rest = write_float p.x (
      write_float p.y (
        write_float p.z (
          write_float p.yaw (
            write_float p.v_x
              (write_float p.v_y (write_float p.v_z (write_id (move_state_code p.state) rest)))))))

  unfoldable pub read_position : Reader PositionInfo
  read_position b0 = do
    (x, b1) ← read_float b0
    (y, b2) ← read_float b1
    (z, b3) ← read_float b2
    (yaw, b4) ← read_float b3
    (v_x, b5) ← read_float b4
    (v_y, b6) ← read_float b5
    (v_z, b7) ← read_float b6
    (state, b8) ← as_enum move_state_of b7
    some (
      record { x = x; y = y; z = z; yaw = yaw; v_x = v_x; v_y = v_y; v_z = v_z; state = state },
      b8,
    )

  unfoldable pub write_stat : Writer StatInfo
  write_stat s rest = write_int s.max_hp (
      write_int s.hp
        (write_int s.attack_damage (write_float s.attack_speed (write_float s.move_speed rest))))

  unfoldable pub read_stat : Reader StatInfo
  read_stat b0 = do
    (max_hp, b1) ← read_int b0
    (hp, b2) ← read_int b1
    (attack_damage, b3) ← read_int b2
    (attack_speed, b4) ← read_float b3
    (move_speed, b5) ← read_float b4
    some (
      record {
        max_hp = max_hp;
        hp = hp;
        attack_damage = attack_damage;
        attack_speed = attack_speed;
        move_speed = move_speed;
      },
      b5,
    )

  unfoldable pub write_info : Writer ObjectInfo
  write_info o rest = write_id o.id (
      write_id (object_type_code o.object_type) (
        write_id (player_type_code o.player_type)
          (write_position o.position (write_stat o.stat rest))))

  unfoldable pub read_info : Reader ObjectInfo
  read_info b0 = do
    (id, b1) ← read_id b0
    (object_type, b2) ← as_enum object_type_of b1
    (player_type, b3) ← as_enum player_type_of b2
    (position, b4) ← read_position b3
    (stat, b5) ← read_stat b4
    some (
      record {
        id = id;
        object_type = object_type;
        player_type = player_type;
        position = position;
        stat = stat;
      },
      b5,
    )

  -- The numbers of an object are values of `int`.
  pub record IsWritable (o : ObjectInfo) : Type 0 where
    pub id : IsId o.id
    pub max_hp : IsInt o.stat.max_hp
    pub hp : IsInt o.stat.hp
    pub attack_damage : IsInt o.stat.attack_damage

  read_float-write_float :
      (x : F) (rest : List ℕ) → read_float (write_float x rest) ≡ some (x, rest)
  unfolding read_float write_float
  read_float-write_float x rest =
      rw (read_u32-write_u32 (bits.to_bits x) rest (bits.bits_small x), bits.of_bits-to_bits x) refl

  pub read_position-write_position :
      (p : PositionInfo) (rest : List ℕ) → read_position (write_position p rest) ≡ some (p, rest)
  unfolding read_position write_position
  read_position-write_position p rest = simp (read_float-write_float, move_state_back) refl

  read_stat-write_stat :
      (s : StatInfo) (rest : List ℕ)
      → IsInt s.max_hp
      → IsInt s.hp
      → IsInt s.attack_damage
      → read_stat (write_stat s rest) ≡ some (s, rest)
  unfolding read_stat write_stat
  read_stat-write_stat s rest a b c =
      rw
        (
          read_int-write_int s.max_hp _ a,
          read_int-write_int s.hp _ b,
          read_int-write_int s.attack_damage _ c,
        )
        (simp read_float-write_float refl)

  pub read_info-write_info :
      (o : ObjectInfo) (rest : List ℕ)
      → IsWritable o
      → read_info (write_info o rest) ≡ some (o, rest)
  unfolding read_info write_info
  read_info-write_info o rest h = rw (read_id-write_id o.id _ h.id) (
      simp
        (
          read_position-write_position,
          object_type_back,
          player_type_back,
          read_stat-write_stat o.stat rest h.max_hp h.hp h.attack_damage,
        )
        refl)

  length-write_float : (x : F) (rest : List ℕ) → length (write_float x rest) ≡ 4 + length rest
  unfolding write_float
  length-write_float x rest = length-write_u32 (bits.to_bits x) rest

  -- `sizeof(ObjectInfo)`
  pub length-write_info :
      (o : ObjectInfo) (rest : List ℕ) → length (write_info o rest) ≡ 64 + length rest
  unfolding write_info write_position write_stat
  length-write_info o rest =
      simp (length-write_id, length-write_float, length-write_int) (omega arith)
