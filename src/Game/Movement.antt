-- ===== src/Game/Movement.antt =====
-- MovableObject::Move, ApplyMovement and Update (GameObject.cpp). The functions of DirectXMath on
-- vectors are a parameter.
use simple_mmo.Prelude.{ℕ, ◌%◌, ◌^◌, Bool, ◌||◌, if◌then◌else◌}
use simple_mmo.Game.Floats.{Floats}
use simple_mmo.Game.Objects.{Object, PositionInfo, MoveState, Vector3}

module _ ⦃fl : Floats⦄ where
  open fl use {F, ratio, sub, mul, lt, le, abs, atan2}

  -- XMVectorSubtract, XMVector3Normalize, XMVector3Length, XMVectorScale, XMVectorMultiplyAdd with
  -- a replicated factor, and XMConvertToDegrees; also `pow(a, 2) + pow(b, 2)`, which the C++ takes in
  -- double precision and rounds.
  pub record VectorMath : Type 0 where
    pub subtract : Vector3 → Vector3 → Vector3
    pub normalize : Vector3 → Vector3
    pub length : Vector3 → F
    pub scale : Vector3 → F → Vector3
    pub multiply_add : Vector3 → F → Vector3 → Vector3
    pub to_degrees : F → F
    pub sum_of_squares : F → F → F

  -- The place of a `PositionInfo`, as a vector.
  abbrev pub place_of : PositionInfo → Vector3
  place_of p = record { x = p.x; y = p.y; z = p.z }

  abbrev pub at_place : Vector3 → PositionInfo → PositionInfo
  at_place v p = record p { x = v.x; y = v.y; z = v.z }

  -- The velocity that goes into the packets.
  abbrev pub at_speed : Vector3 → PositionInfo → PositionInfo
  at_speed v p = record p { v_x = v.x; v_y = v.y; v_z = v.z }

  abbrev pub far_apart : F → F → Bool
  far_apart a b = lt (ratio 1 100) (abs (sub a b))

  abbrev pub dir_changed : Vector3 → Vector3 → Bool
  dir_changed old new = far_apart old.x new.x || far_apart old.y new.y || far_apart old.z new.z

  module _ (dx : VectorMath) where
    abbrev pub run_towards : Vector3 → Object → Object
    run_towards dir o =
        let v : Vector3 = record {
          x = mul dir.x o.max_speed;
          y = mul dir.y o.max_speed;
          z = mul dir.z o.max_speed;
        } in
        record o {
          move_dir = dir;
          current_speed = o.max_speed;
          velocity = v;
          info = record o.info {
            position = record (at_speed v o.info.position) {
              yaw = dx.to_degrees (atan2 dir.y dir.x);
              state = MoveState.run;
            };
          };
        }

    -- MovableObject::Move: whether the direction has changed, and the object.
    unfoldable pub move : Vector3 → Object → Bool × Object
    move dest o =
        let dir = dx.normalize (dx.subtract dest (place_of o.info.position)) in
        (dir_changed o.move_dir dir, run_towards dir o)

    abbrev pub advance : F → ℕ → Object → Object
    advance dt now o =
        let v = dx.scale o.move_dir o.current_speed in
        let next = dx.multiply_add v dt (place_of o.info.position) in
        record o {
          velocity = v;
          info = record o.info { position = at_speed v (at_place next o.info.position) };
          last_move_time = now % 2 ^ 32;
        }

    -- MovableObject::ApplyMovement
    unfoldable pub apply_movement : F → ℕ → Object → Object
    apply_movement dt now o = if le o.current_speed (ratio 0 1) then o else advance dt now o

    -- MovableObject::Update, which Character and Player inherit.
    unfoldable pub movable_update : F → ℕ → Object → Object
    movable_update dt now o = if le dt (ratio 0 1) then o else apply_movement dt now o
