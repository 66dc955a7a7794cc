-- ===== src/Game/Skills.antt =====
-- ServerData.h: the skills (`SkillData`, `DataManager`), and the hit shapes of Utils.h (`MathUtils`).
use simple_mmo.Prelude.{ℕ, Bool, true, false, Option, [], ◌∷◌, ◌||◌, if◌then◌else◌, Dict, find}
use simple_mmo.Prelude.Int.{ℤ, pos}
use simple_mmo.Game.Floats.{Floats}
use simple_mmo.Game.Objects.{PositionInfo}

pub data HitShape : Type 0 where
  sector line projectile : HitShape

module _ ⦃fl : Floats⦄ where
  open fl use {F, ratio, add, sub, mul, div, lt, le, eq, sqrt, cos, sin}

  pub record SkillData : Type 0 where
    pub skill_id : ℕ
    pub hit_shape : HitShape
    pub hit_delay_ms : ℕ
    pub cooldown_ms : ℕ
    pub radius : F
    pub angle : F
    pub range : F
    pub width : F
    pub base_damage : ℤ
    pub proj_speed : F

  -- A row of the table, with whole numbers for its floats.
  abbrev skill : ℕ → HitShape → ℕ → ℕ → ℕ → ℕ → ℕ → ℕ → ℕ → ℕ → ℕ × SkillData
  skill id shape delay cooldown radius angle range width damage speed = (
    id,
    record {
      skill_id = id;
      hit_shape = shape;
      hit_delay_ms = delay;
      cooldown_ms = cooldown;
      radius = ratio radius 1;
      angle = ratio angle 1;
      range = ratio range 1;
      width = ratio width 1;
      base_damage = pos damage;
      proj_speed = ratio speed 1;
    },
  )

  -- `_skillTable` behind `DataManager::Init`.
  unfoldable pub skill_table : Dict SkillData
  skill_table =
      skill 101 HitShape.projectile 300 1230 0 0 1500 120 40 1500
      ∷ skill 201 HitShape.projectile 200 1000 0 0 1800 80 35 3000
      ∷ skill 301 HitShape.sector 250 1670 200 120 0 0 50 0
      ∷ skill 401 HitShape.sector 400 2000 170 150 0 0 60 0
      ∷ []

  unfoldable pub get_skill_data : ℕ → Option SkillData
  get_skill_data id = find id skill_table

  abbrev radians_per_degree : F
  radians_per_degree = div (ratio 314159265 100000000) (ratio 180 1)

  -- MathUtils::CheckSector
  unfoldable pub check_sector : PositionInfo → PositionInfo → F → F → Bool
  check_sector origin target radius angle =
      let dx = sub target.x origin.x in
      let dy = sub target.y origin.y in
      let dist_sq = add (mul dx dx) (mul dy dy) in
      let dist = sqrt dist_sq in
      let yaw = mul origin.yaw radians_per_degree in
      let dot = add (mul (cos yaw) (div dx dist)) (mul (sin yaw) (div dy dist)) in
      let cos_half = cos (mul (mul angle (ratio 1 2)) radians_per_degree) in
      if lt (mul radius radius) dist_sq
      then false
      else (if eq dist_sq (ratio 0 1) then true else le cos_half dot)

  -- MathUtils::CheckLine
  unfoldable pub check_line : PositionInfo → PositionInfo → F → F → Bool
  check_line origin target width range =
      let dx = sub target.x origin.x in
      let dy = sub target.y origin.y in
      let dist_sq = add (mul dx dx) (mul dy dy) in
      let yaw = mul origin.yaw radians_per_degree in
      let proj = add (mul dx (cos yaw)) (mul dy (sin yaw)) in
      let perp_sq = sub dist_sq (mul proj proj) in
      let half = div width (ratio 2 1) in
      if lt (mul range range) dist_sq
      then false
      else (if eq dist_sq (ratio 0 1)
          then true
          else (if lt proj (ratio 0 1) || lt range proj then false else le perp_sq (mul half half)))
