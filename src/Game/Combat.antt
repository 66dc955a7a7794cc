-- ===== src/Game/Combat.antt =====
-- CombatProcessor.cpp, with `Character::Attack` (Character.cpp) and the room's jobs of an attack,
-- `CharacterAttack` and `ExecuteSkillHit` (Room.cpp). A read through a null pointer is `none`.
pub mod Friendly
pub mod Views
mod Tests
use simple_mmo.Prelude.{
  ℕ, zero, suc, ◌+◌, ◌*◌, Bool, true, false, Option, none, some, List, [], ◌∷◌, ◌==◌, ◌&&◌, ◌||◌,
  not, if◌then◌else◌,
}
use simple_mmo.Prelude.Int.{ℤ, pos}
use simple_mmo.Prelude.Options.{◌>>=◌}
use simple_mmo.Game.Floats.{Floats}
use simple_mmo.Game.Objects.{Object, ObjectType, PlayerType, is_player, is_monster, is_ready}
use simple_mmo.Game.Stat.{is_dead}
use simple_mmo.Game.Skills.{HitShape, SkillData, get_skill_data, check_sector, check_line}
use simple_mmo.Game.Navmesh.{Detour, ray_cast}
use simple_mmo.Game.World.{
  Packet, sc_attack, Job, execute_skill_hit, apply_delayed_damage, Room, reserve_job,
  get_game_object,
}
use simple_mmo.Game.World.Broadcast.{broadcast_aoi}
use simple_mmo.Game.Damage.{id_at, on_damaged}

-- The kind of object that an attacker of this kind hits.
abbrev pub is_enemy : ObjectType → ObjectType → Bool
is_enemy attacker target = if is_player attacker then is_monster target else is_player target

abbrev pub type_number : PlayerType → ℕ
type_number PlayerType.none = 0
type_number PlayerType.greystone = 1
type_number PlayerType.sparrow = 2
type_number PlayerType.gideon = 3
type_number PlayerType.monster = 4

module _ ⦃fl : Floats⦄ (d : Detour) where
  open fl use {F, ratio, add, sub, mul, div, lt, sqrt, to_int, largest}

  -- The loop's state: the room, and the closest target of a projectile with its squared distance.
  pub record Hits : Type 0 where
    pub room : Room
    pub closest : Option ℕ
    pub min_dist_sq : F

  abbrev pub in_shape : SkillData → ℕ → ℕ → Room → Bool
  in_shape skill attacker target r =
      let from = (r.heap attacker).info.position in
      let to = (r.heap target).info.position in
      elim skill.hit_shape [
        | HitShape.sector ↦ check_sector from to skill.radius skill.angle
        | HitShape.line ↦ check_line from to skill.width skill.range
        | HitShape.projectile ↦ check_line from to skill.width skill.range
      ]

  abbrev pub is_projectile : HitShape → Bool
  is_projectile HitShape.projectile = true
  is_projectile _ = false

  abbrev pub dist_sq_at : ℕ → ℕ → Room → F
  dist_sq_at attacker target r =
      let dx = sub (r.heap target).info.position.x (r.heap attacker).info.position.x in
      let dy = sub (r.heap target).info.position.y (r.heap attacker).info.position.y in
      add (mul dx dx) (mul dy dy)

  abbrev pub with_room : Hits → Room → Option Hits
  with_room h r = some (record h { room = r })

  -- What a target that is hit and in sight suffers.
  unfoldable pub strike : SkillData → ℕ → ℕ → Hits → Option Hits
  strike skill attacker target h =
      let dist_sq = dist_sq_at attacker target h.room in
      if is_projectile skill.hit_shape
      then some (
          if lt dist_sq h.min_dist_sq
          then record h { min_dist_sq = dist_sq; closest = some target }
          else h)
      else (on_damaged target skill.base_damage (some attacker) h.room >>= with_room h)

  -- One round of the loop over the attacker's view, at an object that the room has.
  unfoldable pub consider : SkillData → ℕ → ℕ → Hits → Option Hits
  consider skill attacker target h =
      let r = h.room in
      let o = r.heap target in
      let hit =
        in_shape skill attacker target r
        && ray_cast d (r.heap attacker).info.position o.info.position in
      if is_enemy (r.heap attacker).info.object_type o.info.object_type
        && not (is_dead o.info.stat.hp)
        && hit
      then strike skill attacker target h
      else some h

  abbrev pub consider_found : SkillData → ℕ → Option ℕ → Hits → Option Hits
  consider_found skill attacker none h = some h
  consider_found skill attacker (some target) h = consider skill attacker target h

  unfoldable pub consider_all : SkillData → ℕ → List ℕ → Hits → Option Hits
  consider_all skill attacker [] h = some h
  consider_all skill attacker (id ∷ ids) h =
      consider_found skill attacker (get_game_object id h.room) h >>= λ next.
      consider_all skill attacker ids next

  -- The projectile hits at once, or after its time of flight in milliseconds.
  abbrev pub land : SkillData → ℕ → ℕ → ℤ → Room → Option Room
  land skill attacker target (pos (suc ms)) r = some (
      reserve_job (suc ms)
        (apply_delayed_damage (id_at target r) (id_at attacker r) skill.base_damage) r)
  land skill attacker target _ r = on_damaged target skill.base_damage (some attacker) r

  abbrev pub flight_time_ms : SkillData → F → ℤ
  flight_time_ms skill dist =
      if lt (ratio 0 1) skill.proj_speed
      then to_int (mul (div dist skill.proj_speed) (ratio 1000 1))
      else pos 0

  abbrev pub shoot : SkillData → ℕ → Option ℕ → F → Room → Option Room
  shoot skill attacker none min_dist_sq r = some r
  shoot skill attacker (some target) min_dist_sq r =
      if is_projectile skill.hit_shape
      then land skill attacker target (flight_time_ms skill (sqrt min_dist_sq)) r
      else some r

  unfoldable pub hit_with : ℕ → SkillData → Room → Option Room
  hit_with attacker skill r = do
    h ←
        consider_all skill attacker (r.heap attacker).view_list
          (record { room = r; closest = none; min_dist_sq = largest })
    shoot skill attacker h.closest h.min_dist_sq h.room

  abbrev pub with_skill : ℕ → Option SkillData → Room → Option Room
  with_skill attacker none r = some r
  with_skill attacker (some skill) r = hit_with attacker skill r

  -- CombatProcessor::ProcessSkillHit
  unfoldable pub process_skill_hit : ℕ → ℕ → Room → Option Room
  process_skill_hit attacker skill_id r =
      if is_dead (r.heap attacker).info.stat.hp
      then some r
      else with_skill attacker (get_skill_data skill_id) r

  abbrev pub hit_found : Option ℕ → ℕ → Room → Option Room
  hit_found none skill_id r = some r
  hit_found (some attacker) skill_id r = process_skill_hit attacker skill_id r

  -- Room::ExecuteSkillHit
  unfoldable pub room_execute_skill_hit : ℕ → ℕ → ℕ → Room → Option Room
  room_execute_skill_hit attacker_id skill_id target_id r =
      hit_found (get_game_object attacker_id r) skill_id r

module _ ⦃fl : Floats⦄ where
  -- Character::IsHit
  abbrev pub is_hit : ℕ → Object → Bool
  is_hit now o = not (is_ready now o.hit_timer)

  -- Character::Attack: whether the attack may go on, and the skill.
  unfoldable pub attack : ℕ → Object → ℕ → Bool × ℕ
  attack now o skill_id =
      if is_dead o.info.stat.hp || is_hit now o
      then (false, skill_id)
      else (true, if skill_id == 0 then type_number o.info.player_type * 100 + 1 else skill_id)

  abbrev pub start_attack : ℕ → ℕ → ℕ → Option SkillData → Room → Room
  start_attack attacker skill_id target_id none r = r
  start_attack attacker skill_id target_id (some skill) r =
      let told = broadcast_aoi attacker (sc_attack (id_at attacker r) skill_id target_id) false r in
      reserve_job skill.hit_delay_ms (execute_skill_hit (id_at attacker told) skill_id target_id)
        told

  -- Room::CharacterAttack. No caller passes a null attacker.
  unfoldable pub character_attack : ℕ → ℕ → ℕ → Room → Room
  character_attack attacker skill_id target_id r =
      let (ok, skill) = attack r.now (r.heap attacker) skill_id in
      if ok
      then (if is_hit r.now (r.heap attacker)
          then r
          else start_attack attacker skill target_id (get_skill_data skill) r)
      else r
