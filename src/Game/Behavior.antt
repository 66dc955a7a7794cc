-- ===== src/Game/Behavior.antt =====
-- Monster.cpp: what an awake monster decides, by its state.
pub mod Minds
mod Prey
mod Choices
pub mod Decisions
pub mod Views
mod Tests
use simple_mmo.Prelude.{
  ℕ, ◌+◌, ◌*◌, Bool, true, false, Option, none, some, List, [], ◌&&◌, ◌||◌, not, if◌then◌else◌,
}
use simple_mmo.Prelude.Int.{pos, pos_part}
use simple_mmo.Game.Floats.{Floats}
use simple_mmo.Game.Objects.{Object, PositionInfo, MonsterState, is_ready, reset}
use simple_mmo.Game.Stat.{is_dead}
use simple_mmo.Game.Navmesh.{Detour, find_path}
use simple_mmo.Game.Skills.{SkillData, get_skill_data}
use simple_mmo.Game.World.{Room, update_at}
use simple_mmo.Game.Monster.{change_state}
use simple_mmo.Game.Movement.{VectorMath}
use simple_mmo.Game.Damage.{id_at, set_target}
use simple_mmo.Game.Combat.{character_attack, is_hit, type_number}
use simple_mmo.Game.Patrol.{Rolls, dist_sq, trace_range_sq, set_path, update_patrol}

module _ ⦃fl : Floats⦄ where
  open fl use {F, ratio, add, sub, mul, div, lt, le, atan2, of_int, to_int, largest}

  abbrev pub give_up : ℕ → Room → Room
  give_up a r = change_state a MonsterState.patrol (update_at a (set_target none) r)

  abbrev pub set_search_timer : ℕ → ℕ → Object → Object
  set_search_timer now ms o = record o { path_search_timer = reset now ms }

  abbrev pub remember : PositionInfo → ℕ → Object → Object
  remember p now o = record o { last_target_pos = p; path_search_timer = reset now 1000 }

  abbrev pub pursue : ℕ → PositionInfo → Bool × List PositionInfo → Room → Room
  pursue a there (false, path) r = update_at a (set_search_timer r.now 500) r
  pursue a there (true, path) r = update_at a (remember there r.now) (set_path a path r)

  abbrev pub cooldown_of : Option SkillData → ℕ
  cooldown_of none = 1000
  cooldown_of (some skill) = skill.cooldown_ms

  -- The pause between two attacks, in milliseconds. A negative one is over at once.
  abbrev pub attack_pause : Object → ℕ
  attack_pause o =
      let speed = o.info.stat.attack_speed in
      let base = cooldown_of (get_skill_data (type_number o.info.player_type * 100 + 1)) in
      pos_part
        (to_int (div (of_int (pos base)) (if lt (ratio 0 1) speed then speed else ratio 1 1)))

  -- Monster::UpdateHit
  unfoldable pub update_hit : ℕ → Room → Room
  update_hit a r = if is_hit r.now (r.heap a) then r else change_state a MonsterState.none r

  module _ (dx : VectorMath) where
    abbrev pub target_moved : Object → Object → F
    target_moved o target =
        dx.sum_of_squares (sub target.info.position.x o.last_target_pos.x)
          (sub target.info.position.y o.last_target_pos.y)

    abbrev pub turn_to : Object → ℕ → Object → Object
    turn_to target now o = record o {
      attack_timer = reset now (attack_pause o);
      info = record o.info {
        position = record o.info.position {
          yaw = dx.to_degrees (
              atan2 (sub target.info.position.y o.info.position.y)
                (sub target.info.position.x o.info.position.x));
        };
      };
    }

    abbrev pub strike_target : ℕ → ℕ → Room → Room
    strike_target a target r =
        let turned = update_at a (turn_to (r.heap target) r.now) r in
        if (r.heap a).in_room then character_attack a 0 (id_at target turned) turned else turned

    abbrev pub attack_target : ℕ → Option ℕ → Room → Room
    attack_target a none r = change_state a MonsterState.patrol r
    attack_target a (some target) r =
        let o = r.heap a in
        if is_dead (r.heap target).info.stat.hp
        then change_state a MonsterState.patrol r
        else (if lt (mul o.attack_range o.attack_range) (dist_sq o (r.heap target))
            then change_state a MonsterState.trace r
            else (if is_ready r.now o.attack_timer then strike_target a target r else r))

    -- Monster::UpdateAttack
    unfoldable pub update_attack : ℕ → Room → Room
    update_attack a r = attack_target a (r.heap a).target_player r

  module _ (d : Detour) (dx : VectorMath) where
    -- The end of `UpdateTrace`: a new path, if there is reason to look for one. The pointer to the
    -- mesh is set once the map has been loaded.
    abbrev pub search_path : PositionInfo → ℕ → ℕ → Room → Room
    search_path blank a target r =
        let o = r.heap a in
        let there = (r.heap target).info.position in
        if ((not o.has_path || lt (ratio 10000 1) (target_moved dx o (r.heap target)))
            && is_ready r.now o.path_search_timer)
          && o.in_room
        then pursue a there (find_path d blank o.info.position there []) r
        else r

    abbrev pub trace_target : PositionInfo → ℕ → Option ℕ → Room → Room
    trace_target blank a none r = give_up a r
    trace_target blank a (some target) r =
        let o = r.heap a in
        let far = dist_sq o (r.heap target) in
        if is_dead (r.heap target).info.stat.hp
        then give_up a r
        else (if lt trace_range_sq far
            then give_up a r
            else (if le far (mul o.attack_range o.attack_range)
                then change_state a MonsterState.attack r
                else search_path blank a target r))

    -- Monster::UpdateTrace
    unfoldable pub update_trace : PositionInfo → ℕ → Room → Room
    update_trace blank a r = trace_target blank a (r.heap a).target_player r

    abbrev pub update_in : MonsterState → PositionInfo → Rolls → ℕ → Room → Room
    update_in MonsterState.none blank rolls a r = r
    update_in MonsterState.patrol blank rolls a r = update_patrol d blank rolls a r
    update_in MonsterState.trace blank rolls a r = update_trace blank a r
    update_in MonsterState.attack blank rolls a r = update_attack dx a r
    update_in MonsterState.hit blank rolls a r = update_hit a r

    -- Monster::UpdateAI
    unfoldable pub update_ai : PositionInfo → Rolls → ℕ → Room → Room
    update_ai blank rolls a r = update_in (r.heap a).monster_state blank rolls a r
