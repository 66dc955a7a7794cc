-- ===== src/Game/Damage.antt =====
-- OnDamaged and OnDead of Character.cpp, Player.cpp and Monster.cpp, `Room::ApplyDelayedDamage`
-- (Room.cpp). Players inherit the character's. A shared pointer to an attacker may be null; a read
-- through it is the result `none`.
pub mod Outcomes
pub mod Views
pub mod Failures
mod Tests
use simple_mmo.Prelude.{ℕ, Bool, true, false, Option, none, some, if◌then◌else◌}
use simple_mmo.Prelude.Int.{ℤ}
use simple_mmo.Prelude.Options.{◌>>=◌}
use simple_mmo.Game.Floats.{Floats}
use simple_mmo.Game.Objects.{Object, MonsterState, StatInfo, is_player, is_monster, reset}
use simple_mmo.Game.Stat.{is_dead, stat_on_damaged}
use simple_mmo.Game.World.{Packet, sc_damage, sc_dead, Room, update_at, get_game_object}
use simple_mmo.Game.World.Broadcast.{broadcast_aoi}
use simple_mmo.Game.Monster.{stop_move, change_state}

module _ ⦃fl : Floats⦄ where
  abbrev pub id_at : ℕ → Room → ℕ
  id_at a r = (r.heap a).info.id

  -- Character::OnDead
  unfoldable pub character_on_dead : ℕ → Room → Room
  character_on_dead target r =
      if (r.heap target).in_room then broadcast_aoi target (sc_dead (id_at target r)) true r else r

  -- Monster::OnDead
  unfoldable pub monster_on_dead : ℕ → Room → Room
  monster_on_dead target r =
      change_state target MonsterState.none (stop_move target (character_on_dead target r))

  -- The virtual call.
  unfoldable pub on_dead : ℕ → Room → Room
  on_dead target r =
      if is_monster (r.heap target).info.object_type
      then monster_on_dead target r
      else character_on_dead target r

  abbrev pub wound : StatInfo → ℕ → Object → Object
  wound stat now o = record o { info = record o.info { stat = stat }; hit_timer = reset now 300 }

  -- The packet that tells of the damage, which names the attacker.
  abbrev pub tell_damage : ℕ → Option ℕ → ℤ → Room → Option Room
  tell_damage target none actual r = none
  tell_damage target (some attacker) actual r = some (
      broadcast_aoi target
        (sc_damage (id_at attacker r) (id_at target r) actual (r.heap target).info.stat.hp) true r)

  abbrev pub die_if_dead : ℕ → Room → Option Room
  die_if_dead target r = some (if is_dead (r.heap target).info.stat.hp then on_dead target r else r)

  -- Character::OnDamaged
  unfoldable pub character_on_damaged : ℕ → ℤ → Option ℕ → Room → Option Room
  character_on_damaged target damage attacker r =
      let (actual, stat) = stat_on_damaged damage (r.heap target).info.stat in
      let wounded = update_at target (wound stat r.now) r in
      if is_dead (r.heap target).info.stat.hp
      then some r
      else ((if (r.heap target).in_room
            then tell_damage target attacker actual wounded
            else some wounded)
          >>= die_if_dead target)

  abbrev pub set_target : Option ℕ → Object → Object
  set_target target o = record o { target_player = target }

  -- The end of Monster::OnDamaged.
  abbrev pub chase_attacker : ℕ → Option ℕ → Room → Option Room
  chase_attacker target none r = none
  chase_attacker target (some attacker) r = some (
      if is_player (r.heap attacker).info.object_type
      then change_state target MonsterState.trace (update_at target (set_target (some attacker)) r)
      else r)

  -- Monster::OnDamaged
  unfoldable pub monster_on_damaged : ℕ → ℤ → Option ℕ → Room → Option Room
  monster_on_damaged target damage attacker r = do
    hurt ← character_on_damaged target damage attacker r
    chase_attacker target attacker (change_state target MonsterState.hit hurt)

  -- The virtual call.
  unfoldable pub on_damaged : ℕ → ℤ → Option ℕ → Room → Option Room
  on_damaged target damage attacker r =
      if is_monster (r.heap target).info.object_type
      then monster_on_damaged target damage attacker r
      else character_on_damaged target damage attacker r

  abbrev pub damage_found : Option ℕ → ℤ → Option ℕ → Room → Option Room
  damage_found none damage attacker r = some r
  damage_found (some target) damage attacker r =
      if is_dead (r.heap target).info.stat.hp then some r else on_damaged target damage attacker r

  -- Room::ApplyDelayedDamage
  unfoldable pub apply_delayed_damage : ℕ → ℕ → ℤ → Room → Option Room
  apply_delayed_damage target_id attacker_id damage r =
      damage_found (get_game_object target_id r) damage (get_game_object attacker_id r) r
