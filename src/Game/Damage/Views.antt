-- ===== src/Game/Damage/Views.antt =====
-- Damage and death (Character.cpp, Monster.cpp, Room.cpp) and what decides who sees whom.
use simple_mmo.Prelude.{ℕ, Bool, true, Option, none, some, if◌then◌else◌, refl}
use simple_mmo.Prelude.Int.{ℤ}
use simple_mmo.Prelude.Options.{◌>>=◌}
use simple_mmo.Game.Floats.{Floats}
use simple_mmo.Game.Objects.{MonsterState, StatInfo, is_player, is_monster}
use simple_mmo.Game.Stat.{is_dead, stat_on_damaged}
use simple_mmo.Game.World.{Packet, sc_damage, sc_dead, Room, update_at, get_game_object}
use simple_mmo.Game.World.Broadcast.{broadcast_aoi}
use simple_mmo.Game.Monster.{stop_move, change_state}
use simple_mmo.Game.View.Changes.{Keeps-broadcast_aoi, Keeps-stop_move, Keeps-change_state}
use simple_mmo.Game.View.Stays.{
  Stays, Stays-refl, Stays-trans, Stays-if, IsGentle, Stays-update_at, Keeps-Stays, StaysIn,
  StaysIn-if, StaysIn-trans, StaysIn-bind,
}
use simple_mmo.Game.Damage.{
  id_at, character_on_dead, monster_on_dead, on_dead, wound, tell_damage, die_if_dead,
  character_on_damaged, set_target, chase_attacker, monster_on_damaged, on_damaged, damage_found,
  apply_delayed_damage,
}

module _ ⦃fl : Floats⦄ where
  pub Stays-broadcast_aoi :
      (a : ℕ) (p : Packet) (self : Bool) (r : Room) → Stays r (broadcast_aoi a p self r)
  Stays-broadcast_aoi a p self r =
      Keeps-Stays r (broadcast_aoi a p self r) (Keeps-broadcast_aoi a p self r)

  pub Stays-stop_move : (a : ℕ) (r : Room) → Stays r (stop_move a r)
  Stays-stop_move a r = Keeps-Stays r (stop_move a r) (Keeps-stop_move a r)

  pub Stays-change_state : (a : ℕ) (s : MonsterState) (r : Room) → Stays r (change_state a s r)
  Stays-change_state a s r = Keeps-Stays r (change_state a s r) (Keeps-change_state a s r)

  Stays-character_on_dead : (t : ℕ) (r : Room) → Stays r (character_on_dead t r)
  unfolding character_on_dead
  Stays-character_on_dead t r =
      Stays-if (r.heap t).in_room r (broadcast_aoi t (sc_dead (id_at t r)) true r) r
        (Stays-broadcast_aoi t (sc_dead (id_at t r)) true r) (Stays-refl r)

  Stays-monster_on_dead : (t : ℕ) (r : Room) → Stays r (monster_on_dead t r)
  unfolding monster_on_dead
  Stays-monster_on_dead t r =
      let dead = character_on_dead t r in
      let stopped = stop_move t dead in
      Stays-trans r dead (change_state t MonsterState.none stopped) (Stays-character_on_dead t r) (
        Stays-trans dead stopped (change_state t MonsterState.none stopped) (Stays-stop_move t dead)
          (Stays-change_state t MonsterState.none stopped))

  Stays-on_dead : (t : ℕ) (r : Room) → Stays r (on_dead t r)
  unfolding on_dead
  Stays-on_dead t r =
      Stays-if (is_monster (r.heap t).info.object_type) r (monster_on_dead t r)
        (character_on_dead t r) (Stays-monster_on_dead t r) (Stays-character_on_dead t r)

  wound-IsGentle : (s : StatInfo) (now : ℕ) → IsGentle (wound s now)
  wound-IsGentle s now = record { id = λ o. refl; kind = λ o. refl; view = λ o. refl }

  StaysIn-tell_damage :
      (t : ℕ) (attacker : Option ℕ) (actual : ℤ) (r : Room)
      → StaysIn r (tell_damage t attacker actual r)
  StaysIn-tell_damage t none actual r = tt
  StaysIn-tell_damage t (some a) actual r =
      Stays-broadcast_aoi t (sc_damage (id_at a r) (id_at t r) actual (r.heap t).info.stat.hp) true
        r

  StaysIn-die_if_dead : (t : ℕ) (r : Room) → StaysIn r (die_if_dead t r)
  StaysIn-die_if_dead t r =
      Stays-if (is_dead (r.heap t).info.stat.hp) r (on_dead t r) r (Stays-on_dead t r)
        (Stays-refl r)

  StaysIn-character_on_damaged :
      (t : ℕ) (damage : ℤ) (attacker : Option ℕ) (r : Room)
      → StaysIn r (character_on_damaged t damage attacker r)
  unfolding character_on_damaged
  StaysIn-character_on_damaged t damage attacker r =
      let (actual, stat) = stat_on_damaged damage (r.heap t).info.stat in
      let wounded = update_at t (wound stat r.now) r in
      let told =
        if (r.heap t).in_room then tell_damage t attacker actual wounded else some wounded in
      StaysIn-if (is_dead (r.heap t).info.stat.hp) r (some r) (told >>= die_if_dead t)
        (Stays-refl r)
        (StaysIn-trans r wounded (told >>= die_if_dead t)
          (Stays-update_at t (wound stat r.now) r (wound-IsGentle stat r.now))
          (StaysIn-bind wounded told (die_if_dead t)
            (StaysIn-if (r.heap t).in_room wounded (tell_damage t attacker actual wounded)
              (some wounded) (StaysIn-tell_damage t attacker actual wounded) (Stays-refl wounded))
            (StaysIn-die_if_dead t)))

  set_target-IsGentle : (target : Option ℕ) → IsGentle (set_target target)
  set_target-IsGentle target = record { id = λ o. refl; kind = λ o. refl; view = λ o. refl }

  -- A new target and a change of state.
  pub Stays-retarget :
      (a : ℕ) (target : Option ℕ) (s : MonsterState) (r : Room)
      → Stays r (change_state a s (update_at a (set_target target) r))
  Stays-retarget a target s r =
      let aimed = update_at a (set_target target) r in
      Stays-trans r aimed (change_state a s aimed)
        (Stays-update_at a (set_target target) r (set_target-IsGentle target))
        (Stays-change_state a s aimed)

  StaysIn-chase_attacker :
      (t : ℕ) (attacker : Option ℕ) (r : Room) → StaysIn r (chase_attacker t attacker r)
  StaysIn-chase_attacker t none r = tt
  StaysIn-chase_attacker t (some a) r =
      Stays-if (is_player (r.heap a).info.object_type) r
        (change_state t MonsterState.trace (update_at t (set_target (some a)) r)) r
        (Stays-retarget t (some a) MonsterState.trace r) (Stays-refl r)

  StaysIn-monster_on_damaged :
      (t : ℕ) (damage : ℤ) (attacker : Option ℕ) (r : Room)
      → StaysIn r (monster_on_damaged t damage attacker r)
  unfolding monster_on_damaged
  StaysIn-monster_on_damaged t damage attacker r =
      StaysIn-bind r (character_on_damaged t damage attacker r)
        (λ hurt. chase_attacker t attacker (change_state t MonsterState.hit hurt))
        (StaysIn-character_on_damaged t damage attacker r)
        (λ hurt.
          StaysIn-trans hurt (change_state t MonsterState.hit hurt)
            (chase_attacker t attacker (change_state t MonsterState.hit hurt))
            (Stays-change_state t MonsterState.hit hurt)
            (StaysIn-chase_attacker t attacker (change_state t MonsterState.hit hurt)))

  pub StaysIn-on_damaged :
      (t : ℕ) (damage : ℤ) (attacker : Option ℕ) (r : Room)
      → StaysIn r (on_damaged t damage attacker r)
  unfolding on_damaged
  StaysIn-on_damaged t damage attacker r =
      StaysIn-if (is_monster (r.heap t).info.object_type) r (monster_on_damaged t damage attacker r)
        (character_on_damaged t damage attacker r) (StaysIn-monster_on_damaged t damage attacker r)
        (StaysIn-character_on_damaged t damage attacker r)

  StaysIn-damage_found :
      (found : Option ℕ) (damage : ℤ) (attacker : Option ℕ) (r : Room)
      → StaysIn r (damage_found found damage attacker r)
  StaysIn-damage_found none damage attacker r = Stays-refl r
  StaysIn-damage_found (some t) damage attacker r =
      StaysIn-if (is_dead (r.heap t).info.stat.hp) r (some r) (on_damaged t damage attacker r)
        (Stays-refl r) (StaysIn-on_damaged t damage attacker r)

  pub StaysIn-apply_delayed_damage :
      (target_id attacker_id : ℕ) (damage : ℤ) (r : Room)
      → StaysIn r (apply_delayed_damage target_id attacker_id damage r)
  unfolding apply_delayed_damage
  StaysIn-apply_delayed_damage target_id attacker_id damage r =
      StaysIn-damage_found (get_game_object target_id r) damage (get_game_object attacker_id r) r
