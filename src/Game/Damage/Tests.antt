-- ===== src/Game/Damage/Tests.antt =====
-- A monster that a player kills, and damage by a player who has left.
use simple_mmo.Prelude.{◌≡◌, ◌↔◌, ◌⊎◌, refl, true, none, some, find}
use simple_mmo.Prelude.Int.{pos}
use simple_mmo.Game.Examples.{numbers, room}
use simple_mmo.Game.Objects.{MonsterState, is_monster}
use simple_mmo.Game.Stat.{stat_on_damaged}
use simple_mmo.Game.World.{Room}
use simple_mmo.Game.Damage.{on_damaged, monster_on_damaged, apply_delayed_damage}
use simple_mmo.Game.Damage.Outcomes.{Hurts, on_damaged-Hurts}
use simple_mmo.Game.Damage.Failures.{apply_delayed_damage-fails_iff, monster_on_damaged-traces}

-- The player 1 at address 0 hits the monster 2 at address 1, which has 100 hit points.
on_damaged-Hurts_example :
    Hurts ⦃fl = numbers⦄ 1 (pos 60) room (on_damaged ⦃fl = numbers⦄ 1 (pos 60) (some 0) room)
on_damaged-Hurts_example = on_damaged-Hurts ⦃fl = numbers⦄ 1 (pos 60) 0 room

monster_on_damaged-traces_example :
    (r' : Room ⦃fl = numbers⦄) × (monster_on_damaged ⦃fl = numbers⦄ 1 (pos 120) (some 0) room
      ≡ some r')
    × ((r'.heap 1).monster_state ≡ MonsterState.trace)
    × ((r'.heap 1).info.stat ≡ (stat_on_damaged ⦃fl = numbers⦄ (pos 120) (room.heap 1).info.stat).1)
monster_on_damaged-traces_example = monster_on_damaged-traces ⦃fl = numbers⦄ 1 0 (pos 120) room refl

-- The attacker 9 is not in the room.
apply_delayed_damage-fails_iff_example :
    (apply_delayed_damage ⦃fl = numbers⦄ 2 9 (pos 40) room ≡ none) ↔ (
      (find 9 room.objects ≡ none)
      × (((room.heap 1).in_room ≡ true) ⊎ (is_monster (room.heap 1).info.object_type ≡ true)))
unfolding find
apply_delayed_damage-fails_iff_example =
    apply_delayed_damage-fails_iff ⦃fl = numbers⦄ 2 9 1 (pos 40) room refl refl
