-- ===== src/Game/Stat/Tests.antt =====
-- Hits and healing at small numbers.
use simple_mmo.Prelude.{◌≡◌, refl, true, List, [], ◌∷◌, arith}
use simple_mmo.Prelude.Int.{pos, negsuc, ◌+ℤ◌, ◌-ℤ◌, wrap_int}
use simple_mmo.Game.Examples.{numbers}
use simple_mmo.Game.Objects.{StatInfo}
use simple_mmo.Game.Stat.{is_dead, stat_on_damaged, stat_on_healed}
use simple_mmo.Game.Stat.Bounds.{
  IsInBounds, IsHit, stat_on_damaged-IsHit, Change, hit, heal, changes, changes-IsInBounds,
}

abbrev wounded : StatInfo ⦃fl = numbers⦄
wounded = record {
  max_hp = pos 100;
  hp = pos 30;
  attack_damage = pos 5;
  attack_speed = 1;
  move_speed = 1;
}

abbrev fight : List Change
fight = hit (pos 20) ∷ heal (pos 500) ∷ hit (pos 120) ∷ []

wounded-IsInBounds : IsInBounds ⦃fl = numbers⦄ wounded
wounded-IsInBounds = ground arith

fight_kills : (changes ⦃fl = numbers⦄ fight wounded).hp ≡ pos 0
unfolding stat_on_damaged stat_on_healed ◌+ℤ◌ ◌-ℤ◌ wrap_int
fight_kills = refl

stat_on_damaged-IsHit_example :
    IsHit ⦃fl = numbers⦄
      (pos 40)
      wounded
      (stat_on_damaged ⦃fl = numbers⦄ (pos 40) wounded).0
      (stat_on_damaged ⦃fl = numbers⦄ (pos 40) wounded).1
stat_on_damaged-IsHit_example =
    stat_on_damaged-IsHit ⦃fl = numbers⦄ (pos 40) wounded (omega arith) wounded-IsInBounds

changes-IsInBounds_example :
    IsInBounds ⦃fl = numbers⦄ (changes ⦃fl = numbers⦄ fight wounded)
    × (is_dead (changes ⦃fl = numbers⦄ fight wounded).hp ≡ true
        → changes ⦃fl = numbers⦄ fight (changes ⦃fl = numbers⦄ fight wounded)
          ≡ changes ⦃fl = numbers⦄ fight wounded)
changes-IsInBounds_example =
    changes-IsInBounds ⦃fl = numbers⦄ fight fight wounded
      (omega arith, ((omega arith, omega arith), (omega arith, tt))) wounded-IsInBounds

-- Healing that overflows kills.
overflow_kills :
    (changes ⦃fl = numbers⦄ (heal (pos 2147483647) ∷ []) wounded).hp ≡ negsuc 2147483618
unfolding stat_on_healed ◌+ℤ◌ wrap_int
overflow_kills = refl
