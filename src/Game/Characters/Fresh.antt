-- ===== src/Game/Characters/Fresh.antt =====
-- Characters that have just been made (Monster.cpp, Player.cpp).
use simple_mmo.Prelude.{ℕ, Bool, true, false, [], ◌≡◌, refl, find, arith}
use simple_mmo.Game.Floats.{Floats}
use simple_mmo.Game.Objects.{Object, PlayerType, PositionInfo, is_player, is_monster}
use simple_mmo.Game.Stat.{is_dead}
use simple_mmo.Game.Stat.Bounds.{IsInBounds}
use simple_mmo.Game.Characters.{
  new_monster, new_player, as_character, get_character_data, character_table,
}
use simple_mmo.Game.Skills.{get_skill_data, skill_table}

module _ ⦃fl : Floats⦄ where
  open fl use {F}

  -- The object lists nobody, and its hit points are in bounds.
  pub record IsFresh (o : Object) : Type 0 where
    pub lists_nobody : o.view_list ≡ []
    pub bounds : IsInBounds o.info.stat

  -- No row of the table has this type.
  abbrev pub is_unknown : PlayerType → Bool
  is_unknown PlayerType.none = true
  is_unknown _ = false

  -- A monster that has just been made is a living monster that lists nobody, with its hit points in
  -- bounds.
  pub new_monster-IsFresh :
      (blank : PositionInfo) (range : F) (now : ℕ)
      → IsFresh (new_monster blank range now)
        × (is_monster (new_monster blank range now).info.object_type ≡ true)
        × (is_dead (new_monster blank range now).info.stat.hp ≡ false)
  unfolding new_monster as_character get_character_data character_table get_skill_data skill_table
      find
  new_monster-IsFresh blank range now = (
    record { lists_nobody = refl; bounds = record { low = omega arith; high = omega arith } },
    refl,
    refl,
  )

  -- A player who has just been made is a player who lists nobody, with hit points in bounds, and who
  -- is dead exactly if its type has no row in the table.
  pub new_player-IsFresh :
      (session : ℕ) (type : PlayerType) (blank : PositionInfo) (range : F)
      → IsFresh (new_player session type blank range)
        × (is_player (new_player session type blank range).info.object_type ≡ true)
        × (is_dead (new_player session type blank range).info.stat.hp ≡ is_unknown type)
  unfolding new_player as_character get_character_data character_table find
  new_player-IsFresh session PlayerType.none blank range = (
    record { lists_nobody = refl; bounds = record { low = omega arith; high = omega arith } },
    refl,
    refl,
  )
  new_player-IsFresh session PlayerType.greystone blank range = (
    record { lists_nobody = refl; bounds = record { low = omega arith; high = omega arith } },
    refl,
    refl,
  )
  new_player-IsFresh session PlayerType.sparrow blank range = (
    record { lists_nobody = refl; bounds = record { low = omega arith; high = omega arith } },
    refl,
    refl,
  )
  new_player-IsFresh session PlayerType.gideon blank range = (
    record { lists_nobody = refl; bounds = record { low = omega arith; high = omega arith } },
    refl,
    refl,
  )
  new_player-IsFresh session PlayerType.monster blank range = (
    record { lists_nobody = refl; bounds = record { low = omega arith; high = omega arith } },
    refl,
    refl,
  )
