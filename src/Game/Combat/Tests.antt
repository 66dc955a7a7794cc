-- ===== src/Game/Combat/Tests.antt =====
-- A monster that sees a player and strikes.
use simple_mmo.Prelude.{[], ◌∷◌}
use simple_mmo.Game.Examples.{numbers, plain, room}
use simple_mmo.Game.Objects.{Object}
use simple_mmo.Game.World.{Room}
use simple_mmo.Game.Combat.{process_skill_hit}
use simple_mmo.Game.Combat.Friendly.{ReturnsSparing, process_skill_hit-Spares}

abbrev seeing : Object ⦃fl = numbers⦄ → Object ⦃fl = numbers⦄
seeing o = record o { view_list = 1 ∷ [] }

-- The monster at address 1 has the player 1 in its view.
abbrev fight : Room ⦃fl = numbers⦄
fight = record room { heap = λ a. seeing (room.heap a) }

process_skill_hit-Spares_example :
    ReturnsSparing ⦃fl = numbers⦄ 1 fight (process_skill_hit ⦃fl = numbers⦄ plain 1 401 fight)
process_skill_hit-Spares_example = process_skill_hit-Spares ⦃fl = numbers⦄ plain 1 401 fight
