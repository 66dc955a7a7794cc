-- ===== src/Game/View/Tests.antt =====
-- A room with a player and a monster, and views in it.
use simple_mmo.Prelude.{refl, [], ◌∷◌, find}
use simple_mmo.Game.Examples.{numbers, room, room-Views}
use simple_mmo.Game.Removal.{count}
use simple_mmo.Game.GameMap.{ViewUpdate}
use simple_mmo.Game.View.{update_view}
use simple_mmo.Game.View.Symmetry.{Views, update_view-Views}

abbrev monster_enters : ViewUpdate
monster_enters = record { entered = 1 ∷ 2 ∷ []; leaved = [] }

update_view-Views_example : Views ⦃fl = numbers⦄ (update_view ⦃fl = numbers⦄ 0 monster_enters room)
unfolding find count
update_view-Views_example = update_view-Views ⦃fl = numbers⦄ 0 monster_enters room refl room-Views
