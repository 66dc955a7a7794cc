-- ===== src/Game/Behavior/Tests.antt =====
-- A monster on patrol that has a player in its view.
use simple_mmo.Prelude.{some, [], ◌∷◌, ◌==◌, if◌then◌else◌, ◌≡◌, refl, find}
use simple_mmo.Game.Examples.{numbers, somewhere, plain, straight, low, room}
use simple_mmo.Game.Objects.{Object, MonsterState}
use simple_mmo.Game.World.{Room}
use simple_mmo.Game.World.Broadcast.{broadcast_aoi, broadcast_to_view}
use simple_mmo.Game.Monster.{change_state, stop_move, movable_stop_move}
use simple_mmo.Game.Patrol.{update_patrol, closest_player}
use simple_mmo.Game.Behavior.{update_ai}
use simple_mmo.Game.Behavior.Minds.{state_at, target_at}
use simple_mmo.Game.Behavior.Choices.{DecidesIn}
use simple_mmo.Game.Behavior.Decisions.{update_ai-Decides}

abbrev watchful : Object ⦃fl = numbers⦄ → Object ⦃fl = numbers⦄
watchful o = record o { view_list = 1 ∷ []; monster_state = MonsterState.patrol }

-- The monster at address 1 has the player 1 in its view.
abbrev watch : Room ⦃fl = numbers⦄
watch = record room { heap = λ a. if a == 1 then watchful (room.heap a) else room.heap a }

abbrev watched : Room ⦃fl = numbers⦄
watched = update_ai ⦃fl = numbers⦄ plain straight somewhere low 1 watch

watched_state : state_at ⦃fl = numbers⦄ 1 watched ≡ MonsterState.trace
unfolding update_ai update_patrol closest_player find change_state stop_move movable_stop_move
watched_state = refl

watched_target : target_at ⦃fl = numbers⦄ 1 watched ≡ some 0
unfolding update_ai update_patrol closest_player find change_state stop_move movable_stop_move
    broadcast_aoi broadcast_to_view
watched_target = refl

update_ai-Decides_example : DecidesIn ⦃fl = numbers⦄ 1 watch watched
update_ai-Decides_example = update_ai-Decides ⦃fl = numbers⦄ plain straight somewhere low 1 watch
