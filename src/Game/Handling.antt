-- ===== src/Game/Handling.antt =====
-- The jobs that a room runs one after the other (Room.h, PacketHandler.cpp, JobQueue.cpp), but for
-- chats. What the C++ leaves open or draws at random is an argument of the job.
pub mod Tracking
pub mod Opening
mod Tests
use simple_mmo.Prelude.{ℕ, Bool, Option, none, some, List, [], ◌∷◌}
use simple_mmo.Prelude.Options.{◌>>=◌}
use simple_mmo.Game.Floats.{Floats}
use simple_mmo.Game.Objects.{Object, PositionInfo}
use simple_mmo.Game.GameMap.{GameMap}
use simple_mmo.Game.Navmesh.{Detour}
use simple_mmo.Game.World.{Job, Room}
use simple_mmo.Game.World as World
use simple_mmo.Game.Movement.{VectorMath}
use simple_mmo.Game.Damage.{apply_delayed_damage}
use simple_mmo.Game.Combat.{room_execute_skill_hit, character_attack}
use simple_mmo.Game.Patrol.{Rolls}
use simple_mmo.Game.Moves.{player_enter_room, npc_enter_room, player_leave_room, player_move}
use simple_mmo.Game.Updates.{room_update}

module _ ⦃fl : Floats⦄ where
  pub data Request : Type 0 where
    player_enters : PositionInfo → ℕ → Request
    npc_enters : PositionInfo → ℕ → Request
    player_leaves : ℕ → Request
    player_moves : ℕ → PositionInfo → Bool → Request
    attacks : ℕ → ℕ → ℕ → Request
    -- a job that the room has reserved
    fires : PositionInfo → (ℕ → Rolls) → Job → Request

  -- A room that has just been made, around a map, in front of objects that exist already.
  abbrev pub new_room : GameMap → (ℕ → Object) → Room
  new_room m heap = record {
    objects = [];
    players = [];
    monsters = [];
    game_map = m;
    heap = heap;
    now = 0;
    sends = [];
    reserved = [];
  }

  module _ (d : Detour) (dx : VectorMath) where
    abbrev pub fire : PositionInfo → (ℕ → Rolls) → Job → Room → Option Room
    fire blank rolls (World.execute_skill_hit attacker_id skill_id target_id) r =
        room_execute_skill_hit d attacker_id skill_id target_id r
    fire blank rolls (World.apply_delayed_damage target_id attacker_id damage) r =
        apply_delayed_damage target_id attacker_id damage r
    fire blank rolls (World.update last) r = room_update d dx blank rolls last r

    abbrev pub handle : Request → Room → Option Room
    handle (player_enters random a) r = player_enter_room random a r
    handle (npc_enters random a) r = npc_enter_room random a r
    handle (player_leaves a) r = player_leave_room a r
    handle (player_moves a p force) r = player_move d dx a p force r
    handle (attacks a skill_id target_id) r = some (character_attack a skill_id target_id r)
    handle (fires blank rolls job) r = fire blank rolls job r

    abbrev pub at_time : ℕ → Room → Room
    at_time now r = record r { now = now }

    -- The loop over the jobs, each with the time that the clock shows when it runs.
    unfoldable pub execute_jobs : List (ℕ × Request) → Room → Option Room
    execute_jobs [] r = some r
    execute_jobs ((now, q) ∷ qs) r = handle q (at_time now r) >>= execute_jobs qs
