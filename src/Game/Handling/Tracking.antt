-- ===== src/Game/Handling/Tracking.antt =====
-- The jobs of a room (Room.cpp) with the places on its map.
use simple_mmo.Prelude.{
  ℕ, Bool, true, false, Option, none, some, List, [], ◌∷◌, ◌⊎◌, inl, inr, if◌then◌else◌, ◌≡◌, refl,
  find, Option-cases, Bool-cases,
}
use simple_mmo.Prelude.Int.{ℤ}
use simple_mmo.Game.Floats.{Floats}
use simple_mmo.Game.Objects.{PositionInfo, is_player}
use simple_mmo.Game.Stat.{is_dead}
use simple_mmo.Game.Navmesh.{Detour}
use simple_mmo.Game.GameMap.{SpawnPoint, to_cell_pos}
use simple_mmo.Game.World.{Job, Room, id_to_player, get_game_object}
use simple_mmo.Game.World as World
use simple_mmo.Game.Movement.{VectorMath}
use simple_mmo.Game.Damage.{id_at, apply_delayed_damage}
use simple_mmo.Game.Damage.Outcomes.{on_damaged-Hurts}
use simple_mmo.Game.Damage.Views.{StaysIn-apply_delayed_damage}
use simple_mmo.Game.Combat.{room_execute_skill_hit, hit_found, character_attack}
use simple_mmo.Game.Combat.Friendly.{process_skill_hit-Spares}
use simple_mmo.Game.Combat.Views.{StaysIn-room_execute_skill_hit, Stays-character_attack}
use simple_mmo.Game.Patrol.{Rolls}
use simple_mmo.Game.View.Symmetry.{Registered}
use simple_mmo.Game.Moves.{spawn_position, player_move}
use simple_mmo.Game.Moves.Tracking.{cell_of}
use simple_mmo.Game.Moves.Walking.{may_go}
use simple_mmo.Game.Moves.Tracked.{
  IsOnMap, Tracked, TrackedIn, Tracked-Stays, TrackedIn-StaysIn, player_move-Tracked,
  player_leave_room-Tracked, npc_enter_room-Tracked, player_enter_room-Tracked,
}
use simple_mmo.Game.Updates.{room_update}
use simple_mmo.Game.Updates.Tracking.{UpdateKeepsToMap, room_update-TrackedIn}
use simple_mmo.Game.Handling.{
  Request, player_enters, npc_enters, player_leaves, player_moves, attacks, fires, fire, handle,
  at_time, execute_jobs,
}

module _ ⦃fl : Floats⦄ (d : Detour) (dx : VectorMath) where
  -- Where a player starts is a cell of the grid.
  abbrev pub StartsOnMap : PositionInfo → ℕ → List SpawnPoint → Room → Type 0
  StartsOnMap random a [] r = ⊥
  StartsOnMap random a (s ∷ ss) r =
      IsOnMap r (to_cell_pos (if (r.heap a).is_dummy then random else spawn_position s) r.game_map)

  -- The object is new to the room and lists nobody.
  abbrev pub IsNew : ℕ → Room → Type 0
  IsNew a r = (find (id_at a r) r.objects ≡ none) × ((r.heap a).view_list ≡ [])

  abbrev pub FireAllowed : PositionInfo → (ℕ → Rolls) → Job → Room → Type 0
  FireAllowed blank rolls (World.execute_skill_hit attacker_id skill_id target_id) r = Unit
  FireAllowed blank rolls (World.apply_delayed_damage target_id attacker_id damage) r =
      (find target_id r.objects ≡ none) ⊎ ((a : ℕ) × (find attacker_id r.objects ≡ some a))
  FireAllowed blank rolls (World.update last) r = UpdateKeepsToMap d dx blank rolls last r

  -- What a job relies on. Objects enter with an id and a cell that are free, and leave or move
  -- while they are in the room, to a cell of the grid; a move by a player who has left is allowed
  -- too. The attacker of a delayed damage is still in the room, unless the target has left.
  abbrev pub Allowed : Request → Room → Type 0
  Allowed (player_enters random a) r =
      (is_player (r.heap a).info.object_type ≡ true)
      × IsNew a r
      × StartsOnMap random a r.game_map.spawn_points r
  Allowed (npc_enters random a) r =
      (is_player (r.heap a).info.object_type ≡ false) × IsNew a r × IsOnMap r (cell_of a r)
  Allowed (player_leaves a) r = Registered a r
  Allowed (player_moves a p force) r =
      (id_to_player (id_at a r) r ≡ none)
      ⊎ (Registered a r
          × (may_go d dx a p (id_to_player (id_at a r) r) r ≡ true
              → IsOnMap r (to_cell_pos p r.game_map)))
  Allowed (attacks a skill_id target_id) r = Unit
  Allowed (fires blank rolls job) r = FireAllowed blank rolls job r

  -- Each job is allowed when it is its turn.
  unfoldable pub AllowedAlong : List (ℕ × Request) → Room → Type 0
  AllowedAlong [] r = Unit
  AllowedAlong ((now, q) ∷ qs) r =
      Allowed q (at_time d dx now r)
      × ((r' : Room) → handle d dx q (at_time d dx now r) ≡ some r' → AllowedAlong qs r')

  -- The handler ends, in a room that agrees with its map.
  abbrev pub EndsTracked : Option Room → Type 0
  EndsTracked o = (r' : Room) × (o ≡ some r') × Tracked r'

  Ends : {os : List (ℕ × ℕ)} (o : Option Room) → TrackedIn os o → EndsTracked o
  Ends o (r', e, n, t) = (r', e, t)

  player_enters-Tracked :
      (random : PositionInfo) (a : ℕ) (spawns : List SpawnPoint) (r : Room)
      → r.game_map.spawn_points ≡ spawns
      → is_player (r.heap a).info.object_type ≡ true
      → IsNew a r
      → StartsOnMap random a spawns r
      → Tracked r
      → EndsTracked (handle d dx (player_enters random a) r)
  player_enters-Tracked random a [] r q player (fresh, empty) i t = absurd i
  player_enters-Tracked random a (s ∷ ss) r q player (fresh, empty) i t =
      Ends (handle d dx (player_enters random a) r)
        (player_enter_room-Tracked random a s ss r player fresh empty q i t)

  hit_found-returns :
      (found : Option ℕ) (skill_id : ℕ) (r : Room)
      → (r' : Room) × (hit_found d found skill_id r ≡ some r')
  hit_found-returns none skill_id r = (r, refl)
  hit_found-returns (some a) skill_id r =
      let (r', e, w) = process_skill_hit-Spares d a skill_id r in (r', e)

  skill_hit-Tracked :
      (attacker_id skill_id target_id : ℕ) (r : Room)
      → Tracked r
      → EndsTracked (room_execute_skill_hit d attacker_id skill_id target_id r)
  unfolding room_execute_skill_hit
  skill_hit-Tracked attacker_id skill_id target_id r t =
      Ends (room_execute_skill_hit d attacker_id skill_id target_id r) (
        TrackedIn-StaysIn r (room_execute_skill_hit d attacker_id skill_id target_id r)
          (StaysIn-room_execute_skill_hit d attacker_id skill_id target_id r)
          (hit_found-returns (get_game_object attacker_id r) skill_id r) t)

  delayed_damage-returns :
      (target_id attacker_id : ℕ) (damage : ℤ) (r : Room)
      → (find target_id r.objects ≡ none) ⊎ ((a : ℕ) × (find attacker_id r.objects ≡ some a))
      → (r' : Room) × (apply_delayed_damage target_id attacker_id damage r ≡ some r')
  unfolding apply_delayed_damage
  delayed_damage-returns target_id attacker_id damage r (inl gone) = (r, rw gone refl)
  delayed_damage-returns target_id attacker_id damage r (inr (a, here)) =
      elim (Option-cases (find target_id r.objects)) [
        | inl gone ↦ (r, rw gone refl)
        | inr (t, there) ↦ elim (Bool-cases (is_dead (r.heap t).info.stat.hp)) [
          | inl dead ↦ (r, rw (there, dead) refl)
          | inr alive ↦
              let (r', e, w) = on_damaged-Hurts t damage a r in (r', rw (there, alive, here) e)
        ]
      ]

  fire-Tracked :
      (blank : PositionInfo) (rolls : ℕ → Rolls) (job : Job) (r : Room)
      → FireAllowed blank rolls job r
      → Tracked r
      → EndsTracked (fire d dx blank rolls job r)
  fire-Tracked blank rolls (World.execute_skill_hit attacker_id skill_id target_id) r i t =
      skill_hit-Tracked attacker_id skill_id target_id r t
  fire-Tracked blank rolls (World.apply_delayed_damage target_id attacker_id damage) r i t =
      Ends (apply_delayed_damage target_id attacker_id damage r) (
        TrackedIn-StaysIn r (apply_delayed_damage target_id attacker_id damage r)
          (StaysIn-apply_delayed_damage target_id attacker_id damage r)
          (delayed_damage-returns target_id attacker_id damage r i) t)
  fire-Tracked blank rolls (World.update last) r i t =
      Ends (room_update d dx blank rolls last r) (room_update-TrackedIn d dx blank rolls last r t i)

  player_moves-Tracked :
      (a : ℕ) (p : PositionInfo) (force : Bool) (r : Room)
      → Allowed (player_moves a p force) r
      → Tracked r
      → EndsTracked (player_move d dx a p force r)
  unfolding player_move
  player_moves-Tracked a p force r (inl gone) t = (r, rw gone refl, t)
  player_moves-Tracked a p force r (inr (e, i)) t =
      Ends (player_move d dx a p force r) (player_move-Tracked d dx a p force r e t i)

  handle-Tracked :
      (q : Request) (r : Room) → Allowed q r → Tracked r → EndsTracked (handle d dx q r)
  handle-Tracked (player_enters random a) r (player, new, i) t =
      player_enters-Tracked random a r.game_map.spawn_points r refl player new i t
  handle-Tracked (npc_enters random a) r (npc, (fresh, empty), i) t =
      Ends (handle d dx (npc_enters random a) r)
        (npc_enter_room-Tracked random a r npc fresh empty i t)
  handle-Tracked (player_leaves a) r e t =
      Ends (handle d dx (player_leaves a) r) (player_leave_room-Tracked a r e t)
  handle-Tracked (player_moves a p force) r i t = player_moves-Tracked a p force r i t
  handle-Tracked (attacks a skill_id target_id) r i t =
      let r' = character_attack a skill_id target_id r in
      (r', refl, Tracked-Stays r r' (Stays-character_attack a skill_id target_id r) t)
  handle-Tracked (fires blank rolls job) r i t = fire-Tracked blank rolls job r i t

  at_time-Tracked : (now : ℕ) (r : Room) → Tracked r → Tracked (at_time d dx now r)
  at_time-Tracked now r t =
      Tracked-Stays r (at_time d dx now r)
        (record { objects = refl; map = refl; id = λ b. refl; kind = λ b. refl; view = λ b. refl })
        t

  -- Whatever jobs a room runs in whatever order, if its lists and its map agree with places that
  -- all its objects have, and each job is allowed when it is its turn, then all the jobs end and
  -- the room is such a room again: of two objects one lists the other, and once, exactly if its
  -- kind sees the other's and it has the other in sight.
  pub execute_jobs-Tracked :
      (qs : List (ℕ × Request)) (r : Room)
      → Tracked r
      → AllowedAlong qs r
      → EndsTracked (execute_jobs d dx qs r)
  unfolding execute_jobs AllowedAlong
  execute_jobs-Tracked [] r t i = (r, refl, t)
  execute_jobs-Tracked ((now, q) ∷ qs) r t (i, is) =
      let r0 = at_time d dx now r in
      let (r1, e, t1) = handle-Tracked q r0 i (at_time-Tracked now r t) in
      rw e (execute_jobs-Tracked qs r1 t1 (is r1 e))
