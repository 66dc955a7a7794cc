-- ===== src/Game/Moves/Tracked.antt =====
-- Rooms that agree with some places that each of their objects has, and handlers that end in one.
use simple_mmo.Prelude.{
  ℕ, Dict, Bool, true, false, Option, none, some, List, [], ◌∷◌, ◌≡◌, refl, ◌∙◌, find, erase,
  if◌then◌else◌,
}
use simple_mmo.Prelude.Options.{◌>>=◌}
use simple_mmo.Game.Floats.{Floats}
use simple_mmo.Game.Objects.{PositionInfo, is_player}
use simple_mmo.Game.GameMap.{CellPos, SpawnPoint, to_cell_pos}
use simple_mmo.Game.GameMap.Grid.{IsInside}
use simple_mmo.Game.GameMap.Occupancy.{Places, put_at}
use simple_mmo.Game.World.{Room, id_to_player}
use simple_mmo.Game.Navmesh.{Detour}
use simple_mmo.Game.Movement.{VectorMath}
use simple_mmo.Game.Damage.{id_at}
use simple_mmo.Game.View.Stays.{Stays, StaysIn}
use simple_mmo.Game.View.Symmetry.{Registered}
use simple_mmo.Game.Moves.{
  spawn_position, npc_move, player_move, player_enter_room, npc_enter_room, player_leave_room,
}
use simple_mmo.Game.Moves.Shown.{Tracks}
use simple_mmo.Game.Moves.Tracking.{
  Reaches, cell_of, npc_move-Tracks, player_leave_room-Tracks, player_enter_room-Tracks,
  npc_enter_room-Tracks,
}
use simple_mmo.Game.Moves.Walking.{Tracks-Stays, may_go, walked, player_move-Tracks}
use simple_mmo.Game.Moves.Placed.{Placed, Placed-put_at, Placed-front, Placed-erase}

module _ ⦃fl : Floats⦄ where
  -- The cell is one of the grid.
  abbrev pub IsOnMap : Room → CellPos → Type 0
  IsOnMap r c = IsInside r.game_map.cells.grid_width r.game_map.cells.grid_height c

  -- The lists and the map of a room agree with places that all its objects have.
  abbrev pub Tracked : Room → Type 0
  Tracked r = (f : Places) × Tracks r f × Placed r.objects f

  -- The handler ends in such a room, which has these objects.
  abbrev pub TrackedIn : Dict ℕ → Option Room → Type 0
  TrackedIn objects o = (r' : Room) × (o ≡ some r') × (r'.objects ≡ objects) × Tracked r'

  Reaches-TrackedIn :
      (o : Option Room) (objects : Dict ℕ) (f : Places)
      → Reaches o objects f
      → Placed objects f
      → TrackedIn objects o
  Reaches-TrackedIn o objects f (r', e, n, t) w = (r', e, n, (f, t, rw n w))

  pub TrackedIn-some : (r : Room) → Tracked r → TrackedIn r.objects (some r)
  TrackedIn-some r t = (r, refl, refl, t)

  pub Tracked-Stays : (r r' : Room) → Stays r r' → Tracked r → Tracked r'
  Tracked-Stays r r' k (f, t, w) = (f, Tracks-Stays r r' f k t, rw k.objects w)

  pub TrackedIn-Stays : (r r' : Room) → Stays r r' → Tracked r → TrackedIn r.objects (some r')
  TrackedIn-Stays r r' k t = (r', refl, k.objects, Tracked-Stays r r' k t)

  -- A handler that leaves the views alone, and returns.
  pub TrackedIn-StaysIn :
      (r : Room) (o : Option Room)
      → StaysIn r o
      → (r' : Room) × (o ≡ some r')
      → Tracked r
      → TrackedIn r.objects o
  TrackedIn-StaysIn r o k (r', e) t =
      let k' : Stays r r' = rw e at k in (r', e, k'.objects, Tracked-Stays r r' k' t)

  pub TrackedIn-if :
      (objects : Dict ℕ) (c : Bool) (o p : Option Room)
      → (c ≡ true → TrackedIn objects o)
      → (c ≡ false → TrackedIn objects p)
      → TrackedIn objects (if c then o else p)
  TrackedIn-if objects true o p s t = s refl
  TrackedIn-if objects false o p s t = t refl

  pub TrackedIn-bind :
      (objects : Dict ℕ) (o : Option Room) (h : Room → Option Room)
      → TrackedIn objects o
      → ((s : Room) → o ≡ some s → s.objects ≡ objects → Tracked s → TrackedIn objects (h s))
      → TrackedIn objects (o >>= h)
  TrackedIn-bind objects o h (s, e, n, t) w =
      let (s', e', n', t') = w s e n t in (s', rw e e', n', t')

  pub TrackedIn-same :
      (os ps : Dict ℕ) (o : Option Room) → os ≡ ps → TrackedIn os o → TrackedIn ps o
  TrackedIn-same os ps o p (s, e, n, t) = (s, e, n ∙ p, t)

  pub npc_move-Tracked :
      (a : ℕ) (r : Room)
      → Registered a r
      → Tracked r
      → IsOnMap r (cell_of a r)
      → TrackedIn r.objects (npc_move a r)
  npc_move-Tracked a r e (f, t, w) i =
      let (from, here) = w.place (id_at a r) a e in
      Reaches-TrackedIn (npc_move a r) r.objects (put_at (id_at a r) (cell_of a r) f)
        (npc_move-Tracks a from r f e t here i)
        (Placed-put_at (id_at a r) (cell_of a r) r.objects f w)

  pub player_move-Tracked :
      (d : Detour) (dx : VectorMath) (a : ℕ) (p : PositionInfo) (force : Bool) (r : Room)
      → Registered a r
      → Tracked r
      → (may_go d dx a p (id_to_player (id_at a r) r) r ≡ true
          → IsOnMap r (to_cell_pos p r.game_map))
      → TrackedIn r.objects (player_move d dx a p force r)
  player_move-Tracked d dx a p force r e (f, t, w) i =
      let (from, here) = w.place (id_at a r) a e in
      let went = may_go d dx a p (id_to_player (id_at a r) r) r in
      Reaches-TrackedIn (player_move d dx a p force r) r.objects (walked d dx a p went r f)
        (player_move-Tracks d dx a p force from r f e t here i) (placed went f w)
    where
      placed :
          (c : Bool) (f : Places) → Placed r.objects f → Placed r.objects (walked d dx a p c r f)
      placed true f w = Placed-put_at (id_at a r) (to_cell_pos p r.game_map) r.objects f w
      placed false f w = w

  pub player_leave_room-Tracked :
      (a : ℕ) (r : Room)
      → Registered a r
      → Tracked r
      → TrackedIn (erase (id_at a r) r.objects) (player_leave_room a r)
  player_leave_room-Tracked a r e (f, t, w) =
      Reaches-TrackedIn (player_leave_room a r) (erase (id_at a r) r.objects) _
        (player_leave_room-Tracks a r f e t) (Placed-erase (id_at a r) r.objects f w)

  pub npc_enter_room-Tracked :
      (random : PositionInfo) (a : ℕ) (r : Room)
      → is_player (r.heap a).info.object_type ≡ false
      → find (id_at a r) r.objects ≡ none
      → (r.heap a).view_list ≡ []
      → IsOnMap r (cell_of a r)
      → Tracked r
      → TrackedIn ((id_at a r, a) ∷ r.objects) (npc_enter_room random a r)
  npc_enter_room-Tracked random a r npc fresh empty i (f, t, w) =
      Reaches-TrackedIn (npc_enter_room random a r) ((id_at a r, a) ∷ r.objects) _
        (npc_enter_room-Tracks random a r f npc fresh empty t i)
        (Placed-front (id_at a r) a (cell_of a r) r.objects f fresh w)

  pub player_enter_room-Tracked :
      (random : PositionInfo) (a : ℕ) (s : SpawnPoint) (ss : List SpawnPoint) (r : Room)
      → is_player (r.heap a).info.object_type ≡ true
      → find (id_at a r) r.objects ≡ none
      → (r.heap a).view_list ≡ []
      → r.game_map.spawn_points ≡ s ∷ ss
      → let p = if (r.heap a).is_dummy then random else spawn_position s in
        IsOnMap r (to_cell_pos p r.game_map)
        → Tracked r
        → TrackedIn ((id_at a r, a) ∷ r.objects) (player_enter_room random a r)
  player_enter_room-Tracked random a s ss r player fresh empty spawns i (f, t, w) =
      let p = if (r.heap a).is_dummy then random else spawn_position s in
      Reaches-TrackedIn (player_enter_room random a r) ((id_at a r, a) ∷ r.objects) _
        (player_enter_room-Tracks random a s ss r f player fresh empty spawns t i)
        (Placed-front (id_at a r) a (to_cell_pos p r.game_map) r.objects f fresh w)
