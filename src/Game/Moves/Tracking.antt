-- ===== src/Game/Moves/Tracking.antt =====
-- PlayerEnterRoom, NpcEnterRoom, NPCMove and PlayerLeaveRoom of Room.cpp, with the places on the
-- map before and after.
use simple_mmo.Prelude.{
  ℕ, true, false, Option, none, some, List, [], ◌∷◌, if◌then◌else◌, ◌≡◌, refl, ap, ◌∙◌, arith, Dict,
  find, erase, emplace, ==_refl,
}
use simple_mmo.Game.Floats.{Floats}
use simple_mmo.Game.Objects.{PositionInfo, is_player}
use simple_mmo.Game.GameMap.{
  CellPos, SpawnPoint, to_cell_pos, enter_map, update_map, leave_game_map,
}
use simple_mmo.Game.GameMap.Grid.{IsInside}
use simple_mmo.Game.GameMap.Occupancy.{Places, put_at, take_off}
use simple_mmo.Game.GameMap.Enter.{enter_cell-refines}
use simple_mmo.Game.GameMap.Update.{update_cell-refines}
use simple_mmo.Game.GameMap.Leave.{leave_map-refines}
use simple_mmo.Game.World.{Packet, sc_add_object, Room, send_to, update_at}
use simple_mmo.Game.Damage.{id_at}
use simple_mmo.Game.View.Symmetry.{Registered}
use simple_mmo.Game.Moves.{
  show, enter_owner, set_position, place_player, position_at, add_object, spawn_position,
  player_enter_room, npc_enter_room, player_leave_room, npc_move, drop_player, remove_object,
}
use simple_mmo.Game.Moves.Sights.{shown_room}
use simple_mmo.Game.Moves.Shown.{Tracks, shown_room-Tracks, shown_room-objects}
use simple_mmo.Game.Moves.Arrival.{IsArrival, arrival-Tracks, departure-Tracks}
use simple_mmo.Game.Moves.Reports.{entered-IsReport, moved-IsReport, left-IsReport}

module _ ⦃fl : Floats⦄ where
  -- The operation ends, and the room that it gives has these objects, and its lists and its map
  -- agree with these places.
  abbrev pub Reaches : Option Room → Dict ℕ → Places → Type 0
  Reaches o objects f = (r' : Room) × (o ≡ some r') × (r'.objects ≡ objects) × Tracks r' f

  abbrev pub cell_of : ℕ → Room → CellPos
  cell_of a r = to_cell_pos (position_at a r) r.game_map

  entering-Tracks :
      (a : ℕ) (r : Room) (f : Places)
      → Registered a r
      → Tracks r f
      → f (id_at a r) ≡ none
      → IsInside r.game_map.cells.grid_width r.game_map.cells.grid_height (cell_of a r)
      → Reaches
          (show a r (enter_map (id_at a r) (position_at a r) r.game_map))
          r.objects
          (put_at (id_at a r) (cell_of a r) f)
  unfolding enter_map
  entering-Tracks a r f e v new i =
      let (u, m, q, x, k, l, z) =
        enter_cell-refines (id_at a r) (cell_of a r) r.game_map.cells f v.map new i in
      (
        shown_room a r u (record r.game_map { cells = m }),
        rw q refl,
        shown_room-objects a r u m f e v,
        shown_room-Tracks a r u m f _ e v x z
            (entered-IsReport _ _ (id_at a r) (cell_of a r) f u new k l),
      )

  pub moving-Tracks :
      (a : ℕ) (from : CellPos) (r : Room) (f : Places)
      → Registered a r
      → Tracks r f
      → f (id_at a r) ≡ some from
      → IsInside r.game_map.cells.grid_width r.game_map.cells.grid_height (cell_of a r)
      → Reaches
          (show a r (update_map (id_at a r) (position_at a r) r.game_map))
          r.objects
          (put_at (id_at a r) (cell_of a r) f)
  unfolding update_map
  moving-Tracks a from r f e v here i =
      let (u, m, q, x, k, l, z) =
        update_cell-refines (id_at a r) from (cell_of a r) r.game_map.cells f v.map here i in
      (
        shown_room a r u (record r.game_map { cells = m }),
        rw q refl,
        shown_room-objects a r u m f e v,
        shown_room-Tracks a r u m f _ e v x z
            (moved-IsReport _ _ (id_at a r) from (cell_of a r) f u here k l),
      )

  -- From a room whose lists and map agree with some places, a registered monster that has a place
  -- can move to any cell of the grid. The room keeps its objects and then agrees with the places
  -- where the monster alone has moved: of two objects one lists the other, once, exactly if it
  -- sees the other's kind and has the other's new cell in sight.
  pub npc_move-Tracks :
      (a : ℕ) (from : CellPos) (r : Room) (f : Places)
      → Registered a r
      → Tracks r f
      → f (id_at a r) ≡ some from
      → IsInside r.game_map.cells.grid_width r.game_map.cells.grid_height (cell_of a r)
      → Reaches (npc_move a r) r.objects (put_at (id_at a r) (cell_of a r) f)
  unfolding npc_move
  npc_move-Tracks a from r f e v here i = rw e (moving-Tracks a from r f e v here i)

  -- From a room whose lists and map agree with some places, a registered player can leave. The
  -- room has then lost it from its objects and agrees with the places without it; nobody who stays
  -- lists it.
  pub player_leave_room-Tracks :
      (a : ℕ) (r : Room) (f : Places)
      → Registered a r
      → Tracks r f
      → Reaches (player_leave_room a r) (erase (id_at a r) r.objects) (take_off (id_at a r) f)
  unfolding player_leave_room leave_game_map remove_object
  player_leave_room-Tracks a r f e v =
      let id = id_at a r in
      let (u, m, q, x, k, l, z) = leave_map-refines id r.game_map.cells f v.map in
      let shown = shown_room a r u (record r.game_map { cells = m }) in
      (
        drop_player id (remove_object id shown),
        rw q refl,
        ap (erase id) (shown_room-objects a r u m f e v),
        departure-Tracks id shown (take_off id f) (rw (==_refl id) refl)
            (shown_room-Tracks a r u m f _ e v x z (left-IsReport _ _ id f u k l)),
      )

  arriving-Tracks :
      (a : ℕ) (r r' : Room) (p : PositionInfo) (f : Places)
      → IsArrival a r r'
      → position_at a r' ≡ p
      → Tracks r f
      → IsInside r.game_map.cells.grid_width r.game_map.cells.grid_height (to_cell_pos p r.game_map)
      → Reaches
          (show a r' (enter_map (id_at a r') (position_at a r') r'.game_map))
          ((id_at a r, a) ∷ r.objects)
          (put_at (id_at a r) (to_cell_pos p r.game_map) f)
  unfolding find
  arriving-Tracks a r r' p f c here v i =
      let registered : Registered a r' = rw (c.objects, c.id a, ==_refl (id_at a r)) refl in
      let (s, q, n, t) =
        entering-Tracks a r' f registered (arrival-Tracks a r r' f c v)
          (rw (c.id a) (v.absent (id_at a r) c.fresh)) (rw (here, c.map) i) in
      (s, q, n ∙ c.objects, rw (c.id a, here, c.map) at t)

  -- `AddObject`, but for the position of a player.
  abbrev arrived : ℕ → Room → Room
  arrived a r = update_at a enter_owner (record r { objects = (id_at a r, a) ∷ r.objects })

  -- A room whose lists and map agree with some places can be entered by an object that is no
  -- player, whose id is free, that lists nobody and that stands in a cell of the grid. The room
  -- then has it among its objects and agrees with the places where it has been put there.
  pub npc_enter_room-Tracks :
      (random : PositionInfo) (a : ℕ) (r : Room) (f : Places)
      → is_player (r.heap a).info.object_type ≡ false
      → find (id_at a r) r.objects ≡ none
      → (r.heap a).view_list ≡ []
      → Tracks r f
      → IsInside r.game_map.cells.grid_width r.game_map.cells.grid_height (cell_of a r)
      → Reaches
          (npc_enter_room random a r)
          ((id_at a r, a) ∷ r.objects)
          (put_at (id_at a r) (cell_of a r) f)
  unfolding npc_enter_room add_object emplace
  npc_enter_room-Tracks random a r f npc fresh empty v i =
      let listed : Room = record (arrived a r) {
        monsters = (emplace (id_at a (arrived a r)) a r.monsters).0;
      } in
      let c : IsArrival a r listed = record {
        fresh = fresh;
        objects = refl;
        map = refl;
        id = λ b. ground arith;
        kind = λ b. ground arith;
        view = λ b. ground arith;
        empty = empty;
      } in
      rw (fresh, npc)
        (arriving-Tracks a r listed (position_at a r) f c (ground (arith, ==_refl a)) v i)

  -- The two packets with which a player who enters is told of itself.
  abbrev greet : Option ℕ → Packet → Room → Room
  greet session p r = send_to session p (send_to session p r)

  record IsGreeted (r r' : Room) : Type 0 where
    objects : r'.objects ≡ r.objects
    map : r'.game_map ≡ r.game_map
    heap : r'.heap ≡ r.heap

  greet-IsGreeted : (session : Option ℕ) (p : Packet) (r : Room) → IsGreeted r (greet session p r)
  greet-IsGreeted none p r = record { objects = refl; map = refl; heap = refl }
  greet-IsGreeted (some s) p r = record { objects = refl; map = refl; heap = refl }

  place_player_first :
      (random : PositionInfo) (a : ℕ) (s : SpawnPoint) (ss spawns : List SpawnPoint) (r : Room)
      → spawns ≡ s ∷ ss
      → place_player random a spawns r
        ≡ some (
            update_at a (set_position (if (r.heap a).is_dummy then random else spawn_position s)) r)
  place_player_first random a s ss spawns r e = rw e refl

  -- A room with a spawn point whose lists and map agree with some places can be entered by a
  -- player whose id is free and that lists nobody, if the cell of the first spawn point, or of the
  -- random position where the player is a dummy, is one of the grid. The room then has the player
  -- among its objects and agrees with the places where the player has been put there.
  pub player_enter_room-Tracks :
      (random : PositionInfo) (a : ℕ) (s : SpawnPoint) (ss : List SpawnPoint) (r : Room)
      (f : Places)
      → is_player (r.heap a).info.object_type ≡ true
      → find (id_at a r) r.objects ≡ none
      → (r.heap a).view_list ≡ []
      → r.game_map.spawn_points ≡ s ∷ ss
      → Tracks r f
      → let p = if (r.heap a).is_dummy then random else spawn_position s in
        IsInside r.game_map.cells.grid_width r.game_map.cells.grid_height (to_cell_pos p r.game_map)
        → Reaches
            (player_enter_room random a r)
            ((id_at a r, a) ∷ r.objects)
            (put_at (id_at a r) (to_cell_pos p r.game_map) f)
  unfolding player_enter_room add_object emplace
  player_enter_room-Tracks random a s ss r f player fresh empty spawns v i =
      let p = if (r.heap a).is_dummy then random else spawn_position s in
      let start = if ((arrived a r).heap a).is_dummy then random else spawn_position s in
      let placed = update_at a (set_position start) (arrived a r) in
      let listed : Room = record placed { players = (emplace (id_at a placed) a r.players).0 } in
      let session = (placed.heap a).session in
      let add = sc_add_object (placed.heap a).info in
      let told = greet session add listed in
      let k = greet-IsGreeted session add listed in
      let c : IsArrival a r told = record {
        fresh = fresh;
        objects = k.objects;
        map = k.map;
        id = λ b. rw k.heap (ground arith);
        kind = λ b. rw k.heap (ground arith);
        view = λ b. rw k.heap (ground arith);
        empty = empty;
      } in
      let here : position_at a told ≡ p =
        ap (λ o. (o a).info.position) k.heap ∙ ground (arith, ==_refl a) in
      rw
        (
          fresh,
          player,
          place_player_first random a s ss r.game_map.spawn_points (arrived a r) spawns,
        )
        (arriving-Tracks a r told p f c here v i)
