-- ===== src/Game/Moves/Walking.antt =====
-- PlayerMove of Room.cpp, with the places on the map before and after.
use simple_mmo.Prelude.{
  ℕ, Bool, true, false, Option, Dict, none, some, if◌then◌else◌, ◌≡◌, refl, ap, ◌∙◌, arith, ==_refl,
  Bool-cases, inl, inr,
}
use simple_mmo.Game.Floats.{Floats}
use simple_mmo.Game.Objects.{PositionInfo}
use simple_mmo.Game.GameMap.{CellPos, GameMap, to_cell_pos, update_map}
use simple_mmo.Game.GameMap.Grid.{IsInside}
use simple_mmo.Game.GameMap.Occupancy.{Places, put_at}
use simple_mmo.Game.World.{sc_move_object, Room, update_at, id_to_player}
use simple_mmo.Game.World.Sends.{heap-broadcast_aoi}
use simple_mmo.Game.Navmesh.{Detour, can_move}
use simple_mmo.Game.Movement.{VectorMath, move}
use simple_mmo.Game.Damage.{id_at}
use simple_mmo.Game.View.Changes.{Keeps-broadcast_aoi, Keeps-send_to}
use simple_mmo.Game.View.Stays.{
  Stays, Stays-refl, Stays-trans, Stays-if, IsGentle, Stays-update_at, Keeps-Stays,
  Registered-Stays,
}
use simple_mmo.Game.View.Symmetry.{Registered}
use simple_mmo.Game.Removal.{count}
use simple_mmo.Game.Moves.{
  show, set_position, position_at, stand, correct, place_at, stand_if_dummy, move_player,
  player_move,
}
use simple_mmo.Game.Moves.Shown.{Tracks, shows-same}
use simple_mmo.Game.Moves.Tracking.{Reaches, moving-Tracks}

module _ ⦃fl : Floats⦄ where
  -- A handler that leaves alone what decides views leaves the agreement with the places.
  pub Tracks-Stays : (r r' : Room) (f : Places) → Stays r r' → Tracks r f → Tracks r' f
  Tracks-Stays r r' f c v = record {
    keyed = λ i a p. c.id a ∙ v.keyed i a (rw c.objects at p);
    map = rw c.map v.map;
    absent = λ i p. v.absent i (rw c.objects at p);
    listed = λ i j a b p q ne.
        ap (count j) (c.view a)
        ∙ v.listed i j a b (rw c.objects at p) (rw c.objects at q) ne
        ∙ shows-same (f i) (f j) (ap (λ g. g.cells.grid_width) c.map)
            (ap (λ g. g.cells.grid_height) c.map) (c.kind a) (c.kind b);
    self = λ i a p. ap (count i) (c.view a) ∙ v.self i a (rw c.objects at p);
    strangers = λ i j a p q.
        ap (count j) (c.view a) ∙ v.strangers i j a (rw c.objects at p) (rw c.objects at q);
  }

  shows_same_place :
      {i j : ℕ} {p q : PositionInfo} {m n : GameMap} {os ps : Dict ℕ}
      → os ≡ ps
      → (o : Option Room) (f : Places) → i ≡ j
      → p ≡ q
      → m ≡ n
      → Reaches o os (put_at i (to_cell_pos p m) f)
      → Reaches o ps (put_at j (to_cell_pos q n) f)
  shows_same_place n o f e h k t = rw (← e, ← h, ← k, ← n) t

  set_position-IsGentle : (p : PositionInfo) → IsGentle (set_position p)
  set_position-IsGentle p = record { id = λ o. refl; kind = λ o. refl; view = λ o. refl }

  module _ (d : Detour) (dx : VectorMath) where
    stand-IsGentle : IsGentle (stand dx)
    unfolding move
    stand-IsGentle = record { id = λ o. refl; kind = λ o. refl; view = λ o. refl }

    Stays-stand_if_dummy : (a : ℕ) (r : Room) → Stays r (stand_if_dummy dx a r)
    Stays-stand_if_dummy a r =
        Stays-if (r.heap a).is_dummy r (update_at a (stand dx) r) r
          (Stays-update_at a (stand dx) r stand-IsGentle) (Stays-refl r)

    Stays-place_at : (a : ℕ) (p : PositionInfo) (r : Room) → Stays r (place_at a p r)
    Stays-place_at a p r =
        let placed = update_at a (set_position p) r in
        let told = sc_move_object (placed.heap a).info (placed.heap a).last_move_time in
        Stays-trans r placed (place_at a p r)
          (Stays-update_at a (set_position p) r (set_position-IsGentle p))
          (Keeps-Stays placed (place_at a p r) (Keeps-broadcast_aoi a told false placed))

    Stays-correct : (a : ℕ) (r : Room) → Stays r (correct a r)
    Stays-correct a r =
        let told = sc_move_object (r.heap a).info (r.heap a).last_move_time in
        Keeps-Stays r (correct a r) (Keeps-send_to (r.heap a).session told r)

    position_at-place_at :
        (a : ℕ) (p : PositionInfo) (r : Room) → position_at a (place_at a p r) ≡ p
    position_at-place_at a p r =
        let placed = update_at a (set_position p) r in
        let told = sc_move_object (placed.heap a).info (placed.heap a).last_move_time in
        ap (λ h. (h a).info.position) (heap-broadcast_aoi a told false placed)
        ∙ ground (arith, ==_refl a)

    -- The object that `PlayerMove` finds may go: there is one, and the mesh has a free way.
    abbrev pub may_go : ℕ → PositionInfo → Option ℕ → Room → Bool
    may_go a p none r = false
    may_go a p (some _) r = can_move d (position_at a r) p

    abbrev pub walked : ℕ → PositionInfo → Bool → Room → Places → Places
    walked a p went r f = if went then put_at (id_at a r) (to_cell_pos p r.game_map) f else f

    placed-Tracks :
        (a : ℕ) (p : PositionInfo) (from : CellPos) (r : Room) (f : Places)
        → Registered a r
        → Tracks r f
        → f (id_at a r) ≡ some from
        → IsInside r.game_map.cells.grid_width r.game_map.cells.grid_height
            (to_cell_pos p r.game_map)
        → let placed = place_at a p (stand_if_dummy dx a r) in
          Reaches
            (show a placed (update_map (id_at a placed) (position_at a placed) placed.game_map))
            r.objects
            (put_at (id_at a r) (to_cell_pos p r.game_map) f)
    placed-Tracks a p from r f e v here i =
        let stood = stand_if_dummy dx a r in
        let placed = place_at a p stood in
        let k = Stays-trans r stood placed (Stays-stand_if_dummy a r) (Stays-place_at a p stood) in
        let at_p = position_at-place_at a p stood in
        shows_same_place k.objects
          (show a placed (update_map (id_at a placed) (position_at a placed) placed.game_map)) f
          (k.id a) at_p k.map
          (moving-Tracks a from placed f (Registered-Stays a r placed k e)
            (Tracks-Stays r placed f k v) (rw (k.id a) here) (rw (at_p, k.map) i))

    move_player-Tracks :
        (a : ℕ) (p : PositionInfo) (from : CellPos) (found : Option ℕ) (r : Room) (f : Places)
        → Registered a r
        → Tracks r f
        → f (id_at a r) ≡ some from
        → (may_go a p found r ≡ true
            → IsInside r.game_map.cells.grid_width r.game_map.cells.grid_height
                (to_cell_pos p r.game_map))
        → Reaches (move_player d dx a p found r) r.objects (walked a p (may_go a p found r) r f)
    move_player-Tracks a p from none r f e v here i = (r, refl, refl, v)
    move_player-Tracks a p from (some b) r f e v here i =
        elim (Bool-cases (can_move d (position_at a r) p)) [
          | inl free ↦ rw free (placed-Tracks a p from r f e v here (i free))
          | inr blocked ↦
              let stood = stand_if_dummy dx a r in
              let k =
                Stays-trans r stood (correct a stood) (Stays-stand_if_dummy a r)
                  (Stays-correct a stood) in
              rw blocked (correct a stood, refl, k.objects, Tracks-Stays r (correct a stood) f k v)
        ]

    -- From a room whose lists and map agree with some places, a registered player that has a place
    -- can ask to move to any position whose cell is one of the grid, or to any at all if it may
    -- not go there. The room keeps its objects and then agrees with the places where the player
    -- alone has moved, if it is one of the room's players and the mesh has a free way, and with
    -- the old places otherwise.
    pub player_move-Tracks :
        (a : ℕ) (p : PositionInfo) (force : Bool) (from : CellPos) (r : Room) (f : Places)
        → Registered a r
        → Tracks r f
        → f (id_at a r) ≡ some from
        → (may_go a p (id_to_player (id_at a r) r) r ≡ true
            → IsInside r.game_map.cells.grid_width r.game_map.cells.grid_height
                (to_cell_pos p r.game_map))
        → Reaches
            (player_move d dx a p force r)
            r.objects
            (walked a p (may_go a p (id_to_player (id_at a r) r) r) r f)
    unfolding player_move
    player_move-Tracks a p force from r f e v here i =
        move_player-Tracks a p from (id_to_player (id_at a r) r) r f e v here i
