-- ===== src/Game/Handling/Opening.antt =====
-- A room from the loading of its map on (GameMap.cpp, Room.cpp).
use simple_mmo.Prelude.{ℕ, Bool, Option, some, List, [], ◌≡◌, refl, find}
use simple_mmo.Game.Floats.{Floats}
use simple_mmo.Game.Objects.{Object}
use simple_mmo.Game.Navmesh.{Detour}
use simple_mmo.Game.Movement.{VectorMath}
use simple_mmo.Game.GameMap.{GameMap, SpawnPoint}
use simple_mmo.Game.GameMap.Occupancy.{Represents}
use simple_mmo.Game.GameMap.Loading.{Bounds, nowhere, load_map_data, load_map_data-Represents}
use simple_mmo.Game.Moves.Placed.{IsDistinct}
use simple_mmo.Game.Moves.Tracked.{Tracked}
use simple_mmo.Game.Handling.{Request, new_room, execute_jobs}
use simple_mmo.Game.Handling.Tracking.{AllowedAlong, EndsTracked, execute_jobs-Tracked}

module _ ⦃fl : Floats⦄ where
  new_room-Tracked :
      (m : GameMap) (heap : ℕ → Object) → Represents m.cells nowhere → Tracked (new_room m heap)
  unfolding IsDistinct find
  new_room-Tracked m heap v = (
    nowhere,
    record {
      keyed = λ i a p. cc;
      map = v;
      absent = λ i p. refl;
      listed = λ i j a b p q ne. cc;
      self = λ i a p. cc;
      strangers = λ i j a p q. cc;
    },
    record { distinct = tt; place = λ i a p. cc },
  )

  -- If the mesh of a map without objects has bounds and the map can be loaded, whatever the file
  -- of spawn points gives, then all the jobs that a new room around that map runs, in whatever
  -- order, end and leave a room whose lists and map agree, if each job is allowed when it is its
  -- turn.
  pub loaded_room-Tracked :
      (d : Detour) (dx : VectorMath) (b : Bounds) (spawns : Option (List SpawnPoint))
      (m m' : GameMap) (good : Bool) (heap : ℕ → Object) (qs : List (ℕ × Request))
      → m.cells.id_to_cell_pos ≡ []
      → load_map_data (some b) spawns m ≡ some (good, m')
      → AllowedAlong d dx qs (new_room m' heap)
      → EndsTracked d dx (execute_jobs d dx qs (new_room m' heap))
  loaded_room-Tracked d dx b spawns m m' good heap qs e p i =
      execute_jobs-Tracked d dx qs (new_room m' heap)
        (new_room-Tracked m' heap (load_map_data-Represents b spawns m m' good e p)) i
