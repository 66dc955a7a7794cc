-- ===== src/Game/GameMap.antt =====
-- GameMap.h and GameMap.cpp: the grid of cells by which the room finds who is near. An access to a
-- cell outside the grid, which the C++ leaves undefined, is `none`.
pub mod Grid
pub mod Cell
pub mod Sight
pub mod Occupancy
pub mod Report
pub mod Enter
pub mod Update
pub mod Leave
pub mod Neighbors
pub mod Loading
pub mod Margins
pub mod Scenes
mod Tests
use simple_mmo.Prelude.{
  ℕ, Bool, true, false, Option, none, some, List, [], ◌∷◌, ◌++◌, ◌&&◌, ◌==◌, if◌then◌else◌, ltb,
  Dict, find, assign, erase, get_elem?, set,
}
use simple_mmo.Prelude.Int.{ℤ, pos, negsuc, ◌+ℤ◌, ◌-ℤ◌}
use simple_mmo.Prelude.Options.{◌>>=◌}
use simple_mmo.Game.Removal.{remove_swap}
use simple_mmo.Game.Floats.{Floats}
use simple_mmo.Game.Objects.{PositionInfo}

pub record ViewUpdate : Type 0 where
  pub entered : List ℕ
  pub leaved : List ℕ

pub record CellPos : Type 0 where
  pub x : ℤ
  pub y : ℤ

abbrev pub same_int : ℤ → ℤ → Bool
same_int (pos a) (pos b) = a == b
same_int (negsuc a) (negsuc b) = a == b
same_int _ _ = false

abbrev pub same_cell : CellPos → CellPos → Bool
same_cell a b = same_int a.x b.x && same_int a.y b.y

-- The object ids of a cell, and the grid row by row.
abbrev pub Grid : Type 0
Grid = List (List (List ℕ))

abbrev pub at_int {ℓ} : {A : Type ℓ} → List A → ℤ → Option A
at_int xs (pos i) = get_elem? xs i
at_int xs (negsuc i) = none

abbrev pub set_int {ℓ} : {A : Type ℓ} → List A → ℤ → A → List A
set_int xs (pos i) v = set xs i v
set_int xs (negsuc i) v = xs

-- `_grid[y][x].objectIds`, and its new contents.
unfoldable pub cell_at : Grid → CellPos → Option (List ℕ)
cell_at grid c = at_int grid c.y >>= λ row. at_int row c.x

abbrev pub set_in_row : Option (List (List ℕ)) → Grid → CellPos → List ℕ → Grid
set_in_row none grid c ids = grid
set_in_row (some row) grid c ids = set_int grid c.y (set_int row c.x ids)

unfoldable pub set_cell : Grid → CellPos → List ℕ → Grid
set_cell grid c ids = set_in_row (at_int grid c.y) grid c ids

-- `x >= 0 && x < size`
abbrev pub in_range : ℤ → ℕ → Bool
in_range (pos i) size = ltb i size
in_range (negsuc i) size = false

-- The loop bounds of `GetNeighborCells`, with `VIEW_RANGE_CELLS` equal to 1.
abbrev pub span : ℤ → List ℤ
span c = (c -ℤ pos 1) ∷ c ∷ (c +ℤ pos 1) ∷ []

unfoldable pub cells_in_row : ℕ → ℕ → ℤ → List ℤ → List CellPos
cells_in_row width height y [] = []
cells_in_row width height y (x ∷ xs) =
    let rest = cells_in_row width height y xs in
    if in_range x width && in_range y height then record { x = x; y = y } ∷ rest else rest

unfoldable pub cells_in_rows : ℕ → ℕ → List ℤ → List ℤ → List CellPos
cells_in_rows width height [] xs = []
cells_in_rows width height (y ∷ ys) xs =
    cells_in_row width height y xs ++ cells_in_rows width height ys xs

-- `GetNeighborCells`
unfoldable pub neighbor_cells : ℕ → ℕ → CellPos → List CellPos
unfolding cells_in_rows cells_in_row
neighbor_cells width height c = cells_in_rows width height (span c.y) (span c.x)

-- `find(cells.begin(), cells.end(), c) != cells.end()`
unfoldable pub has_cell : CellPos → List CellPos → Bool
has_cell c [] = false
has_cell c (d ∷ ds) = if same_cell d c then true else has_cell c ds

unfoldable pub cells_outside : List CellPos → List CellPos → List CellPos
cells_outside known [] = []
cells_outside known (c ∷ cs) =
    let rest = cells_outside known cs in if has_cell c known then rest else c ∷ rest

-- `CollectObject`, and its call for each of some cells.
unfoldable pub collect_object : Grid → CellPos → List ℕ → Option (List ℕ)
collect_object grid c out = cell_at grid c >>= λ ids. some (out ++ ids)

unfoldable pub collect_objects : Grid → List CellPos → List ℕ → Option (List ℕ)
collect_objects grid [] out = some out
collect_objects grid (c ∷ cs) out =
    collect_object grid c out >>= λ next. collect_objects grid cs next

-- The grid and `_id2CellPos` with the size of the grid.
pub record Cells : Type 0 where
  pub grid : Grid
  pub id_to_cell_pos : Dict CellPos
  pub grid_width : ℕ
  pub grid_height : ℕ

abbrev pub no_update : ViewUpdate
no_update = record { entered = []; leaved = [] }

abbrev pub cell_or_origin : Option CellPos → CellPos
cell_or_origin none = record { x = pos 0; y = pos 0 }
cell_or_origin (some c) = c

-- `EnterMap` behind `ToCellPos`.
unfoldable pub enter_cell : ℕ → CellPos → Cells → Option (ViewUpdate × Cells)
enter_cell id c m = do
  ids ← cell_at m.grid c
  let m' = record m {
    grid = set_cell m.grid c (ids ++ id ∷ []);
    id_to_cell_pos = assign id c m.id_to_cell_pos;
  }
  entered ← collect_objects m'.grid (neighbor_cells m.grid_width m.grid_height c) []
  some (record { entered = entered; leaved = [] }, m')

-- The part of `UpdateMap` behind the early return.
unfoldable pub move_cell : ℕ → CellPos → CellPos → Cells → Option (ViewUpdate × Cells)
move_cell id from to m = do
  old_ids ← cell_at m.grid from
  let left = set_cell m.grid from (remove_swap id old_ids)
  new_ids ← cell_at left to
  let m' = record m {
    grid = set_cell left to (new_ids ++ id ∷ []);
    id_to_cell_pos = assign id to m.id_to_cell_pos;
  }
  let old_view = neighbor_cells m.grid_width m.grid_height from
  let new_view = neighbor_cells m.grid_width m.grid_height to
  entered ← collect_objects m'.grid (cells_outside old_view new_view) []
  leaved ← collect_objects m'.grid (cells_outside new_view old_view) []
  some (record { entered = entered; leaved = leaved }, m')

-- `UpdateMap` behind `ToCellPos`. Reading `_id2CellPos[objectId]` enters a missing id at the origin.
unfoldable pub update_cell : ℕ → CellPos → Cells → Option (ViewUpdate × Cells)
update_cell id to m =
    let from = cell_or_origin (find id m.id_to_cell_pos) in
    let m' = record m { id_to_cell_pos = assign id from m.id_to_cell_pos } in
    if same_cell to from then some (no_update, m') else move_cell id from to m'

-- The part of `LeaveMap` behind the early return.
unfoldable pub leave_cell : ℕ → CellPos → Cells → Option (ViewUpdate × Cells)
leave_cell id c m = do
  ids ← cell_at m.grid c
  let m' = record m {
    grid = set_cell m.grid c (remove_swap id ids);
    id_to_cell_pos = erase id m.id_to_cell_pos;
  }
  leaved ← collect_objects m'.grid (neighbor_cells m.grid_width m.grid_height c) []
  some (record { entered = []; leaved = leaved }, m')

abbrev pub leave_found : ℕ → Option CellPos → Cells → Option (ViewUpdate × Cells)
leave_found id none m = some (no_update, m)
leave_found id (some c) m = leave_cell id c m

-- `LeaveMap`
unfoldable pub leave_map : ℕ → Cells → Option (ViewUpdate × Cells)
leave_map id m = leave_found id (find id m.id_to_cell_pos) m

module _ ⦃fl : Floats⦄ where
  open fl use {F, ratio, sub, div, to_int}

  pub record SpawnPoint : Type 0 where
    pub point_id : ℤ
    pub x : F
    pub y : F
    pub z : F
    pub yaw : F

  pub record GameMap : Type 0 where
    pub cells : Cells
    pub min_x : F
    pub max_x : F
    pub min_y : F
    pub max_y : F
    pub spawn_points : List SpawnPoint

  unfoldable pub to_cell_pos : PositionInfo → GameMap → CellPos
  to_cell_pos p m = record {
    x = to_int (div (sub p.x m.min_x) (ratio 1000 1));
    y = to_int (div (sub p.y m.min_y) (ratio 1000 1));
  }

  abbrev pub with_cells : GameMap → ViewUpdate × Cells → Option (ViewUpdate × GameMap)
  with_cells m (u, cells) = some (u, record m { cells = cells })

  unfoldable pub enter_map : ℕ → PositionInfo → GameMap → Option (ViewUpdate × GameMap)
  enter_map id p m = enter_cell id (to_cell_pos p m) m.cells >>= with_cells m

  unfoldable pub update_map : ℕ → PositionInfo → GameMap → Option (ViewUpdate × GameMap)
  update_map id p m = update_cell id (to_cell_pos p m) m.cells >>= with_cells m

  unfoldable pub leave_game_map : ℕ → GameMap → Option (ViewUpdate × GameMap)
  leave_game_map id m = leave_map id m.cells >>= with_cells m

  unfoldable pub get_spawn_point : ℤ → GameMap → Option SpawnPoint
  get_spawn_point i m = at_int m.spawn_points i
