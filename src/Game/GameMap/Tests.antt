-- ===== src/Game/GameMap/Tests.antt =====
-- Cells of a grid of 4 by 3, and the theorem on neighbours there.
use simple_mmo.Prelude.{ℕ, if◌then◌else◌, ◌≡◌, refl, [], ◌∷◌}
use simple_mmo.Prelude.Int.{pos, ◌+ℤ◌, ◌-ℤ◌}
use simple_mmo.Game.GameMap.{CellPos, neighbor_cells, cells_in_rows, cells_in_row}
use simple_mmo.Game.GameMap.Cell.{count_cell}
use simple_mmo.Game.GameMap.Sight.{in_sight, count_cell-neighbor_cells}

abbrev cell : ℕ → ℕ → CellPos
cell x y = record { x = pos x; y = pos y }

corner : neighbor_cells 4 3 (cell 0 0) ≡ cell 0 0 ∷ cell 1 0 ∷ cell 0 1 ∷ cell 1 1 ∷ []
unfolding neighbor_cells cells_in_rows cells_in_row ◌+ℤ◌ ◌-ℤ◌
corner = refl

count_cell-neighbor_cells_example :
    count_cell (cell 2 1) (neighbor_cells 4 3 (cell 3 2))
    ≡ (if in_sight 4 3 (cell 3 2) (cell 2 1) then 1 else 0)
count_cell-neighbor_cells_example = count_cell-neighbor_cells 4 3 (cell 3 2) (cell 2 1)
