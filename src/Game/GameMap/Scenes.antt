-- ===== src/Game/GameMap/Scenes.antt =====
-- Two objects on a grid of 3 by 1: entering, moving and leaving there.
use simple_mmo.Prelude.{ℕ, zero, suc, ◌≡◌, refl, none, some, List, [], ◌∷◌, find, arith}
use simple_mmo.Prelude.Int.{ℤ, pos, negsuc}
use simple_mmo.Game.Removal.{count}
use simple_mmo.Game.GameMap.{
  CellPos, Cells, ViewUpdate, cell_at, enter_cell, update_cell, leave_map,
}
use simple_mmo.Game.GameMap.Occupancy.{Places, put_at, take_off, SameSize, Represents, is_at}
use simple_mmo.Game.GameMap.Report.{seen_from, newly_seen}
use simple_mmo.Game.GameMap.Enter.{enter_cell-refines}
use simple_mmo.Game.GameMap.Update.{update_cell-refines}
use simple_mmo.Game.GameMap.Leave.{seen_by, leave_map-refines}

abbrev pub column : ℕ → CellPos
column x = record { x = pos x; y = pos 0 }

-- Object 1 is in the first cell, object 2 in the last.
abbrev pub places : Places
places = put_at 1 (column 0) (put_at 2 (column 2) (λ j. none))

abbrev pub scene : Cells
scene = record {
  grid = (((1 ∷ []) ∷ [] ∷ (2 ∷ []) ∷ []) ∷ []);
  id_to_cell_pos = (1, column 0) ∷ (2, column 2) ∷ [];
  grid_width = 3;
  grid_height = 1;
}

scene_held :
    (x y : ℤ) (ids : List ℕ)
    → cell_at scene.grid (record { x = x; y = y }) ≡ some ids
    → (j : ℕ) → count j ids ≡ is_at (places j) (record { x = x; y = y })
unfolding cell_at count
scene_held (pos zero) (pos zero) ids e j = ground arith
scene_held (pos (suc zero)) (pos zero) ids e j = ground arith
scene_held (pos (suc (suc zero))) (pos zero) ids e j = ground arith
scene_held (pos (suc (suc (suc x)))) (pos zero) ids e j = ground arith
scene_held (negsuc x) (pos zero) ids e j = ground arith
scene_held x (pos (suc y)) ids e j = ground arith
scene_held x (negsuc y) ids e j = ground arith

pub scene-Represents : Represents scene places
unfolding find cell_at count
scene-Represents = record {
  sound = record {
    grid = record { rows = refl; widths = (refl, tt) };
    recorded = λ id c p. ground arith;
  };
  recorded = λ j. ground arith;
  held = λ c ids e j. scene_held c.x c.y ids e j;
}

enter_cell-refines_example :
    (u : ViewUpdate) × (m' : Cells) × (enter_cell 3 (column 1) scene ≡ some (u, m'))
    × Represents m' (put_at 3 (column 1) places)
    × ((j : ℕ) → count j u.entered ≡ seen_from 3 1 (column 1) (put_at 3 (column 1) places j))
    × (u.leaved ≡ [])
    × SameSize scene m'
enter_cell-refines_example =
    enter_cell-refines 3 (column 1) scene places scene-Represents refl (refl, refl)

-- Object 1 comes into sight of object 2.
update_cell-refines_example :
    (u : ViewUpdate) × (m' : Cells) × (update_cell 1 (column 1) scene ≡ some (u, m'))
    × Represents m' (put_at 1 (column 1) places)
    × ((j : ℕ)
        → count j u.entered ≡ newly_seen 3 1 (column 0) (column 1) (put_at 1 (column 1) places j))
    × ((j : ℕ)
        → count j u.leaved ≡ newly_seen 3 1 (column 1) (column 0) (put_at 1 (column 1) places j))
    × SameSize scene m'
update_cell-refines_example =
    update_cell-refines 1 (column 0) (column 1) scene places scene-Represents refl (refl, refl)

leave_map-refines_example :
    (u : ViewUpdate) × (m' : Cells) × (leave_map 2 scene ≡ some (u, m'))
    × Represents m' (take_off 2 places)
    × ((j : ℕ) → count j u.leaved ≡ seen_by 3 1 (places 2) (take_off 2 places j))
    × (u.entered ≡ [])
    × SameSize scene m'
leave_map-refines_example = leave_map-refines 2 scene places scene-Represents
