-- ===== src/Game/GameMap/Enter.antt =====
-- `GameMap::EnterMap` (GameMap.cpp), from the places of the objects before to those after.
use simple_mmo.Prelude.{ℕ, none, some, [], ◌∷◌, ◌++◌, ◌≡◌, refl, ◌∙◌, assign}
use simple_mmo.Game.Removal.{count}
use simple_mmo.Game.GameMap.{CellPos, Cells, ViewUpdate, set_cell, neighbor_cells, enter_cell}
use simple_mmo.Game.GameMap.Grid.{IsInside, cell_at-inside, set_cell-IsGrid, placed}
use simple_mmo.Game.GameMap.Occupancy.{Places, put_at, SameSize, Represents, IsHeld-put_at}
use simple_mmo.Game.GameMap.Report.{
  seen_from, neighbor_cells-IsInside, count_place-neighbor_cells, collects, recorded-assign,
}

-- An object that is not on the map can enter any cell of the grid: afterwards it is in that cell and
-- the others are where they were, and `entered` has each object in sight of the cell once, the new
-- one included, and no other object.
pub enter_cell-refines :
    (id : ℕ) (c : CellPos) (m : Cells) (f : Places)
    → Represents m f
    → f id ≡ none
    → IsInside m.grid_width m.grid_height c
    → (u : ViewUpdate) × (m' : Cells) × (enter_cell id c m ≡ some (u, m'))
      × Represents m' (put_at id c f)
      × ((j : ℕ) → count j u.entered ≡ seen_from m.grid_width m.grid_height c (put_at id c f j))
      × (u.leaved ≡ [])
      × SameSize m m'
unfolding enter_cell
enter_cell-refines id c m f v new inside =
    let w = m.grid_width in
    let h = m.grid_height in
    let (ids, a) = cell_at-inside w h m.grid c v.sound.grid inside in
    let grid' = set_cell m.grid c (ids ++ id ∷ []) in
    let gv = set_cell-IsGrid w h m.grid c (ids ++ id ∷ []) v.sound.grid inside in
    let l = IsHeld-put_at w h id c m.grid f ids v.sound.grid inside v.held new a in
    let (entered, b, k) =
      collects w h grid' (put_at id c f) (neighbor_cells w h c) gv l
        (neighbor_cells-IsInside w h c) in
    (
      record { entered = entered; leaved = [] },
      record m { grid = grid'; id_to_cell_pos = assign id c m.id_to_cell_pos },
      rw (a, b) refl,
      record {
        sound = record {
          grid = gv;
          recorded = placed w h id c m.id_to_cell_pos inside v.sound.recorded;
        };
        recorded = λ j. recorded-assign id c m f v j;
        held = l;
      },
      λ j. k j ∙ count_place-neighbor_cells w h c (put_at id c f j),
      refl,
      (refl, refl),
    )
