-- ===== src/Game/GameMap/Report.antt =====
-- What EnterMap, UpdateMap and LeaveMap (GameMap.cpp) report of the objects around a cell.
use simple_mmo.Prelude.{
  ℕ, Option, none, some, List, [], ◌∷◌, ◌&&◌, ◌==◌, if◌then◌else◌, not, ltb, ◌≡◌, refl, ap, ◌∙◌,
  arith, All, find, assign, find-assign,
}
use simple_mmo.Game.Removal.{count}
use simple_mmo.Game.GameMap.{
  CellPos, Grid, Cells, neighbor_cells, has_cell, cells_outside, collect_objects, span,
}
use simple_mmo.Game.GameMap.Grid.{IsGrid, IsInside, cells_in_rows-IsInside}
use simple_mmo.Game.GameMap.Cell.{count_cell, count_cell-cells_outside}
use simple_mmo.Game.GameMap.Sight.{in_sight, count_cell-neighbor_cells}
use simple_mmo.Game.GameMap.Occupancy.{
  Places, put_at, IsHeld, Represents, count_place, collect_objects-count,
}

pub neighbor_cells-IsInside : (w h : ℕ) (c : CellPos) → All (IsInside w h) (neighbor_cells w h c)
unfolding neighbor_cells
neighbor_cells-IsInside w h c = cells_in_rows-IsInside w h (span c.y) (span c.x)

-- Whether an object in this cell, if any, is seen from `c`.
abbrev pub seen_from : ℕ → ℕ → CellPos → Option CellPos → ℕ
seen_from w h c none = 0
seen_from w h c (some d) = if in_sight w h c d then 1 else 0

-- Whether it is seen from `c` and was not from `b`.
abbrev pub newly_seen : ℕ → ℕ → CellPos → CellPos → Option CellPos → ℕ
newly_seen w h b c none = 0
newly_seen w h b c (some d) = if in_sight w h c d && not (in_sight w h b d) then 1 else 0

pub count_place-neighbor_cells :
    (w h : ℕ) (c : CellPos) (o : Option CellPos)
    → count_place o (neighbor_cells w h c) ≡ seen_from w h c o
count_place-neighbor_cells w h c none = refl
count_place-neighbor_cells w h c (some d) = count_cell-neighbor_cells w h c d

has_cell_count : (d : CellPos) (cs : List CellPos) → has_cell d cs ≡ ltb 0 (count_cell d cs)
unfolding has_cell
has_cell_count d [] = refl
has_cell_count d (c ∷ cs) = ground (arith, has_cell_count d cs)

pub count_place-cells_outside :
    (w h : ℕ) (b c : CellPos) (o : Option CellPos)
    → count_place o (cells_outside (neighbor_cells w h b) (neighbor_cells w h c))
      ≡ newly_seen w h b c o
count_place-cells_outside w h b c none = refl
count_place-cells_outside w h b c (some d) = ground (
  arith,
  count_cell-cells_outside d (neighbor_cells w h b) (neighbor_cells w h c),
  has_cell_count d (neighbor_cells w h b),
  count_cell-neighbor_cells w h b d,
  count_cell-neighbor_cells w h c d,
)

-- How the report of an operation is built.
pub collects :
    (w h : ℕ) (g : Grid) (f : Places) (cs : List CellPos)
    → IsGrid w h g
    → IsHeld g f
    → All (IsInside w h) cs
    → (res : List ℕ) × (collect_objects g cs [] ≡ some res)
      × ((j : ℕ) → count j res ≡ count_place (f j) cs)
unfolding count
collects w h g f cs v l a =
    let (res, e, k) = collect_objects-count w h g f cs [] v l a in (res, e, λ j. k j ∙ omega arith)

pub recorded-assign :
    (id : ℕ) (c : CellPos) (m : Cells) (f : Places)
    → Represents m f
    → (j : ℕ) → find j (assign id c m.id_to_cell_pos) ≡ put_at id c f j
recorded-assign id c m f v j =
    find-assign id j c m.id_to_cell_pos ∙ ap (λ o. if id == j then some c else o) (v.recorded j)

pub IsHeld-same : (g : Grid) (f f' : Places) → ((j : ℕ) → f j ≡ f' j) → IsHeld g f → IsHeld g f'
IsHeld-same g f f' q l c ids e j = rw (← q j) (l c ids e j)
