-- ===== src/Game/GameMap/Sight.antt =====
-- `GameMap::GetNeighborCells` (GameMap.cpp) and a direct description of the cells around a cell.
use simple_mmo.Prelude.{ℕ, ◌+◌, Bool, List, [], ◌∷◌, ◌++◌, ◌&&◌, if◌then◌else◌, leb, ◌≡◌, arith}
use simple_mmo.Prelude.Int.{ℤ, pos, pos_part, neg_part, ◌+ℤ◌, ◌-ℤ◌, +ℤ_parts, -ℤ_parts}
use simple_mmo.Game.GameMap.{
  CellPos, in_range, same_int, span, cells_in_row, cells_in_rows, neighbor_cells,
}
use simple_mmo.Game.GameMap.Cell.{count_cell}
use simple_mmo.Game.GameMap.Neighbors.{same_int-range, same_int_parts}

-- The two integers differ by at most 1.
abbrev pub near_int : ℤ → ℤ → Bool
near_int a b =
    leb (pos_part a + neg_part b) (pos_part b + neg_part a + 1)
    && leb (pos_part b + neg_part a) (pos_part a + neg_part b + 1)

-- `d` is a cell of the grid, at most one column and one row from `c`.
abbrev pub in_sight : ℕ → ℕ → CellPos → CellPos → Bool
in_sight w h c d = (near_int c.x d.x && near_int c.y d.y) && (in_range d.x w && in_range d.y h)

count_cell-append :
    (d : CellPos) (cs ds : List CellPos)
    → count_cell d (cs ++ ds) ≡ count_cell d cs + count_cell d ds
count_cell-append d [] ds = omega arith
count_cell-append d (c ∷ cs) ds = ground (arith, count_cell-append d cs ds)

count_int : ℤ → List ℤ → ℕ
count_int b [] = 0
count_int b (a ∷ as') = (if same_int a b then 1 else 0) + count_int b as'

count_int-span : (a b : ℤ) → count_int b (span a) ≡ (if near_int a b then 1 else 0)
unfolding count_int
count_int-span a b = ground (
  arith,
  same_int_parts (a -ℤ pos 1) b,
  same_int_parts a b,
  same_int_parts (a +ℤ pos 1) b,
  -ℤ_parts a (pos 1),
  +ℤ_parts a (pos 1),
)

count_cell-row :
    (w h : ℕ) (y : ℤ) (xs : List ℤ) (d : CellPos)
    → count_cell d (cells_in_row w h y xs)
      ≡ (if (same_int y d.y && in_range d.y h) && in_range d.x w then count_int d.x xs else 0)
unfolding cells_in_row count_int
count_cell-row w h y [] d = ground arith
count_cell-row w h y (x ∷ xs) d =
    ground (arith, count_cell-row w h y xs d, same_int-range x d.x w, same_int-range y d.y h)

-- `k` for each row that is row `b`.
count_rows : ℤ → ℕ → List ℤ → ℕ
count_rows b k [] = 0
count_rows b k (y ∷ ys) = (if same_int y b then k else 0) + count_rows b k ys

count_rows-span : (a b : ℤ) (k : ℕ) → count_rows b k (span a) ≡ (if near_int a b then k else 0)
unfolding count_rows
count_rows-span a b k = ground (
  arith,
  same_int_parts (a -ℤ pos 1) b,
  same_int_parts a b,
  same_int_parts (a +ℤ pos 1) b,
  -ℤ_parts a (pos 1),
  +ℤ_parts a (pos 1),
)

count_cell-rows :
    (w h : ℕ) (ys xs : List ℤ) (d : CellPos)
    → count_cell d (cells_in_rows w h ys xs)
      ≡ (if in_range d.y h && in_range d.x w then count_rows d.y (count_int d.x xs) ys else 0)
unfolding cells_in_rows count_rows
count_cell-rows w h [] xs d = ground arith
count_cell-rows w h (y ∷ ys) xs d = ground (
  arith,
  count_cell-append d (cells_in_row w h y xs) (cells_in_rows w h ys xs),
  count_cell-row w h y xs d,
  count_cell-rows w h ys xs d,
)

-- `GetNeighborCells` gives exactly the cells of the grid that are at most one column and one row
-- away, each once.
pub count_cell-neighbor_cells :
    (w h : ℕ) (c d : CellPos)
    → count_cell d (neighbor_cells w h c) ≡ (if in_sight w h c d then 1 else 0)
unfolding neighbor_cells
count_cell-neighbor_cells w h c d = ground (
  arith,
  count_cell-rows w h (span c.y) (span c.x) d,
  count_rows-span c.y d.y (count_int d.x (span c.x)),
  count_int-span c.x d.x,
)
