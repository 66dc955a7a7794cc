-- ===== src/Game/GameMap/Neighbors.antt =====
-- `GameMap::GetNeighborCells` (GameMap.cpp), seen from both cells.
use simple_mmo.Prelude.{
  ℕ, ◌+◌, Bool, true, false, List, [], ◌∷◌, ◌++◌, ◌&&◌, ◌||◌, ◌==◌, if◌then◌else◌, ◌≡◌, refl, sym,
  arith,
}
use simple_mmo.Prelude.Int.{ℤ, pos, negsuc, ◌+ℤ◌, ◌-ℤ◌, pos_part, neg_part, +ℤ_parts, -ℤ_parts}
use simple_mmo.Game.GameMap.{
  CellPos, same_int, in_range, span, cells_in_row, cells_in_rows, neighbor_cells, has_cell,
}

unfoldable has_int : ℤ → List ℤ → Bool
has_int c [] = false
has_int c (d ∷ ds) = if same_int d c then true else has_int c ds

pub same_int-range : (a b : ℤ) (size : ℕ) → same_int a b ≡ true → in_range a size ≡ in_range b size
same_int-range (pos a) (pos b) size h = ground arith
same_int-range (negsuc a) (negsuc b) size h = ground arith
same_int-range (pos a) (negsuc b) size h = ground arith
same_int-range (negsuc a) (pos b) size h = ground arith

has_cell-row :
    (w h : ℕ) (y : ℤ) (xs : List ℤ) (d : CellPos)
    → has_cell d (cells_in_row w h y xs)
      ≡ (same_int y d.y && in_range y h) && (has_int d.x xs && in_range d.x w)
unfolding has_cell cells_in_row has_int
has_cell-row w h y [] d = ground arith
has_cell-row w h y (x ∷ xs) d = ground (arith, has_cell-row w h y xs d, same_int-range x d.x w)

has_cell-append :
    (d : CellPos) (xs ys : List CellPos) → has_cell d (xs ++ ys) ≡ has_cell d xs || has_cell d ys
unfolding has_cell
has_cell-append d [] ys = refl
has_cell-append d (x ∷ xs) ys = ground (arith, has_cell-append d xs ys)

has_cell-rows :
    (w h : ℕ) (ys xs : List ℤ) (d : CellPos)
    → has_cell d (cells_in_rows w h ys xs)
      ≡ (has_int d.y ys && in_range d.y h) && (has_int d.x xs && in_range d.x w)
unfolding has_cell cells_in_rows has_int
has_cell-rows w h [] xs d = ground arith
has_cell-rows w h (y ∷ ys) xs d = ground (
  arith,
  has_cell-append d (cells_in_row w h y xs) (cells_in_rows w h ys xs),
  has_cell-row w h y xs d,
  has_cell-rows w h ys xs d,
  same_int-range y d.y h,
)

pub same_int_parts : (a b : ℤ) → same_int a b ≡ (pos_part a + neg_part b == pos_part b + neg_part a)
same_int_parts (pos a) (pos b) = ground arith
same_int_parts (negsuc a) (negsuc b) = ground arith
same_int_parts (pos a) (negsuc b) = ground arith
same_int_parts (negsuc a) (pos b) = ground arith

same_int_less : (a b : ℤ) → same_int (b -ℤ pos 1) a ≡ same_int (a +ℤ pos 1) b
same_int_less a b = ground (
  arith,
  same_int_parts (b -ℤ pos 1) a,
  same_int_parts (a +ℤ pos 1) b,
  -ℤ_parts b (pos 1),
  +ℤ_parts a (pos 1),
)

pub same_int_comm : (a b : ℤ) → same_int a b ≡ same_int b a
same_int_comm a b = ground (arith, same_int_parts a b, same_int_parts b a)

has_int-span : (a b : ℤ) → has_int a (span b) ≡ has_int b (span a)
unfolding has_int
has_int-span a b = rw (same_int_less a b, sym (same_int_less b a), same_int_comm b a) (ground arith)

-- Of two cells of the grid, each is among the cells that `GetNeighborCells` gives for the other, or
-- neither is.
pub has_cell-neighbor_cells_comm :
    (w h : ℕ) (c d : CellPos)
    → in_range c.x w ≡ true
    → in_range c.y h ≡ true
    → in_range d.x w ≡ true
    → in_range d.y h ≡ true
    → has_cell d (neighbor_cells w h c) ≡ has_cell c (neighbor_cells w h d)
unfolding neighbor_cells
has_cell-neighbor_cells_comm w h c d cx cy dx dy = ground (
  arith,
  has_cell-rows w h (span c.y) (span c.x) d,
  has_cell-rows w h (span d.y) (span d.x) c,
  has_int-span c.x d.x,
  has_int-span c.y d.y,
)
