-- ===== src/Game/GameMap/Cell.antt =====
-- Reading a cell of the grid after another has been written, and cells in lists of cells (GameMap.cpp).
use simple_mmo.Prelude.{
  ℕ, zero, suc, ◌+◌, true, some, List, [], ◌∷◌, ◌==◌, if◌then◌else◌, ◌≡◌, refl, arith, length,
  get_elem?, set, Bool-cases, inl, inr, ltb, ltb→lt,
}
use simple_mmo.Prelude.Int.{ℤ, pos, negsuc}
use simple_mmo.Game.GameMap.{
  CellPos, Grid, at_int, set_int, cell_at, set_cell, in_range, same_int, same_cell, has_cell,
  cells_outside,
}
use simple_mmo.Game.GameMap.Grid.{IsGrid, IsInside, at_int-All}

pub same_int_eq : (a b : ℤ) → same_int a b ≡ true → a ≡ b
same_int_eq (pos a) (pos b) h = ground arith
same_int_eq (negsuc a) (negsuc b) h = ground arith
same_int_eq (pos a) (negsuc b) h = cc
same_int_eq (negsuc a) (pos b) h = cc

get_elem-set {ℓ} :
    {A : Type ℓ} (xs : List A) (i j : ℕ) (v : A)
    → ltb i (length xs) ≡ true
    → get_elem? (set xs i v) j ≡ (if i == j then some v else get_elem? xs j)
get_elem-set [] i j v h = absurd (omega (arith, ltb→lt i 0 h))
get_elem-set (x ∷ xs) zero zero v h = refl
get_elem-set (x ∷ xs) zero (suc j) v h = ground arith
get_elem-set (x ∷ xs) (suc i) zero v h = ground arith
get_elem-set (x ∷ xs) (suc i) (suc j) v h = ground (arith, get_elem-set xs i j v (ground arith))

at_int-set_int {ℓ} :
    {A : Type ℓ} (xs : List A) (i j : ℤ) (v : A)
    → in_range i (length xs) ≡ true
    → at_int (set_int xs i v) j ≡ (if same_int i j then some v else at_int xs j)
at_int-set_int xs (pos i) (pos j) v h = get_elem-set xs i j v h
at_int-set_int xs (pos i) (negsuc j) v h = refl
at_int-set_int xs (negsuc i) j v h = cc

-- What a cell holds after a write inside the grid.
pub cell_at-set_cell :
    (w h : ℕ) (g : Grid) (c d : CellPos) (ids : List ℕ)
    → IsGrid w h g
    → IsInside w h c
    → cell_at (set_cell g c ids) d ≡ (if same_cell c d then some ids else cell_at g d)
unfolding cell_at set_cell
cell_at-set_cell w h g c d ids v (hx, hy) =
    let (row, e, l) = at_int-All (λ row. length row ≡ w) g c.y h v.rows hy v.widths in
    let in_rows : in_range c.y (length g) ≡ true = rw v.rows hy in
    let in_row : in_range c.x (length row) ≡ true = rw l hx in
    elim (Bool-cases (same_int c.y d.y)) [
      | inr other ↦
          rw (e, at_int-set_int g c.y d.y (set_int row c.x ids) in_rows, other) (ground arith)
      | inl same ↦
          let e' : at_int g d.y ≡ some row = rw (← same_int_eq c.y d.y same) e in
          rw
            (
              e,
              at_int-set_int g c.y d.y (set_int row c.x ids) in_rows,
              same,
              e',
              at_int-set_int row c.x d.x ids in_row,
            )
            (ground arith)
    ]

pub same_cell_eq : (c d : CellPos) → same_cell c d ≡ true → c ≡ d
same_cell_eq c d h = ground (arith, same_int_eq c.x d.x, same_int_eq c.y d.y)

-- How often a cell occurs in a list of cells.
abbrev pub count_cell : CellPos → List CellPos → ℕ
count_cell d [] = 0
count_cell d (c ∷ cs) = (if same_cell c d then 1 else 0) + count_cell d cs

pub count_cell-cells_outside :
    (d : CellPos) (known cs : List CellPos)
    → count_cell d (cells_outside known cs) ≡ (if has_cell d known then 0 else count_cell d cs)
unfolding cells_outside
count_cell-cells_outside d known [] = ground arith
count_cell-cells_outside d known (c ∷ cs) =
    ground (arith, count_cell-cells_outside d known cs, same_cell_eq c d)
