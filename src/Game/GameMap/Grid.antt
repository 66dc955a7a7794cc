-- ===== src/Game/GameMap/Grid.antt =====
-- Where GameMap.cpp reads and writes the grid's cells.
use simple_mmo.Prelude.{
  ℕ, zero, suc, ◌<◌, true, some, List, [], ◌∷◌, ◌++◌, ◌==◌, ◌≡◌, refl, ap, ◌∙◌, arith, All,
  All-append, length, get_elem?, set, Bool-cases, inl, inr, ltb→lt, find, Dict, erase, find-erase,
  assign, find-assign, Option-cases,
}
use simple_mmo.Prelude.Int.{ℤ, pos, negsuc}
use simple_mmo.Game.Removal.{remove_swap}
use simple_mmo.Game.GameMap.{
  ViewUpdate, CellPos, Grid, at_int, set_int, cell_at, set_cell, in_range, span, cells_in_row,
  cells_in_rows, neighbor_cells, collect_object, collect_objects, cells_outside, has_cell,
  move_cell, update_cell, same_cell, Cells, leave_cell, leave_map, no_update,
}

abbrev pub IsInside : ℕ → ℕ → CellPos → Type 0
IsInside w h c = (in_range c.x w ≡ true) × (in_range c.y h ≡ true)

-- The grid has `h` rows of `w` cells.
pub record IsGrid (w h : ℕ) (g : Grid) : Type 0 where
  pub rows : length g ≡ h
  pub widths : All (λ row. length row ≡ w) g

get_elem-All {ℓ} :
    {A : Type ℓ} (P : A → Type 0) (xs : List A) (i : ℕ)
    → i < length xs
    → All P xs
    → (x : A) × (get_elem? xs i ≡ some x) × P x
get_elem-All P [] i h a = absurd (omega arith)
get_elem-All P (x ∷ xs) zero h a = (x, refl, a.0)
get_elem-All P (x ∷ xs) (suc i) h a = get_elem-All P xs i (omega arith) a.1

length-set {ℓ} : {A : Type ℓ} (xs : List A) (i : ℕ) (v : A) → length (set xs i v) ≡ length xs
length-set [] i v = refl
length-set (x ∷ xs) zero v = refl
length-set (x ∷ xs) (suc i) v = ap suc (length-set xs i v)

All-set {ℓ} :
    {A : Type ℓ} (P : A → Type 0) (xs : List A) (i : ℕ) (v : A)
    → P v
    → All P xs
    → All P (set xs i v)
All-set P [] i v p a = tt
All-set P (x ∷ xs) zero v p a = (p, a.1)
All-set P (x ∷ xs) (suc i) v p a = (a.0, All-set P xs i v p a.1)

All-true {ℓ} : {A : Type ℓ} (xs : List A) → All (λ x. Unit {0}) xs
All-true [] = tt
All-true (x ∷ xs) = (tt, All-true xs)

pub at_int-All {ℓ} :
    {A : Type ℓ} (P : A → Type 0) (xs : List A) (i : ℤ) (n : ℕ)
    → length xs ≡ n
    → in_range i n ≡ true
    → All P xs
    → (x : A) × (at_int xs i ≡ some x) × P x
at_int-All P xs (pos i) n e h a = get_elem-All P xs i (rw e (ltb→lt i n h)) a
at_int-All P xs (negsuc i) n e h a = cc

length-set_int {ℓ} :
    {A : Type ℓ} (xs : List A) (i : ℤ) (v : A) → length (set_int xs i v) ≡ length xs
length-set_int xs (pos i) v = length-set xs i v
length-set_int xs (negsuc i) v = refl

All-set_int {ℓ} :
    {A : Type ℓ} (P : A → Type 0) (xs : List A) (i : ℤ) (v : A)
    → P v
    → All P xs
    → All P (set_int xs i v)
All-set_int P xs (pos i) v p a = All-set P xs i v p a
All-set_int P xs (negsuc i) v p a = a

pub cell_at-inside :
    (w h : ℕ) (g : Grid) (c : CellPos)
    → IsGrid w h g
    → IsInside w h c
    → (ids : List ℕ) × (cell_at g c ≡ some ids)
unfolding cell_at
cell_at-inside w h g c v (hx, hy) =
    let (row, e, l) = at_int-All (λ row. length row ≡ w) g c.y h v.rows hy v.widths in
    let (ids, f, _) = at_int-All (λ x. Unit {0}) row c.x w l hx (All-true row) in
    (ids, rw (e, f) refl)

pub set_cell-IsGrid :
    (w h : ℕ) (g : Grid) (c : CellPos) (ids : List ℕ)
    → IsGrid w h g
    → IsInside w h c
    → IsGrid w h (set_cell g c ids)
unfolding set_cell
set_cell-IsGrid w h g c ids v (hx, hy) =
    let (row, e, l) = at_int-All (λ row. length row ≡ w) g c.y h v.rows hy v.widths in
    let row' = set_int row c.x ids in
    rw e (record {
      rows = length-set_int g c.y row' ∙ v.rows;
      widths = All-set_int (λ r. length r ≡ w) g c.y row' (length-set_int row c.x ids ∙ l) v.widths;
    })

cells_in_row-IsInside : (w h : ℕ) (y : ℤ) (xs : List ℤ) → All (IsInside w h) (cells_in_row w h y xs)
unfolding cells_in_row
cells_in_row-IsInside w h y [] = tt
cells_in_row-IsInside w h y (x ∷ xs) = ground (arith, cells_in_row-IsInside w h y xs)

pub cells_in_rows-IsInside :
    (w h : ℕ) (ys xs : List ℤ) → All (IsInside w h) (cells_in_rows w h ys xs)
unfolding cells_in_rows
cells_in_rows-IsInside w h [] xs = tt
cells_in_rows-IsInside w h (y ∷ ys) xs =
    All-append (IsInside w h) (cells_in_row w h y xs) (cells_in_rows w h ys xs)
      (cells_in_row-IsInside w h y xs) (cells_in_rows-IsInside w h ys xs)

pub collect_objects-inside :
    (w h : ℕ) (g : Grid) (cs : List CellPos) (out : List ℕ)
    → IsGrid w h g
    → All (IsInside w h) cs
    → (ids : List ℕ) × (collect_objects g cs out ≡ some ids)
unfolding collect_objects collect_object
collect_objects-inside w h g [] out v a = (out, refl)
collect_objects-inside w h g (c ∷ cs) out v a =
    let (ids, e) = cell_at-inside w h g c v a.0 in
    rw e (collect_objects-inside w h g cs (out ++ ids) v a.1)

-- The grid has its size, and every recorded cell lies inside it.
pub record IsSound (m : Cells) : Type 0 where
  pub grid : IsGrid m.grid_width m.grid_height m.grid
  pub recorded :
      (id : ℕ) (c : CellPos)
      → find id m.id_to_cell_pos ≡ some c
      → IsInside m.grid_width m.grid_height c

leave_cell-returns :
    (id : ℕ) (c : CellPos) (m : Cells)
    → IsSound m
    → find id m.id_to_cell_pos ≡ some c
    → (u : ViewUpdate) × (m' : Cells) × (leave_cell id c m ≡ some (u, m')) × IsSound m'
unfolding leave_cell neighbor_cells
leave_cell-returns id c m v e =
    let inside = v.recorded id c e in
    let (ids, f) = cell_at-inside m.grid_width m.grid_height m.grid c v.grid inside in
    let grid' = set_cell m.grid c (remove_swap id ids) in
    let w =
      set_cell-IsGrid m.grid_width m.grid_height m.grid c (remove_swap id ids) v.grid inside in
    let (leaved, g) =
      collect_objects-inside m.grid_width m.grid_height grid' _ [] w
        (cells_in_rows-IsInside m.grid_width m.grid_height (span c.y) (span c.x)) in
    (
      record { entered = []; leaved = leaved },
      record m { grid = grid'; id_to_cell_pos = erase id m.id_to_cell_pos },
      rw (f, g) refl,
      record {
        grid = w;
        recorded = λ j d p. v.recorded j d (ground (arith, find-erase id j m.id_to_cell_pos));
      },
    )

-- `LeaveMap` never leaves the grid of a sound map, and leaves a sound map.
pub leave_map-returns :
    (id : ℕ) (m : Cells)
    → IsSound m
    → (u : ViewUpdate) × (m' : Cells) × (leave_map id m ≡ some (u, m')) × IsSound m'
unfolding leave_map
leave_map-returns id m v = elim (Option-cases (find id m.id_to_cell_pos)) [
  | inl missing ↦ rw missing (no_update, m, refl, v)
  | inr (c, e) ↦ rw e (leave_cell-returns id c m v e)
]

pub placed :
    (w h id : ℕ) (c : CellPos) (recorded : Dict CellPos)
    → IsInside w h c
    → ((j : ℕ) (d : CellPos) → find j recorded ≡ some d → IsInside w h d)
    → (j : ℕ) (d : CellPos) → find j (assign id c recorded) ≡ some d
    → IsInside w h d
placed w h id c recorded inside old j d p = elim (Bool-cases (id == j)) [
  | inl same ↦ ground (arith, same, find-assign id j c recorded)
  | inr other ↦ old j d (ground (arith, other, find-assign id j c recorded))
]

pub cells_outside-All :
    (P : CellPos → Type 0) (known cs : List CellPos) → All P cs → All P (cells_outside known cs)
unfolding cells_outside
cells_outside-All P known [] a = tt
cells_outside-All P known (c ∷ cs) a = elim (Bool-cases (has_cell c known)) [
  | inl h ↦ rw h (cells_outside-All P known cs a.1)
  | inr h ↦ rw h (a.0, cells_outside-All P known cs a.1)
]

move_cell-returns :
    (id : ℕ) (from to : CellPos) (m : Cells)
    → IsSound m
    → IsInside m.grid_width m.grid_height from
    → IsInside m.grid_width m.grid_height to
    → (u : ViewUpdate) × (m' : Cells) × (move_cell id from to m ≡ some (u, m')) × IsSound m'
unfolding move_cell neighbor_cells
move_cell-returns id from to m v fi ti =
    let w = m.grid_width in
    let h = m.grid_height in
    let (old_ids, a) = cell_at-inside w h m.grid from v.grid fi in
    let left = set_cell m.grid from (remove_swap id old_ids) in
    let lv = set_cell-IsGrid w h m.grid from (remove_swap id old_ids) v.grid fi in
    let (new_ids, b) = cell_at-inside w h left to lv ti in
    let grid' = set_cell left to (new_ids ++ id ∷ []) in
    let gv = set_cell-IsGrid w h left to (new_ids ++ id ∷ []) lv ti in
    let old_view = cells_in_rows w h (span from.y) (span from.x) in
    let new_view = cells_in_rows w h (span to.y) (span to.x) in
    let (entered, c) = collect_objects-inside w h grid' (cells_outside old_view new_view) [] gv (
      cells_outside-All (IsInside w h) old_view new_view
        (cells_in_rows-IsInside w h (span to.y) (span to.x))) in
    let (leaved, d) = collect_objects-inside w h grid' (cells_outside new_view old_view) [] gv (
      cells_outside-All (IsInside w h) new_view old_view
        (cells_in_rows-IsInside w h (span from.y) (span from.x))) in
    (
      record { entered = entered; leaved = leaved },
      record m { grid = grid'; id_to_cell_pos = assign id to m.id_to_cell_pos },
      rw (a, b, c, d) refl,
      record { grid = gv; recorded = placed w h id to m.id_to_cell_pos ti v.recorded },
    )

-- `UpdateMap` to a cell of the grid never leaves the grid of a sound map that has the object
-- recorded, and leaves a sound map.
pub update_cell-returns :
    (id : ℕ) (from to : CellPos) (m : Cells)
    → IsSound m
    → find id m.id_to_cell_pos ≡ some from
    → IsInside m.grid_width m.grid_height to
    → (u : ViewUpdate) × (m' : Cells) × (update_cell id to m ≡ some (u, m')) × IsSound m'
unfolding update_cell
update_cell-returns id from to m v e ti =
    let fi = v.recorded id from e in
    let m1 : Cells = record m { id_to_cell_pos = assign id from m.id_to_cell_pos } in
    let s : IsSound m1 = record {
      grid = v.grid;
      recorded = placed m.grid_width m.grid_height id from m.id_to_cell_pos fi v.recorded;
    } in
    elim (Bool-cases (same_cell to from)) [
      | inl still ↦ rw (e, still) (no_update, m1, refl, s)
      | inr moved ↦ rw (e, moved) (move_cell-returns id from to m1 s fi ti)
    ]
