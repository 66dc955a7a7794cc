-- ===== src/Game/GameMap/Margins.antt =====
-- The bounds of the grid that `LoadMapData` makes (GameMap.cpp) against those of the mesh.
mod Tests
use simple_mmo.Prelude.{ℕ, ◌+◌, ◌≤◌, true, some, [], ◌≡◌, refl, arith}
use simple_mmo.Prelude.Int.{pos, ◌+ℤ◌}
use simple_mmo.Game.Floats.{Floats}
use simple_mmo.Game.Objects.{PositionInfo}
use simple_mmo.Game.GameMap.{GameMap, to_cell_pos, in_range}
use simple_mmo.Game.GameMap.Grid.{IsInside}
use simple_mmo.Game.GameMap.Occupancy.{Represents}
use simple_mmo.Game.GameMap.Loading.{
  Bounds, widen, cell_count, as_size, with_grid, load_grid, nowhere, with_grid-Represents,
}

counted : (j : ℕ) → as_size (pos j +ℤ pos 1) ≡ some (j + 1)
unfolding ◌+ℤ◌
counted j = ground arith

module _ ⦃fl : Floats⦄ where
  open fl use {F, ratio, add, sub, div, le, abs, to_int}

  -- Between -n and n.
  abbrev pub IsNear : ℕ → F → Type 0
  IsNear n a = le (abs a) (ratio n 1) ≡ true

  -- What IEEE floats do that are not too large: rounding is monotonous and keeps to bounds that are
  -- floats, a difference of two such floats and a cell count of it are of that size, too, and a cast
  -- that does not overflow is monotonous. A comparison that holds is not of a NaN.
  pub record IsOrdered : Type 0 where
    pub le_trans : (a b c : F) → le a b ≡ true → le b c ≡ true → le a c ≡ true
    pub near : (a : F) → IsNear 999000 a → IsNear 1000000 a
    pub sub_mono :
        (a b c : F)
        → IsNear 1000000 a
        → IsNear 1000000 b
        → IsNear 1000000 c
        → le a b ≡ true
        → le (sub a c) (sub b c) ≡ true
    pub sub_near : (a c : F) → IsNear 1000000 a → IsNear 1000000 c → IsNear 2000000 (sub a c)
    pub div_mono :
        (a b : F)
        → IsNear 2000000 a
        → IsNear 2000000 b
        → le a b ≡ true
        → le (div a (ratio 1000 1)) (div b (ratio 1000 1)) ≡ true
    pub div_near : (a : F) → IsNear 2000000 a → IsNear 2000 (div a (ratio 1000 1))
    pub to_int_mono :
        (a b : F) (i : ℕ)
        → IsNear 2000 a
        → IsNear 2000 b
        → le a b ≡ true
        → to_int a ≡ pos i
        → (j : ℕ) × (to_int b ≡ pos j) × (i ≤ j)
    pub less :
        (a : F)
        → IsNear 999000 a
        → (le (sub a (ratio 1000 1)) a ≡ true) × IsNear 1000000 (sub a (ratio 1000 1))
    pub more :
        (a : F)
        → IsNear 999000 a
        → (le a (add a (ratio 1000 1)) ≡ true) × IsNear 1000000 (add a (ratio 1000 1))
    pub nothing : (a : F) → IsNear 1000000 a → to_int (div (sub a a) (ratio 1000 1)) ≡ pos 0

  -- A coordinate between two bounds, all three of at most 999000.
  pub record IsBetween (low x high : F) : Type 0 where
    pub low_near : IsNear 999000 low
    pub near : IsNear 999000 x
    pub high_near : IsNear 999000 high
    pub above : le low x ≡ true
    pub below : le x high ≡ true

  -- The position is over the mesh.
  abbrev pub IsOverMesh : Bounds → PositionInfo → Type 0
  IsOverMesh b p = IsBetween b.min_x p.x b.max_x × IsBetween b.min_y p.y b.max_y

  module _ (o : IsOrdered) where
    index_mono :
        (a b c : F) (i : ℕ)
        → IsNear 1000000 a
        → IsNear 1000000 b
        → IsNear 1000000 c
        → le a b ≡ true
        → to_int (div (sub a c) (ratio 1000 1)) ≡ pos i
        → (j : ℕ) × (to_int (div (sub b c) (ratio 1000 1)) ≡ pos j) × (i ≤ j)
    index_mono a b c i na nb nc h e =
        let da = o.sub_near a c na nc in
        let db = o.sub_near b c nb nc in
        o.to_int_mono (div (sub a c) (ratio 1000 1)) (div (sub b c) (ratio 1000 1)) i
          (o.div_near (sub a c) da) (o.div_near (sub b c) db)
          (o.div_mono (sub a c) (sub b c) da db (o.sub_mono a b c na nb nc h)) e

    -- The number of cells between two bounds, and where a coordinate between them stands.
    cell_count-in_range :
        (low x high : F)
        → IsBetween low x high
        → let from = sub low (ratio 1000 1) in
          (n : ℕ) × (cell_count from (add high (ratio 1000 1)) ≡ some n)
          × (in_range (to_int (div (sub x from) (ratio 1000 1))) n ≡ true)
    cell_count-in_range low x high w =
        let from = sub low (ratio 1000 1) in
        let to = add high (ratio 1000 1) in
        let (less, from_near) = o.less low w.low_near in
        let (more, to_near) = o.more high w.high_near in
        let nx = o.near x w.near in
        let (i, e, p) =
          index_mono from x from 0 from_near nx from_near (o.le_trans from low x less w.above)
            (o.nothing from from_near) in
        let (j, e', p') =
          index_mono x to from i nx to_near from_near (o.le_trans x high to w.below more) e in
        (j + 1, rw e' (counted j), rw e (ground (arith, p')))

    -- If floats up to 2000000 in size behave as IEEE floats do, then from the bounds of a mesh with a
    -- position over it, none of these coordinates larger than 999000 in size, the grid can be made on
    -- a map that has recorded no object's cell, and gives a map with nobody on it where the position
    -- is in a cell of the grid.
    pub load_grid-IsInside :
        (b : Bounds) (m : GameMap) (p : PositionInfo)
        → m.cells.id_to_cell_pos ≡ []
        → IsOverMesh b p
        → (m' : GameMap) × (load_grid (some b) m ≡ some (true, m'))
          × Represents m'.cells nowhere
          × IsInside m'.cells.grid_width m'.cells.grid_height (to_cell_pos p m')
    unfolding load_grid to_cell_pos
    load_grid-IsInside b m p none_yet (over_x, over_y) =
        let (w, ew, iw) = cell_count-in_range b.min_x p.x b.max_x over_x in
        let (h, eh, ih) = cell_count-in_range b.min_y p.y b.max_y over_y in
        (
          with_grid (widen b) w h m,
          rw (ew, eh) refl,
          with_grid-Represents (widen b) w h m none_yet,
          (iw, ih),
        )
