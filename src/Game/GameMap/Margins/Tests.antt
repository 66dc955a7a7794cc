-- ===== src/Game/GameMap/Margins/Tests.antt =====
-- A mesh of 3 by 1 meters with a position over it. Whole numbers stand for floats, and their quotient
-- is truncated.
use simple_mmo.Prelude.{◌+◌, ◌/◌, true, some, [], leb, ◌≡◌, refl, arith, Bool}
use simple_mmo.Prelude.Int.{
  ℤ, pos, negsuc, ◌+ℤ◌, ◌-ℤ◌, pos_part, neg_part, sub_ℕ, ltb_ℤ, +ℤ_parts, -ℤ_parts, two_31,
}
use simple_mmo.Game.Floats.{Floats}
use simple_mmo.Game.Objects.{PositionInfo, MoveState}
use simple_mmo.Game.GameMap.{GameMap, to_cell_pos}
use simple_mmo.Game.GameMap.Grid.{IsInside}
use simple_mmo.Game.GameMap.Occupancy.{Represents}
use simple_mmo.Game.GameMap.Loading.{Bounds, load_grid, nowhere}
use simple_mmo.Game.GameMap.Margins.{IsOrdered, IsBetween, load_grid-IsInside}

abbrev leb_ℤ : ℤ → ℤ → Bool
leb_ℤ a b = leb (pos_part a + neg_part b) (pos_part b + neg_part a)

abbrev abs_ℤ : ℤ → ℤ
abs_ℤ a = pos (pos_part a + neg_part a)

-- Truncated towards 0.
abbrev div_ℤ : ℤ → ℤ → ℤ
div_ℤ a b = sub_ℕ (pos_part a / pos_part b) (neg_part a / pos_part b)

abbrev whole : Floats
whole = record {
  F = ℤ;
  ratio = λ a b. pos (a / b);
  add = λ a b. a +ℤ b;
  sub = λ a b. a -ℤ b;
  mul = λ a b. a;
  div = div_ℤ;
  lt = ltb_ℤ;
  le = leb_ℤ;
  eq = λ a b. leb_ℤ a b;
  neg = λ a. pos 0 -ℤ a;
  abs = abs_ℤ;
  sqrt = λ a. a;
  cos = λ a. a;
  sin = λ a. a;
  atan2 = λ a b. a;
  largest = pos two_31;
  to_int = λ a. a;
  of_int = λ a. a;
}

nothing : (a : ℤ) → div_ℤ (a -ℤ a) (pos 1000) ≡ pos 0
nothing a = ground (arith, -ℤ_parts a a)

whole-IsOrdered : IsOrdered ⦃fl = whole⦄
whole-IsOrdered = record {
  le_trans = λ a b c p q. ground arith;
  near = λ a n. ground arith;
  sub_mono = λ a b c na nb nc p. ground (arith, -ℤ_parts a c, -ℤ_parts b c);
  sub_near = λ a c na nc. ground (arith, -ℤ_parts a c);
  div_mono = λ a b na nb p. ground arith;
  div_near = λ a n. ground arith;
  to_int_mono = λ a b i na nb p e. (pos_part b, ground arith, ground arith);
  less = λ a n. (ground (arith, -ℤ_parts a (pos 1000)), ground (arith, -ℤ_parts a (pos 1000)));
  more = λ a n. (ground (arith, +ℤ_parts a (pos 1000)), ground (arith, +ℤ_parts a (pos 1000)));
  nothing = λ a n. nothing a;
}

-- From -1500 to 1500, and from 0 to 1000.
abbrev mesh : Bounds ⦃fl = whole⦄
mesh = record { min_x = negsuc 1499; max_x = pos 1500; min_y = pos 0; max_y = pos 1000 }

abbrev spot : PositionInfo ⦃fl = whole⦄
spot = record {
  x = negsuc 699;
  y = pos 900;
  z = pos 0;
  yaw = pos 0;
  v_x = pos 0;
  v_y = pos 0;
  v_z = pos 0;
  state = MoveState.run;
}

abbrev unloaded : GameMap ⦃fl = whole⦄
unloaded = record {
  cells = record { grid = []; id_to_cell_pos = []; grid_width = 0; grid_height = 0 };
  min_x = pos 0;
  max_x = pos 0;
  min_y = pos 0;
  max_y = pos 0;
  spawn_points = [];
}

over_x : IsBetween ⦃fl = whole⦄ (negsuc 1499) (negsuc 699) (pos 1500)
over_x = record { low_near = refl; near = refl; high_near = refl; above = refl; below = refl }

over_y : IsBetween ⦃fl = whole⦄ (pos 0) (pos 900) (pos 1000)
over_y = record { low_near = refl; near = refl; high_near = refl; above = refl; below = refl }

load_grid-IsInside_example :
    (m' : GameMap ⦃fl = whole⦄) × (load_grid ⦃fl = whole⦄ (some mesh) unloaded ≡ some (true, m'))
    × Represents m'.cells nowhere
    × IsInside m'.cells.grid_width m'.cells.grid_height (to_cell_pos ⦃fl = whole⦄ spot m')
load_grid-IsInside_example =
    load_grid-IsInside ⦃fl = whole⦄ whole-IsOrdered mesh unloaded spot refl (over_x, over_y)
