-- ===== src/Game/GameMap/Loading.antt =====
-- `GameMap::LoadMapData` (GameMap.cpp). What `LoadNavMesh` gives, the bounds of the mesh, and the
-- spawn points in the file are arguments, `none` where the reading fails.
use simple_mmo.Prelude.{
  ℕ, zero, suc, Bool, true, false, Option, none, some, List, [], ◌∷◌, ◌≡◌, refl, ap, All, length,
  find, subst, Option-cases, inl, inr,
}
use simple_mmo.Prelude.Int.{ℤ, pos, negsuc, ◌+ℤ◌}
use simple_mmo.Prelude.Options.{◌>>=◌}
use simple_mmo.Game.Floats.{Floats}
use simple_mmo.Game.Removal.{count}
use simple_mmo.Game.GameMap.{CellPos, Grid, SpawnPoint, GameMap, at_int, cell_at}
use simple_mmo.Game.GameMap.Occupancy.{Places, IsHeld, Represents}

-- `assign`: the value so many times.
unfoldable pub copies {ℓ} : {A : Type ℓ} → ℕ → A → List A
copies zero x = []
copies (suc n) x = x ∷ copies n x

-- A negative size, for which `assign` throws, is `none`.
abbrev pub as_size : ℤ → Option ℕ
as_size (pos n) = some n
as_size (negsuc n) = none

abbrev pub empty_grid : ℕ → ℕ → Grid
empty_grid w h = copies h (copies w [])

abbrev pub nowhere : Places
nowhere j = none

length-copies {ℓ} : {A : Type ℓ} (n : ℕ) (x : A) → length (copies n x) ≡ n
unfolding copies
length-copies zero x = refl
length-copies (suc n) x = ap suc (length-copies n x)

All-copies {ℓ} : {A : Type ℓ} (P : A → Type 0) (n : ℕ) (x : A) → P x → All P (copies n x)
unfolding copies
All-copies P zero x p = tt
All-copies P (suc n) x p = (p, All-copies P n x p)

at_int-copies {ℓ} : {A : Type ℓ} (n : ℕ) (x y : A) (i : ℤ) → at_int (copies n x) i ≡ some y → x ≡ y
unfolding copies
at_int-copies zero x y (pos i) e = cc
at_int-copies (suc n) x y (pos zero) e = cc
at_int-copies (suc n) x y (pos (suc i)) e = at_int-copies n x y (pos i) e
at_int-copies n x y (negsuc i) e = cc

no_some {ℓ} : {A : Type ℓ} (x : A) → none ≡ some x → ⊥
no_some x p = cc

module _ ⦃fl : Floats⦄ where
  open fl use {F, ratio, add, sub, div, to_int}

  pub record Bounds : Type 0 where
    pub min_x : F
    pub max_x : F
    pub min_y : F
    pub max_y : F

  -- The bounds with one cell more on each side.
  abbrev pub widen : Bounds → Bounds
  widen b = record {
    min_x = sub b.min_x (ratio 1000 1);
    max_x = add b.max_x (ratio 1000 1);
    min_y = sub b.min_y (ratio 1000 1);
    max_y = add b.max_y (ratio 1000 1);
  }

  abbrev pub cell_count : F → F → Option ℕ
  cell_count low high = as_size (to_int (div (sub high low) (ratio 1000 1)) +ℤ pos 1)

  abbrev pub with_grid : Bounds → ℕ → ℕ → GameMap → GameMap
  with_grid b w h m = record m {
    min_x = b.min_x;
    max_x = b.max_x;
    min_y = b.min_y;
    max_y = b.max_y;
    cells = record m.cells { grid = empty_grid w h; grid_width = w; grid_height = h };
  }

  -- Whether the mesh could be loaded, and the map.
  unfoldable pub load_grid : Option Bounds → GameMap → Option (Bool × GameMap)
  load_grid none m = some (false, m)
  load_grid (some b) m = do
    let wide = widen b
    w ← cell_count wide.min_x wide.max_x
    h ← cell_count wide.min_y wide.max_y
    some (true, with_grid wide w h m)

  abbrev pub load_spawns : Option (List SpawnPoint) → Bool × GameMap → Option (Bool × GameMap)
  load_spawns none (good, m) = some (false, m)
  load_spawns (some []) (good, m) = some (good, m)
  load_spawns (some (s ∷ ss)) (good, m) = some (good, record m { spawn_points = s ∷ ss })

  -- GameMap::LoadMapData
  unfoldable pub load_map_data :
      Option Bounds → Option (List SpawnPoint) → GameMap → Option (Bool × GameMap)
  load_map_data bounds spawns m = load_grid bounds m >>= load_spawns spawns

  empty_grid-IsHeld : (w h : ℕ) → IsHeld (empty_grid w h) nowhere
  unfolding cell_at count
  empty_grid-IsHeld w h c ids e j = held (at_int (empty_grid w h) c.y) refl e
    where
      held :
          (o : Option (List (List ℕ)))
          → at_int (empty_grid w h) c.y ≡ o
          → (o >>= λ row. at_int row c.x) ≡ some ids
          → count j ids ≡ 0
      held none q p = cc
      held (some row) q p =
          let e1 = at_int-copies h (copies w []) row c.y q in
          let e2 = at_int-copies w [] ids c.x (rw e1 p) in rw (← e2) refl

  -- A grid that has just been made represents a map with nobody on it.
  pub with_grid-Represents :
      (b : Bounds) (w h : ℕ) (m : GameMap)
      → m.cells.id_to_cell_pos ≡ []
      → Represents (with_grid b w h m).cells nowhere
  unfolding find
  with_grid-Represents b w h m e = record {
    sound = record {
      grid = record {
        rows = length-copies h (copies w []);
        widths = All-copies (λ row. length row ≡ w) h (copies w []) (length-copies w []);
      };
      recorded = λ id c p. absurd (none_found id c (rw e at p));
    };
    recorded = λ j. rw e refl;
    held = empty_grid-IsHeld w h;
  }
    where
      none_found : (id : ℕ) (c : CellPos) → find {V = CellPos} id [] ≡ some c → ⊥
      none_found id c p = cc

  load_spawns-cells :
      (spawns : Option (List SpawnPoint)) (good good' : Bool) (m m' : GameMap)
      → load_spawns spawns (good, m) ≡ some (good', m')
      → m.cells ≡ m'.cells
  load_spawns-cells none good good' m m' p = cc
  load_spawns-cells (some []) good good' m m' p = cc
  load_spawns-cells (some (s ∷ ss)) good good' m m' p = cc

  -- Whatever the file of spawn points gives.
  pub load_map_data-Represents :
      (b : Bounds) (spawns : Option (List SpawnPoint)) (m m' : GameMap) (good : Bool)
      → m.cells.id_to_cell_pos ≡ []
      → load_map_data (some b) spawns m ≡ some (good, m')
      → Represents m'.cells nowhere
  unfolding load_map_data load_grid
  load_map_data-Represents b spawns m m' good e p =
      let wide = widen b in
      elim (Option-cases (cell_count wide.min_x wide.max_x)) [
        | inl q ↦ absurd (no_some (good, m') (rw q at p))
        | inr (w, q) ↦ elim (Option-cases (cell_count wide.min_y wide.max_y)) [
          | inl k ↦ absurd (no_some (good, m') (rw (q, k) at p))
          | inr (h, k) ↦
              let p' : load_spawns spawns (true, with_grid wide w h m) ≡ some (good, m') =
                rw (q, k) at p in
              subst (λ c. Represents c nowhere)
                (load_spawns-cells spawns true good (with_grid wide w h m) m' p')
                (with_grid-Represents wide w h m e)
        ]
      ]
