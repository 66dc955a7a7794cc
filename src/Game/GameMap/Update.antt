-- ===== src/Game/GameMap/Update.antt =====
-- `GameMap::UpdateMap` (GameMap.cpp), from the places of the objects before to those after.
use simple_mmo.Prelude.{
  ℕ, Option, none, some, [], ◌∷◌, ◌++◌, ◌==◌, ◌≡◌, refl, sym, ◌∙◌, arith, Bool-cases, inl, inr,
  assign, ==_refl, ==_eq,
}
use simple_mmo.Game.Removal.{remove_swap, count}
use simple_mmo.Game.GameMap.{
  CellPos, Cells, ViewUpdate, no_update, set_cell, same_cell, neighbor_cells, cells_outside,
  move_cell, update_cell,
}
use simple_mmo.Game.GameMap.Grid.{
  IsInside, cell_at-inside, set_cell-IsGrid, placed, cells_outside-All,
}
use simple_mmo.Game.GameMap.Cell.{same_cell_eq}
use simple_mmo.Game.GameMap.Occupancy.{
  Places, put_at, take_off, SameSize, Represents, IsHeld-put_at, IsHeld-take_off,
}
use simple_mmo.Game.GameMap.Report.{
  newly_seen, neighbor_cells-IsInside, count_place-cells_outside, collects, recorded-assign,
  IsHeld-same,
}

put_at-take_off :
    (id : ℕ) (c : CellPos) (f : Places) (j : ℕ) → put_at id c (take_off id f) j ≡ put_at id c f j
put_at-take_off id c f j = ground arith

move_cell-refines :
    (id : ℕ) (from to : CellPos) (m : Cells) (f : Places)
    → Represents m f
    → f id ≡ some from
    → IsInside m.grid_width m.grid_height from
    → IsInside m.grid_width m.grid_height to
    → (u : ViewUpdate) × (m' : Cells) × (move_cell id from to m ≡ some (u, m'))
      × Represents m' (put_at id to f)
      × ((j : ℕ)
          → count j u.entered ≡ newly_seen m.grid_width m.grid_height from to (put_at id to f j))
      × ((j : ℕ)
          → count j u.leaved ≡ newly_seen m.grid_width m.grid_height to from (put_at id to f j))
      × SameSize m m'
unfolding move_cell
move_cell-refines id from to m f v here fi ti =
    let w = m.grid_width in
    let h = m.grid_height in
    let (old_ids, a) = cell_at-inside w h m.grid from v.sound.grid fi in
    let left = set_cell m.grid from (remove_swap id old_ids) in
    let lv = set_cell-IsGrid w h m.grid from (remove_swap id old_ids) v.sound.grid fi in
    let ll = IsHeld-take_off w h id from m.grid f old_ids v.sound.grid fi v.held here a in
    let (new_ids, b) = cell_at-inside w h left to lv ti in
    let grid' = set_cell left to (new_ids ++ id ∷ []) in
    let gv = set_cell-IsGrid w h left to (new_ids ++ id ∷ []) lv ti in
    let l =
      IsHeld-same grid' (put_at id to (take_off id f)) (put_at id to f) (put_at-take_off id to f)
        (IsHeld-put_at w h id to left (take_off id f) new_ids lv ti ll (gone id f) b) in
    let old_view = neighbor_cells w h from in
    let new_view = neighbor_cells w h to in
    let (entered, c, k) =
      collects w h grid' (put_at id to f) (cells_outside old_view new_view) gv l
        (cells_outside-All (IsInside w h) old_view new_view (neighbor_cells-IsInside w h to)) in
    let (leaved, d, n) =
      collects w h grid' (put_at id to f) (cells_outside new_view old_view) gv l
        (cells_outside-All (IsInside w h) new_view old_view (neighbor_cells-IsInside w h from)) in
    (
      record { entered = entered; leaved = leaved },
      record m { grid = grid'; id_to_cell_pos = assign id to m.id_to_cell_pos },
      rw (a, b, c, d) refl,
      record {
        sound = record {
          grid = gv;
          recorded = placed w h id to m.id_to_cell_pos ti v.sound.recorded;
        };
        recorded = recorded-assign id to m f v;
        held = l;
      },
      λ j. k j ∙ count_place-cells_outside w h from to (put_at id to f j),
      λ j. n j ∙ count_place-cells_outside w h to from (put_at id to f j),
      (refl, refl),
    )
  where
    gone : (id : ℕ) (f : Places) → take_off id f id ≡ none
    gone id f = rw (==_refl id) refl

put_at_same : (id : ℕ) (c : CellPos) (f : Places) → f id ≡ some c → (j : ℕ) → put_at id c f j ≡ f j
put_at_same id c f e j = elim (Bool-cases (id == j)) [
  | inl same ↦ rw (same, ← ==_eq id j same) (sym e)
  | inr other ↦ rw other refl
]

newly_seen_same : (w h : ℕ) (c : CellPos) (o : Option CellPos) → 0 ≡ newly_seen w h c c o
newly_seen_same w h c none = refl
newly_seen_same w h c (some d) = ground arith

-- An object that is on the map can move to any cell of the grid: afterwards it is in that cell and
-- the others are where they were, `entered` has each object once that is in sight of the new cell and
-- not of the old, `leaved` each object once that is in sight of the old cell and not of the new, and
-- neither has any other object; the grid keeps its size.
pub update_cell-refines :
    (id : ℕ) (from to : CellPos) (m : Cells) (f : Places)
    → Represents m f
    → f id ≡ some from
    → IsInside m.grid_width m.grid_height to
    → (u : ViewUpdate) × (m' : Cells) × (update_cell id to m ≡ some (u, m'))
      × Represents m' (put_at id to f)
      × ((j : ℕ)
          → count j u.entered ≡ newly_seen m.grid_width m.grid_height from to (put_at id to f j))
      × ((j : ℕ)
          → count j u.leaved ≡ newly_seen m.grid_width m.grid_height to from (put_at id to f j))
      × SameSize m m'
unfolding update_cell count
update_cell-refines id from to m f v here ti =
    let e = v.recorded id ∙ here in
    let fi = v.sound.recorded id from e in
    let m1 : Cells = record m { id_to_cell_pos = assign id from m.id_to_cell_pos } in
    let z : Represents m1 f = record {
      sound = record {
        grid = v.sound.grid;
        recorded = placed m.grid_width m.grid_height id from m.id_to_cell_pos fi v.sound.recorded;
      };
      recorded = λ j. recorded-assign id from m f v j ∙ put_at_same id from f here j;
      held = v.held;
    } in
    elim (Bool-cases (same_cell to from)) [
      | inr moved ↦ rw (e, moved) (move_cell-refines id from to m1 f z here fi ti)
      | inl still ↦
          let q = same_cell_eq to from still in
          rw (e, still)
            (
              no_update,
              m1,
              refl,
              rw q (
                  Represents-same m1 f (put_at id from f) (λ j. sym (put_at_same id from f here j))
                    z),
              λ j. rw q (newly_seen_same m.grid_width m.grid_height from (put_at id from f j)),
              λ j. rw q (newly_seen_same m.grid_width m.grid_height from (put_at id from f j)),
              (refl, refl),
            )
    ]
  where
    Represents-same :
        (m : Cells) (f f' : Places) → ((j : ℕ) → f j ≡ f' j) → Represents m f → Represents m f'
    Represents-same m f f' q v = record {
      sound = v.sound;
      recorded = λ j. v.recorded j ∙ q j;
      held = IsHeld-same m.grid f f' q v.held;
    }
