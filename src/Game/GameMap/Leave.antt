-- ===== src/Game/GameMap/Leave.antt =====
-- `GameMap::LeaveMap` (GameMap.cpp), from the places of the objects before to those after.
use simple_mmo.Prelude.{
  ℕ, Option, none, some, [], ◌==◌, if◌then◌else◌, ◌≡◌, refl, sym, ap, ◌∙◌, arith, Bool-cases,
  Option-cases, inl, inr, erase, find-erase, ==_eq,
}
use simple_mmo.Game.Removal.{remove_swap, count}
use simple_mmo.Game.GameMap.{
  CellPos, Cells, ViewUpdate, no_update, set_cell, neighbor_cells, leave_cell, leave_map,
}
use simple_mmo.Game.GameMap.Grid.{cell_at-inside, set_cell-IsGrid}
use simple_mmo.Game.GameMap.Occupancy.{Places, take_off, SameSize, Represents, IsHeld-take_off}
use simple_mmo.Game.GameMap.Report.{
  seen_from, neighbor_cells-IsInside, count_place-neighbor_cells, collects, IsHeld-same,
}

-- Whether an object in this cell is seen by one in that cell, where both have a cell.
abbrev pub seen_by : ℕ → ℕ → Option CellPos → Option CellPos → ℕ
seen_by w h none o = 0
seen_by w h (some c) o = seen_from w h c o

leave_cell-refines :
    (id : ℕ) (c : CellPos) (m : Cells) (f : Places)
    → Represents m f
    → f id ≡ some c
    → (u : ViewUpdate) × (m' : Cells) × (leave_cell id c m ≡ some (u, m'))
      × Represents m' (take_off id f)
      × ((j : ℕ) → count j u.leaved ≡ seen_from m.grid_width m.grid_height c (take_off id f j))
      × (u.entered ≡ [])
      × SameSize m m'
unfolding leave_cell
leave_cell-refines id c m f v here =
    let w = m.grid_width in
    let h = m.grid_height in
    let inside = v.sound.recorded id c (v.recorded id ∙ here) in
    let (ids, a) = cell_at-inside w h m.grid c v.sound.grid inside in
    let grid' = set_cell m.grid c (remove_swap id ids) in
    let gv = set_cell-IsGrid w h m.grid c (remove_swap id ids) v.sound.grid inside in
    let l = IsHeld-take_off w h id c m.grid f ids v.sound.grid inside v.held here a in
    let (leaved, b, k) =
      collects w h grid' (take_off id f) (neighbor_cells w h c) gv l
        (neighbor_cells-IsInside w h c) in
    (
      record { entered = []; leaved = leaved },
      record m { grid = grid'; id_to_cell_pos = erase id m.id_to_cell_pos },
      rw (a, b) refl,
      record {
        sound = record {
          grid = gv;
          recorded =
              λ j d p. v.sound.recorded j d (ground (arith, find-erase id j m.id_to_cell_pos));
        };
        recorded = λ j.
            find-erase id j m.id_to_cell_pos ∙ ap (λ o. if id == j then none else o) (v.recorded j);
        held = l;
      },
      λ j. k j ∙ count_place-neighbor_cells w h c (take_off id f j),
      refl,
      (refl, refl),
    )

take_off_same : (id : ℕ) (f : Places) → f id ≡ none → (j : ℕ) → take_off id f j ≡ f j
take_off_same id f e j = elim (Bool-cases (id == j)) [
  | inl same ↦ rw (same, ← ==_eq id j same) (sym e)
  | inr other ↦ rw other refl
]

-- Any object can leave: afterwards it is not on the map and the others are where they were, and, if
-- it was on the map, `leaved` has each other object in sight of its cell once and no other;
-- the grid keeps its size.
pub leave_map-refines :
    (id : ℕ) (m : Cells) (f : Places)
    → Represents m f
    → (u : ViewUpdate) × (m' : Cells) × (leave_map id m ≡ some (u, m'))
      × Represents m' (take_off id f)
      × ((j : ℕ) → count j u.leaved ≡ seen_by m.grid_width m.grid_height (f id) (take_off id f j))
      × (u.entered ≡ [])
      × SameSize m m'
unfolding leave_map count
leave_map-refines id m f v = elim (Option-cases (f id)) [
  | inr (c, e) ↦ rw (v.recorded id, e) (leave_cell-refines id c m f v e)
  | inl missing ↦
      rw (v.recorded id, missing)
        (
          no_update,
          m,
          refl,
          record {
            sound = v.sound;
            recorded = λ j. v.recorded j ∙ sym (take_off_same id f missing j);
            held =
                IsHeld-same m.grid f (take_off id f) (λ j. sym (take_off_same id f missing j))
                  v.held;
          },
          λ j. refl,
          refl,
          (refl, refl),
        )
]
