-- ===== src/Game/GameMap/Occupancy.antt =====
-- What the grid stands for: which cell each object is in. EnterMap, UpdateMap and LeaveMap
-- (GameMap.cpp) against operations on that view.
use simple_mmo.Prelude.{
  ℕ, ◌+◌, true, Option, none, some, List, [], ◌∷◌, ◌++◌, ◌==◌, if◌then◌else◌, ◌≡◌, refl, ◌∙◌, arith,
  All, Bool-cases, inl, inr, find, ==_refl, ==_eq,
}
use simple_mmo.Prelude.Int.{ℤ, pos, negsuc}
use simple_mmo.Game.Removal.{remove_swap, count, count-append, count-remove_swap, contains-count}
use simple_mmo.Game.GameMap.{
  CellPos, Grid, Cells, same_int, cell_at, set_cell, same_cell, collect_object, collect_objects,
}
use simple_mmo.Game.GameMap.Grid.{IsGrid, IsInside, IsSound, cell_at-inside}
use simple_mmo.Game.GameMap.Cell.{cell_at-set_cell, same_cell_eq, count_cell}
use simple_mmo.Game.GameMap.Neighbors.{same_int_comm}

-- The cell of each object that is on the map.
abbrev pub Places : Type 0
Places = ℕ → Option CellPos

abbrev pub put_at : ℕ → CellPos → Places → Places
put_at id c f j = if id == j then some c else f j

abbrev pub take_off : ℕ → Places → Places
take_off id f j = if id == j then none else f j

abbrev pub is_at : Option CellPos → CellPos → ℕ
is_at none c = 0
is_at (some d) c = if same_cell d c then 1 else 0

-- The grid holds each object once, in its cell.
abbrev pub IsHeld : Grid → Places → Type 0
IsHeld g f =
    (c : CellPos) (ids : List ℕ) → cell_at g c ≡ some ids → (j : ℕ) → count j ids ≡ is_at (f j) c

abbrev pub SameSize : Cells → Cells → Type 0
SameSize m m' = (m'.grid_width ≡ m.grid_width) × (m'.grid_height ≡ m.grid_height)

pub record Represents (m : Cells) (f : Places) : Type 0 where
  pub sound : IsSound m
  pub recorded : (j : ℕ) → find j m.id_to_cell_pos ≡ f j
  pub held : IsHeld m.grid f

same_cell_refl : (c : CellPos) → same_cell c c ≡ true
same_cell_refl c = ground (arith, same_int_refl c.x, same_int_refl c.y)
  where
    same_int_refl : (a : ℤ) → same_int a a ≡ true
    same_int_refl (pos n) = ==_refl n
    same_int_refl (negsuc n) = ==_refl n

same_cell_comm : (c d : CellPos) → same_cell c d ≡ same_cell d c
same_cell_comm c d = ground (arith, same_int_comm c.x d.x, same_int_comm c.y d.y)

count_one : (j k : ℕ) → count j (k ∷ []) ≡ (if k == j then 1 else 0)
unfolding count
count_one j k = ground arith

-- How often an object in this cell, if any, is collected from some cells.
abbrev pub count_place : Option CellPos → List CellPos → ℕ
count_place none cs = 0
count_place (some d) cs = count_cell d cs

pub collect_objects-count :
    (w h : ℕ) (g : Grid) (f : Places) (cs : List CellPos) (out : List ℕ)
    → IsGrid w h g
    → IsHeld g f
    → All (IsInside w h) cs
    → (res : List ℕ) × (collect_objects g cs out ≡ some res)
      × ((j : ℕ) → count j res ≡ count j out + count_place (f j) cs)
unfolding collect_objects collect_object
collect_objects-count w h g f [] out v l a = (out, refl, λ j. nothing (f j) (count j out))
  where
    nothing : (o : Option CellPos) (n : ℕ) → n ≡ n + count_place o []
    nothing none n = omega arith
    nothing (some d) n = omega arith
collect_objects-count w h g f (c ∷ cs) out v l a =
    let (ids, e) = cell_at-inside w h g c v a.0 in
    let (res, q, k) = collect_objects-count w h g f cs (out ++ ids) v l a.1 in
    (res, rw e q, λ j. k j ∙ step j (f j) ids (l c ids e j))
  where
    step :
        (j : ℕ) (o : Option CellPos) (ids : List ℕ)
        → count j ids ≡ is_at o c
        → count j (out ++ ids) + count_place o cs ≡ count j out + count_place o (c ∷ cs)
    step j none ids q = omega (arith, count-append j out ids)
    step j (some d) ids q = ground (arith, count-append j out ids, same_cell_comm c d)

pub IsHeld-put_at :
    (w h id : ℕ) (c : CellPos) (g : Grid) (f : Places) (ids : List ℕ)
    → IsGrid w h g
    → IsInside w h c
    → IsHeld g f
    → f id ≡ none
    → cell_at g c ≡ some ids
    → IsHeld (set_cell g c (ids ++ id ∷ [])) (put_at id c f)
IsHeld-put_at w h id c g f ids v i l new e d ids' e' j = elim (Bool-cases (same_cell c d)) [
  | inl same ↦ ground (
    arith,
    cell_at-set_cell w h g c d (ids ++ id ∷ []) v i,
    l c ids e j,
    same_cell_eq c d same,
    count-append j ids (id ∷ []),
    count_one j id,
    ==_eq id j,
  )
  | inr other ↦
      let q = rw (cell_at-set_cell w h g c d (ids ++ id ∷ []) v i, other) at e' in
      ground (arith, l d ids' q j, l d ids' q id, ==_eq id j)
]

pub IsHeld-take_off :
    (w h id : ℕ) (c : CellPos) (g : Grid) (f : Places) (ids : List ℕ)
    → IsGrid w h g
    → IsInside w h c
    → IsHeld g f
    → f id ≡ some c
    → cell_at g c ≡ some ids
    → IsHeld (set_cell g c (remove_swap id ids)) (take_off id f)
IsHeld-take_off w h id c g f ids v i l here e d ids' e' j = elim (Bool-cases (same_cell c d)) [
  | inl same ↦ ground (
    arith,
    cell_at-set_cell w h g c d (remove_swap id ids) v i,
    l c ids e j,
    l c ids e id,
    same_cell_eq c d same,
    same_cell_refl c,
    count-remove_swap j id ids,
    contains-count id ids,
    ==_eq id j,
  )
  | inr other ↦
      let q = rw (cell_at-set_cell w h g c d (remove_swap id ids) v i, other) at e' in
      ground (arith, l d ids' q j, l d ids' q id, ==_eq id j)
]
