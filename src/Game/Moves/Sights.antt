-- ===== src/Game/Moves/Sights.antt =====
-- Leaving a room and moving in it, as far as views are concerned.
use simple_mmo.Prelude.{
  ℕ, Bool, true, false, none, some, ◌&&◌, if◌then◌else◌, ◌≡◌, refl, ◌∙◌, arith, find, erase,
  find-erase, ==_refl,
}
use simple_mmo.Game.Floats.{Floats}
use simple_mmo.Game.GameMap.{GameMap, ViewUpdate, CellPos, to_cell_pos, leave_game_map, update_map}
use simple_mmo.Game.GameMap.Grid.{IsSound, IsInside, leave_map-returns, update_cell-returns}
use simple_mmo.Game.World.{Room}
use simple_mmo.Game.Monster.{is_empty}
use simple_mmo.Game.Damage.{id_at}
use simple_mmo.Game.View.{update_view}
use simple_mmo.Game.View.Symmetry.{Views, Registered, update_view-Views}
use simple_mmo.Game.Moves.{player_leave_room, npc_move, remove_object, drop_player, position_at}

module _ ⦃fl : Floats⦄ where
  pub Views-with_map : (r : Room) (m : GameMap) → Views r → Views (record r { game_map = m })
  Views-with_map r m v = record {
    keyed = v.keyed;
    mutual_views = v.mutual_views;
    players_only = v.players_only;
  }

  Views-if : (b : Bool) (r s : Room) → Views r → Views s → Views (if b then r else s)
  Views-if true r s p q = p
  Views-if false r s p q = q

  -- The result of `show`.
  abbrev pub shown_room : ℕ → Room → ViewUpdate → GameMap → Room
  shown_room a r u m =
      let r' = record r { game_map = m } in
      if is_empty u.entered && is_empty u.leaved then r' else update_view a u r'

  shown_room-Views :
      (a : ℕ) (r : Room) (u : ViewUpdate) (m : GameMap)
      → Registered a r
      → Views r
      → Views (shown_room a r u m)
  shown_room-Views a r u m e v =
      let r' : Room = record r { game_map = m } in
      Views-if (is_empty u.entered && is_empty u.leaved) r' (update_view a u r')
        (Views-with_map r m v) (update_view-Views a u r' e (Views-with_map r m v))

  pub found :
      (id i a : ℕ) (r : Room) → find i (erase id r.objects) ≡ some a → find i r.objects ≡ some a
  found id i a r p = ground (arith, find-erase id i r.objects)

  pub erased-Views : (id : ℕ) (r : Room) → Views r → Views (drop_player id (remove_object id r))
  unfolding remove_object
  erased-Views id r v = record {
    keyed = λ i a p. v.keyed i a (found id i a r p);
    mutual_views = λ i j a b p q. v.mutual_views i j a b (found id i a r p) (found id j b r q);
    players_only = λ i j a b p q. v.players_only i j a b (found id i a r p) (found id j b r q);
  }

  gone : (id : ℕ) (r : Room) → find id (drop_player id (remove_object id r)).objects ≡ none
  unfolding remove_object
  gone id r = find-erase id id r.objects ∙ rw (==_refl id) refl

  -- From a room whose views are in order and whose map is sound, a registered player can leave:
  -- it is then no longer in the map of objects, views are in order among the others, and no access
  -- was outside the grid.
  pub player_leave_room-Views :
      (a : ℕ) (r : Room)
      → Registered a r
      → Views r
      → IsSound r.game_map.cells
      → (r' : Room) × (player_leave_room a r ≡ some r')
        × Views r'
        × (find (id_at a r) r'.objects ≡ none)
  unfolding player_leave_room leave_game_map
  player_leave_room-Views a r e v z =
      let (u, cells, q, _) = leave_map-returns (id_at a r) r.game_map.cells z in
      let shown = shown_room a r u (record r.game_map { cells = cells }) in
      let w = shown_room-Views a r u (record r.game_map { cells = cells }) e v in
      (
        drop_player (id_at a r) (remove_object (id_at a r) shown),
        rw q refl,
        erased-Views (id_at a r) shown w,
        gone (id_at a r) shown,
      )

  -- In a room whose views are in order and whose map is sound a registered monster whose cell is
  -- recorded can move to any position of the grid, and views are in order afterwards.
  pub npc_move-Views :
      (a : ℕ) (from : CellPos) (r : Room)
      → Registered a r
      → Views r
      → IsSound r.game_map.cells
      → find (id_at a r) r.game_map.cells.id_to_cell_pos ≡ some from
      → IsInside r.game_map.cells.grid_width r.game_map.cells.grid_height
          (to_cell_pos (position_at a r) r.game_map)
      → (r' : Room) × (npc_move a r ≡ some r') × Views r'
  unfolding npc_move update_map
  npc_move-Views a from r e v z f i =
      let to = to_cell_pos (position_at a r) r.game_map in
      let (u, cells, q, _) = update_cell-returns (id_at a r) from to r.game_map.cells z f i in
      (
        shown_room a r u (record r.game_map { cells = cells }),
        rw (e, q) refl,
        shown_room-Views a r u (record r.game_map { cells = cells }) e v,
      )
