-- ===== src/Game/View.antt =====
-- Room::UpdateView (Room.cpp) and Character::RemoveView (Character.cpp): who is told of whom when an
-- object comes into view or goes out of it.
pub mod Changes
pub mod Stays
pub mod Step
pub mod Symmetry
pub mod Counts
pub mod Loops
mod Tests
use simple_mmo.Prelude.{
  ℕ, Bool, true, false, Option, none, some, List, [], ◌∷◌, ◌++◌, ◌==◌, ◌&&◌, ◌||◌, if◌then◌else◌,
}
use simple_mmo.Game.Removal.{remove_swap}
use simple_mmo.Game.Floats.{Floats}
use simple_mmo.Game.Objects.{Object, is_player, is_monster}
use simple_mmo.Game.World.{
  Packet, sc_add_object, sc_remove_object, Room, update_at, send_to, get_game_object,
}
use simple_mmo.Game.Monster.{wake_up_by_player, sleep_if_no_player}
use simple_mmo.Game.GameMap.{ViewUpdate}

module _ ⦃fl : Floats⦄ where
  -- Character::RemoveView
  unfoldable pub remove_view : ℕ → ℕ → Room → Room
  remove_view a id r = update_at a (λ o. record o { view_list = remove_swap id o.view_list }) r

  -- `_viewList.push_back(id)`
  unfoldable pub add_view : ℕ → ℕ → Room → Room
  add_view a id r = update_at a (λ o. record o { view_list = o.view_list ++ id ∷ [] }) r

  abbrev pub at_player : ℕ → Room → Bool
  at_player a r = is_player (r.heap a).info.object_type

  abbrev pub at_monster : ℕ → Room → Bool
  at_monster a r = is_monster (r.heap a).info.object_type

  -- The subject's side, when the target with this id goes out of view.
  unfoldable pub subject_leaves : ℕ → ℕ → ℕ → Room → Room
  subject_leaves subject target target_id r =
      if at_player subject r || (at_monster subject r && at_player target r)
      then (let r' = remove_view subject target_id r in
          if at_monster subject r' && at_player target r'
          then sleep_if_no_player subject r'
          else (if at_player subject r'
              then send_to (r'.heap subject).session (sc_remove_object target_id) r'
              else r'))
      else r

  -- The target's side.
  unfoldable pub target_leaves : ℕ → ℕ → ℕ → Room → Room
  target_leaves subject subject_id target r =
      if at_player target r || (at_monster target r && at_player subject r)
      then (let r' = remove_view target subject_id r in
          if at_monster target r' && at_player subject r'
          then sleep_if_no_player target r'
          else (if at_player target r'
              then send_to (r'.heap target).session (sc_remove_object subject_id) r'
              else r'))
      else r

  abbrev pub leave_view_found : ℕ → ℕ → ℕ → Option ℕ → Room → Room
  leave_view_found subject subject_id target_id none r = r
  leave_view_found subject subject_id target_id (some target) r =
      target_leaves subject subject_id target (subject_leaves subject target target_id r)

  -- One round of the loop over `result.leaved`.
  unfoldable pub leave_view : ℕ → ℕ → Room → Room
  leave_view subject target_id r =
      let subject_id = (r.heap subject).info.id in
      if target_id == subject_id
      then r
      else leave_view_found subject subject_id target_id (get_game_object target_id r) r

  unfoldable pub subject_enters : ℕ → ℕ → ℕ → Room → Room
  subject_enters subject target target_id r =
      if at_player subject r || (at_monster subject r && at_player target r)
      then (let r' = add_view subject target_id r in
          if at_monster subject r' && at_player target r'
          then wake_up_by_player subject r'
          else (if at_player subject r'
              then send_to (r'.heap subject).session (sc_add_object (r'.heap target).info) r'
              else r'))
      else r

  -- `add_subject` is the packet that `UpdateView` made of the subject when it began.
  unfoldable pub target_enters : Packet → ℕ → ℕ → ℕ → Room → Room
  target_enters add_subject subject subject_id target r =
      if at_player target r || (at_monster target r && at_player subject r)
      then (let r' = add_view target subject_id r in
          if at_monster target r' && at_player subject r'
          then wake_up_by_player target r'
          else (if at_player target r'
              then send_to (r'.heap target).session add_subject r'
              else r'))
      else r

  abbrev pub enter_view_found : Packet → ℕ → ℕ → ℕ → Option ℕ → Room → Room
  enter_view_found add_subject subject subject_id target_id none r = r
  enter_view_found add_subject subject subject_id target_id (some target) r =
      target_enters add_subject subject subject_id target
        (subject_enters subject target target_id r)

  -- One round of the loop over `result.entered`.
  unfoldable pub enter_view : Packet → ℕ → ℕ → Room → Room
  enter_view add_subject subject target_id r =
      let subject_id = (r.heap subject).info.id in
      if target_id == subject_id
      then r
      else enter_view_found add_subject subject subject_id target_id (get_game_object target_id r) r

  unfoldable pub leave_views : ℕ → List ℕ → Room → Room
  leave_views subject [] r = r
  leave_views subject (id ∷ ids) r = leave_views subject ids (leave_view subject id r)

  unfoldable pub enter_views : Packet → ℕ → List ℕ → Room → Room
  enter_views add_subject subject [] r = r
  enter_views add_subject subject (id ∷ ids) r =
      enter_views add_subject subject ids (enter_view add_subject subject id r)

  -- Room::UpdateView
  unfoldable pub update_view : ℕ → ViewUpdate → Room → Room
  update_view subject result r =
      let add_subject = sc_add_object (r.heap subject).info in
      enter_views add_subject subject result.entered (leave_views subject result.leaved r)
