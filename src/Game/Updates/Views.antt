-- ===== src/Game/Updates/Views.antt =====
-- Following a path, deciding and drifting (Monster.cpp, GameObject.cpp) and what decides who sees
-- whom.
use simple_mmo.Prelude.{
  ℕ, Bool, false, List, [], ◌∷◌, ◌&&◌, ◌||◌, not, if◌then◌else◌, leb, drop, length, refl, arith,
}
use simple_mmo.Game.Floats.{Floats}
use simple_mmo.Game.Objects.{PositionInfo, Vector3, is_ready}
use simple_mmo.Game.Navmesh.{Detour}
use simple_mmo.Game.World.{sc_move_object, Room, update_at}
use simple_mmo.Game.World.Broadcast.{broadcast_aoi}
use simple_mmo.Game.Damage.Views.{Stays-broadcast_aoi, Stays-stop_move}
use simple_mmo.Game.Movement.{VectorMath, place_of, move, movable_update, apply_movement}
use simple_mmo.Game.Patrol.{Rolls}
use simple_mmo.Game.Behavior.{update_ai}
use simple_mmo.Game.Behavior.Minds.{Same-update_at}
use simple_mmo.Game.Behavior.Views.{Stays-update_ai}
use simple_mmo.Game.View.Stays.{Stays, Stays-refl, Stays-trans, Stays-if, IsGentle, Stays-update_at}
use simple_mmo.Game.Updates.{
  put_object, tell_move, next_corner, set_decision_timer, step_to, follow_from, follow_path,
  follow_if, decide,
}

module _ ⦃fl : Floats⦄ where
  open fl use {F, ratio, lt}

  next_corner-IsGentle : IsGentle next_corner
  next_corner-IsGentle = record { id = λ o. refl; kind = λ o. refl; view = λ o. refl }

  set_decision_timer-IsGentle : (now : ℕ) → IsGentle (set_decision_timer now)
  set_decision_timer-IsGentle now = record { id = λ o. refl; kind = λ o. refl; view = λ o. refl }

  Stays-tell_move : (a : ℕ) (changed : Bool) (r : Room) → Stays r (tell_move a changed r)
  Stays-tell_move a changed r =
      let told = sc_move_object (r.heap a).info (r.heap a).last_move_time in
      Stays-if (changed && (r.heap a).in_room) r (broadcast_aoi a told false r) r
        (Stays-broadcast_aoi a told false r) (Stays-refl r)

  module _ (dx : VectorMath) where
    Stays-moved :
        (a : ℕ) (dest : Vector3) (r : Room)
        → Stays r (update_at a (put_object (move dx dest (r.heap a)).1) r)
    unfolding move
    Stays-moved a dest r =
        let moved = put_object (move dx dest (r.heap a)).1 in
        record {
          objects = refl;
          map = refl;
          id = Same-update_at (λ o. o.info.id) a moved r refl;
          kind = Same-update_at (λ o. o.info.object_type) a moved r refl;
          view = Same-update_at (λ o. o.view_list) a moved r refl;
        }

    Stays-step_to : (a : ℕ) (dest : Vector3) (r : Room) → Stays r (step_to dx a dest r)
    Stays-step_to a dest r =
        let (changed, o) = move dx dest (r.heap a) in
        let moved = update_at a (put_object o) r in
        Stays-trans r moved (tell_move a changed moved) (Stays-moved a dest r)
          (Stays-tell_move a changed moved)

    Stays-follow_from :
        (ps : List PositionInfo) (a : ℕ) (r : Room) → Stays r (follow_from dx ps a r)
    unfolding follow_from
    Stays-follow_from [] a r = Stays-stop_move a r
    Stays-follow_from (p ∷ ps) a r =
        let next = update_at a next_corner r in
        Stays-if _ r (follow_from dx ps a next) (step_to dx a (place_of p) r)
          (Stays-trans r next (follow_from dx ps a next)
            (Stays-update_at a next_corner r next_corner-IsGentle) (Stays-follow_from ps a next))
          (Stays-step_to a (place_of p) r)

    Stays-follow_if : (a : ℕ) (r : Room) → Stays r (follow_if dx a r)
    unfolding follow_path
    Stays-follow_if a r =
        let o = r.heap a in
        let there = follow_from dx (drop o.path_index o.path) a r in
        let followed = if not o.has_path || leb (length o.path) o.path_index then r else there in
        Stays-if o.has_path r followed r
          (Stays-if (not o.has_path || leb (length o.path) o.path_index) r r there (Stays-refl r)
            (Stays-follow_from (drop o.path_index o.path) a r))
          (Stays-refl r)

    movable_update-IsGentle : (dt : F) (now : ℕ) → IsGentle (movable_update dx dt now)
    unfolding movable_update apply_movement
    movable_update-IsGentle dt now = record {
      id = λ o. ground arith;
      kind = λ o. ground arith;
      view = λ o. ground arith;
    }

    pub Stays-movable_update :
        (dt : F) (a : ℕ) (r : Room) → Stays r (update_at a (movable_update dx dt r.now) r)
    Stays-movable_update dt a r =
        Stays-update_at a (movable_update dx dt r.now) r (movable_update-IsGentle dt r.now)

  module _ (d : Detour) (dx : VectorMath) where
    Stays-decide :
        (blank : PositionInfo) (rolls : Rolls) (a : ℕ) (r : Room)
        → Stays r (decide d dx blank rolls a r)
    unfolding decide
    Stays-decide blank rolls a r =
        let timed = update_at a (set_decision_timer r.now) r in
        Stays-if (is_ready r.now (r.heap a).ai_decision_timer) r
          (update_ai d dx blank rolls a timed) r
          (Stays-trans r timed (update_ai d dx blank rolls a timed)
            (Stays-update_at a (set_decision_timer r.now) r (set_decision_timer-IsGentle r.now))
            (Stays-update_ai d dx blank rolls a timed))
          (Stays-refl r)

    -- A decision, and a step on the path.
    pub Stays-act :
        (blank : PositionInfo) (rolls : Rolls) (a : ℕ) (r : Room)
        → Stays r (follow_if dx a (decide d dx blank rolls a r))
    Stays-act blank rolls a r =
        let decided = decide d dx blank rolls a r in
        Stays-trans r decided (follow_if dx a decided) (Stays-decide blank rolls a r)
          (Stays-follow_if dx a decided)
