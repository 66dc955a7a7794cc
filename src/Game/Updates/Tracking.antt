-- ===== src/Game/Updates/Tracking.antt =====
-- `Room::Update` (Room.cpp) with the places on the map: objects that run report where they are.
use simple_mmo.Prelude.{
  ℕ, Dict, true, false, Option, some, [], ◌∷◌, ◌&&◌, if◌then◌else◌, ◌≡◌, refl, find, ◌∙◌,
}
use simple_mmo.Prelude.Int.{pos, ◌-ℤ◌}
use simple_mmo.Game.Floats.{Floats}
use simple_mmo.Game.Objects.{PositionInfo, is_monster}
use simple_mmo.Game.Stat.{is_dead}
use simple_mmo.Game.Navmesh.{Detour}
use simple_mmo.Game.World.{update, reserve_job, Room, update_at}
use simple_mmo.Game.Movement.{VectorMath, movable_update}
use simple_mmo.Game.Patrol.{Rolls}
use simple_mmo.Game.Moves.{npc_move}
use simple_mmo.Game.View.Stays.{Stays-reserve_job, Registered-Stays}
use simple_mmo.Game.View.Symmetry.{Registered}
use simple_mmo.Game.Moves.Tracking.{cell_of}
use simple_mmo.Game.Moves.Placed.{AllFound, IsDistinct-AllFound}
use simple_mmo.Game.Moves.Tracked.{
  IsOnMap, Tracked, TrackedIn, TrackedIn-some, Tracked-Stays, TrackedIn-if, TrackedIn-bind,
  TrackedIn-same, npc_move-Tracked,
}
use simple_mmo.Game.Updates.{
  is_run, report_run, follow_if, drift, decide, monster_update, object_update, update_objects,
  room_update,
}
use simple_mmo.Game.Updates.Views.{Stays-movable_update, Stays-act}

module _ ⦃fl : Floats⦄ (d : Detour) (dx : VectorMath) where
  open fl use {F, ratio, div, of_int}

  -- If the object runs, it is in a cell of the grid.
  abbrev pub RunsOnMap : ℕ → Room → Type 0
  RunsOnMap a r =
      is_run (r.heap a).info.position.state && (r.heap a).in_room ≡ true → IsOnMap r (cell_of a r)

  -- If an object is a monster, alive and awake, then what it decides and the next step on its path
  -- leave it in the grid, if it runs.
  abbrev pub KeepsToMap : PositionInfo → Rolls → ℕ → Room → Type 0
  KeepsToMap blank rolls a r =
      is_monster (r.heap a).info.object_type ≡ true
      → is_dead (r.heap a).info.stat.hp ≡ false
      → (r.heap a).wake_up ≡ true
      → RunsOnMap a (follow_if dx a (decide d dx blank rolls a r))

  -- Each object keeps to the map when it is its turn.
  pub AllKeepToMap : PositionInfo → (ℕ → Rolls) → F → Dict ℕ → Room → Type 0
  AllKeepToMap blank rolls dt [] r = Unit
  AllKeepToMap blank rolls dt ((id, a) ∷ os) r =
      KeepsToMap blank (rolls a) a r
      × ((r' : Room)
          → object_update d dx blank (rolls a) dt a r ≡ some r'
          → AllKeepToMap blank rolls dt os r')

  abbrev pub seconds_since : ℕ → ℕ → F
  seconds_since last now = div (of_int (pos now -ℤ pos last)) (ratio 1000 1)

  -- The objects of a room keep to the map in an update.
  abbrev pub UpdateKeepsToMap : PositionInfo → (ℕ → Rolls) → ℕ → Room → Type 0
  UpdateKeepsToMap blank rolls last r =
      AllKeepToMap blank rolls (seconds_since last r.now) r.objects
        (reserve_job 100 (update r.now) r)

  drift-TrackedIn :
      (objects : Dict ℕ) (dt : F) (a : ℕ) (o : Option Room)
      → TrackedIn objects o
      → TrackedIn objects (drift dx dt a o)
  drift-TrackedIn objects dt a o (s, e, n, t) =
      let s' = update_at a (movable_update dx dt s.now) s in
      let k = Stays-movable_update dx dt a s in
      rw e (s', refl, k.objects ∙ n, Tracked-Stays s s' k t)

  report_run-TrackedIn :
      (a : ℕ) (r : Room)
      → Registered a r
      → Tracked r
      → RunsOnMap a r
      → TrackedIn r.objects (report_run a r)
  unfolding report_run
  report_run-TrackedIn a r e t i =
      TrackedIn-if r.objects (is_run (r.heap a).info.position.state && (r.heap a).in_room)
        (npc_move a r) (some r) (λ h. npc_move-Tracked a r e t (i h)) (λ h. TrackedIn-some r t)

  monster_update-TrackedIn :
      (blank : PositionInfo) (rolls : Rolls) (dt : F) (a : ℕ) (r : Room)
      → Registered a r
      → Tracked r
      → (is_dead (r.heap a).info.stat.hp ≡ false
          → (r.heap a).wake_up ≡ true
          → RunsOnMap a (follow_if dx a (decide d dx blank rolls a r)))
      → TrackedIn r.objects (monster_update d dx blank rolls dt a r)
  unfolding monster_update
  monster_update-TrackedIn blank rolls dt a r e t i =
      let acted = follow_if dx a (decide d dx blank rolls a r) in
      let k = Stays-act d dx blank rolls a r in
      let awake = drift dx dt a (report_run a acted) in
      TrackedIn-if r.objects (is_dead (r.heap a).info.stat.hp) (some r)
        (if (r.heap a).wake_up then awake else some r) (λ dead. TrackedIn-some r t)
        (λ alive.
          TrackedIn-if r.objects (r.heap a).wake_up awake (some r)
            (λ up. drift-TrackedIn r.objects dt a (report_run a acted) (
              TrackedIn-same acted.objects r.objects (report_run a acted) k.objects (
                report_run-TrackedIn a acted (Registered-Stays a r acted k e)
                  (Tracked-Stays r acted k t) (i alive up))))
            (λ asleep. TrackedIn-some r t))

  object_update-TrackedIn :
      (blank : PositionInfo) (rolls : Rolls) (dt : F) (a : ℕ) (r : Room)
      → Registered a r
      → Tracked r
      → KeepsToMap blank rolls a r
      → TrackedIn r.objects (object_update d dx blank rolls dt a r)
  unfolding object_update
  object_update-TrackedIn blank rolls dt a r e t i =
      TrackedIn-if r.objects (is_monster (r.heap a).info.object_type)
        (monster_update d dx blank rolls dt a r) (drift dx dt a (some r))
        (λ monster. monster_update-TrackedIn blank rolls dt a r e t (i monster))
        (λ other. drift-TrackedIn r.objects dt a (some r) (TrackedIn-some r t))

  found-Registered : (i a : ℕ) (r : Room) → Tracked r → find i r.objects ≡ some a → Registered a r
  found-Registered i a r (f, t, w) p = rw (t.keyed i a p) p

  update_objects-TrackedIn :
      (blank : PositionInfo) (rolls : ℕ → Rolls) (dt : F) (objects os : Dict ℕ) (r : Room)
      → r.objects ≡ objects
      → AllFound os objects
      → Tracked r
      → AllKeepToMap blank rolls dt os r
      → TrackedIn objects (update_objects d dx blank rolls dt os r)
  unfolding update_objects AllKeepToMap AllFound
  update_objects-TrackedIn blank rolls dt objects [] r n w t i = (r, refl, n, t)
  update_objects-TrackedIn blank rolls dt objects ((id, a) ∷ os) r n (here, w) t (i, is) =
      TrackedIn-bind objects (object_update d dx blank (rolls a) dt a r)
        (update_objects d dx blank rolls dt os)
        (TrackedIn-same r.objects objects (object_update d dx blank (rolls a) dt a r) n (
          object_update-TrackedIn blank (rolls a) dt a r (found-Registered id a r t (rw n here)) t
            i))
        (λ s e m u. update_objects-TrackedIn blank rolls dt objects os s m w u (is s e))

  -- An update of a room whose lists and map agree with places that all its objects have ends in
  -- such a room, with the same objects, if each monster that runs is in a cell of the grid when it
  -- reports to the room.
  pub room_update-TrackedIn :
      (blank : PositionInfo) (rolls : ℕ → Rolls) (last : ℕ) (r : Room)
      → Tracked r
      → UpdateKeepsToMap blank rolls last r
      → TrackedIn r.objects (room_update d dx blank rolls last r)
  unfolding room_update
  room_update-TrackedIn blank rolls last r (f, t, w) i =
      let r' = reserve_job 100 (update r.now) r in
      update_objects-TrackedIn blank rolls (seconds_since last r.now) r.objects r.objects r' refl
        (IsDistinct-AllFound r.objects w.distinct)
        (Tracked-Stays r r' (Stays-reserve_job 100 (update r.now) r) (f, t, w)) i
