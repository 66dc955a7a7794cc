-- ===== src/Game/Behavior/Views.antt =====
-- The decisions of a monster (Monster.cpp) and what decides who sees whom.
use simple_mmo.Prelude.{
  ℕ, Bool, true, false, Option, none, some, List, ◌&&◌, not, if◌then◌else◌, refl, [],
}
use simple_mmo.Game.Floats.{Floats}
use simple_mmo.Game.Objects.{Object, PositionInfo, MonsterState, is_ready}
use simple_mmo.Game.Stat.{is_dead}
use simple_mmo.Game.Navmesh.{Detour, find_path}
use simple_mmo.Game.World.{Room, update_at}
use simple_mmo.Game.Movement.{VectorMath}
use simple_mmo.Game.Monster.{stop_move, change_state}
use simple_mmo.Game.Damage.Views.{Stays-stop_move, Stays-change_state, Stays-retarget}
use simple_mmo.Game.Combat.{is_hit, character_attack}
use simple_mmo.Game.Combat.Views.{Stays-character_attack}
use simple_mmo.Game.View.Stays.{Stays, Stays-refl, Stays-trans, Stays-if, IsGentle, Stays-update_at}
use simple_mmo.Game.Patrol.{
  Rolls, dist_sq, trace_range_sq, take_path, start_path, is_empty_path, set_path, closest_player,
  set_patrol_timer, walk, stroll, hunt, get_random_pos_in_cell, update_patrol,
}
use simple_mmo.Game.Behavior.{
  give_up, pursue, set_search_timer, remember, turn_to, strike_target, attack_target, update_attack,
  update_hit, search_path, trace_target, update_trace, update_in, update_ai,
}

module _ ⦃fl : Floats⦄ where
  open fl use {F, lt, le, mul, largest}

  take_path-IsGentle : (path : List PositionInfo) → IsGentle (take_path path)
  take_path-IsGentle path = record { id = λ o. refl; kind = λ o. refl; view = λ o. refl }

  start_path-IsGentle : IsGentle start_path
  start_path-IsGentle = record { id = λ o. refl; kind = λ o. refl; view = λ o. refl }

  set_patrol_timer-IsGentle : (now ms : ℕ) → IsGentle (set_patrol_timer now ms)
  set_patrol_timer-IsGentle now ms = record { id = λ o. refl; kind = λ o. refl; view = λ o. refl }

  set_search_timer-IsGentle : (now ms : ℕ) → IsGentle (set_search_timer now ms)
  set_search_timer-IsGentle now ms = record { id = λ o. refl; kind = λ o. refl; view = λ o. refl }

  remember-IsGentle : (p : PositionInfo) (now : ℕ) → IsGentle (remember p now)
  remember-IsGentle p now = record { id = λ o. refl; kind = λ o. refl; view = λ o. refl }

  Stays-set_path : (a : ℕ) (path : List PositionInfo) (r : Room) → Stays r (set_path a path r)
  unfolding set_path
  Stays-set_path a path r =
      let taken = update_at a (take_path path) r in
      let started = update_at a start_path taken in
      let took = Stays-update_at a (take_path path) r (take_path-IsGentle path) in
      Stays-if (is_empty_path path) r (stop_move a taken) started
        (Stays-trans r taken (stop_move a taken) took (Stays-stop_move a taken))
        (Stays-trans r taken started took (Stays-update_at a start_path taken start_path-IsGentle))

  -- A path, and a change of the object behind it.
  Stays-set_out :
      (a : ℕ) (path : List PositionInfo) (h : Object → Object) (r : Room)
      → IsGentle h
      → Stays r (update_at a h (set_path a path r))
  Stays-set_out a path h r w =
      Stays-trans r (set_path a path r) (update_at a h (set_path a path r))
        (Stays-set_path a path r) (Stays-update_at a h (set_path a path r) w)

  Stays-walk : (a : ℕ) (found : Bool × List PositionInfo) (r : Room) → Stays r (walk a found r)
  Stays-walk a (false, path) r =
      Stays-update_at a (set_patrol_timer r.now 500) r (set_patrol_timer-IsGentle r.now 500)
  Stays-walk a (true, path) r =
      Stays-set_out a path (set_patrol_timer r.now 1000) r (set_patrol_timer-IsGentle r.now 1000)

  Stays-pursue :
      (a : ℕ) (there : PositionInfo) (found : Bool × List PositionInfo) (r : Room)
      → Stays r (pursue a there found r)
  Stays-pursue a there (false, path) r =
      Stays-update_at a (set_search_timer r.now 500) r (set_search_timer-IsGentle r.now 500)
  Stays-pursue a there (true, path) r =
      Stays-set_out a path (remember there r.now) r (remember-IsGentle there r.now)

  Stays-update_hit : (a : ℕ) (r : Room) → Stays r (update_hit a r)
  unfolding update_hit
  Stays-update_hit a r =
      Stays-if (is_hit r.now (r.heap a)) r r (change_state a MonsterState.none r) (Stays-refl r)
        (Stays-change_state a MonsterState.none r)

  Stays-give_up : (a : ℕ) (r : Room) → Stays r (give_up a r)
  Stays-give_up a r = Stays-retarget a none MonsterState.patrol r

  module _ (dx : VectorMath) where
    turn_to-IsGentle : (t : Object) (now : ℕ) → IsGentle (turn_to dx t now)
    turn_to-IsGentle t now = record { id = λ o. refl; kind = λ o. refl; view = λ o. refl }

    Stays-strike_target : (a t : ℕ) (r : Room) → Stays r (strike_target dx a t r)
    Stays-strike_target a t r =
        let turned = update_at a (turn_to dx (r.heap t) r.now) r in
        let id = (turned.heap t).info.id in
        let k =
          Stays-update_at a (turn_to dx (r.heap t) r.now) r (turn_to-IsGentle (r.heap t) r.now) in
        Stays-if (r.heap a).in_room r (character_attack a 0 id turned) turned
          (Stays-trans r turned (character_attack a 0 id turned) k
            (Stays-character_attack a 0 id turned))
          k

    Stays-attack_target :
        (a : ℕ) (target : Option ℕ) (r : Room) → Stays r (attack_target dx a target r)
    Stays-attack_target a none r = Stays-change_state a MonsterState.patrol r
    Stays-attack_target a (some t) r =
        let struck = if is_ready r.now (r.heap a).attack_timer then strike_target dx a t r else r in
        let far =
          lt (mul (r.heap a).attack_range (r.heap a).attack_range)
            (dist_sq (r.heap a) (r.heap t)) in
        Stays-if (is_dead (r.heap t).info.stat.hp) r (change_state a MonsterState.patrol r)
          (if far then change_state a MonsterState.trace r else struck)
          (Stays-change_state a MonsterState.patrol r)
          (Stays-if far r (change_state a MonsterState.trace r) struck
            (Stays-change_state a MonsterState.trace r)
            (Stays-if (is_ready r.now (r.heap a).attack_timer) r (strike_target dx a t r) r
              (Stays-strike_target a t r) (Stays-refl r)))

  module _ (d : Detour) (dx : VectorMath) where
    Stays-stroll :
        (blank : PositionInfo) (rolls : Rolls) (a : ℕ) (r : Room)
        → Stays r (stroll d blank rolls a r)
    Stays-stroll blank rolls a r =
        let p = (r.heap a).info.position in
        let found = find_path d blank p (get_random_pos_in_cell d rolls p r.game_map) [] in
        Stays-if (not (r.heap a).has_path && is_ready r.now (r.heap a).patrol_timer) r
          (walk a found r) r (Stays-walk a found r) (Stays-refl r)

    Stays-hunt :
        (blank : PositionInfo) (rolls : Rolls) (a : ℕ) (closest : Option ℕ) (r : Room)
        → Stays r (hunt d blank rolls a closest r)
    Stays-hunt blank rolls a none r = Stays-stroll blank rolls a r
    Stays-hunt blank rolls a (some t) r = Stays-retarget a (some t) MonsterState.trace r

    Stays-search_path :
        (blank : PositionInfo) (a t : ℕ) (r : Room) → Stays r (search_path d dx blank a t r)
    Stays-search_path blank a t r =
        let there = (r.heap t).info.position in
        let found = find_path d blank (r.heap a).info.position there [] in
        Stays-if _ r (pursue a there found r) r (Stays-pursue a there found r) (Stays-refl r)

    Stays-trace_target :
        (blank : PositionInfo) (a : ℕ) (target : Option ℕ) (r : Room)
        → Stays r (trace_target d dx blank a target r)
    Stays-trace_target blank a none r = Stays-give_up a r
    Stays-trace_target blank a (some t) r =
        let far = dist_sq (r.heap a) (r.heap t) in
        let near = le far (mul (r.heap a).attack_range (r.heap a).attack_range) in
        let reached = change_state a MonsterState.attack r in
        let searched = search_path d dx blank a t r in
        let closing = if near then reached else searched in
        Stays-if (is_dead (r.heap t).info.stat.hp) r (give_up a r)
          (if lt trace_range_sq far then give_up a r else closing) (Stays-give_up a r)
          (Stays-if (lt trace_range_sq far) r (give_up a r) closing (Stays-give_up a r) (
            Stays-if near r reached searched (Stays-change_state a MonsterState.attack r)
              (Stays-search_path blank a t r)))

    pub Stays-update_ai :
        (blank : PositionInfo) (rolls : Rolls) (a : ℕ) (r : Room)
        → Stays r (update_ai d dx blank rolls a r)
    unfolding update_ai update_trace update_attack update_patrol
    Stays-update_ai blank rolls a r = by_state (r.heap a).monster_state
      where
        by_state : (s : MonsterState) → Stays r (update_in d dx s blank rolls a r)
        by_state MonsterState.none = Stays-refl r
        by_state MonsterState.patrol =
            let closest = (closest_player (r.heap a) (r.heap a).view_list r (none, largest)).0 in
            Stays-if (r.heap a).in_room r (hunt d blank rolls a closest r) r
              (Stays-hunt blank rolls a closest r) (Stays-refl r)
        by_state MonsterState.trace = Stays-trace_target blank a (r.heap a).target_player r
        by_state MonsterState.attack = Stays-attack_target dx a (r.heap a).target_player r
        by_state MonsterState.hit = Stays-update_hit a r
