-- ===== src/Game/Behavior/Decisions.antt =====
-- `Monster::UpdateAI` (Monster.cpp): the state and the target that a monster decides for.
use simple_mmo.Prelude.{
  ℕ, Bool, true, false, Option, none, some, List, [], if◌then◌else◌, ◌≡◌, refl, sym, ◌∙◌,
  Bool-cases, inl, inr,
}
use mathlib.Core.Bool.{false≢true}
use simple_mmo.Game.Floats.{Floats}
use simple_mmo.Game.Objects.{PositionInfo, MonsterState, is_ready}
use simple_mmo.Game.Stat.{is_dead}
use simple_mmo.Game.Navmesh.{Detour, find_path}
use simple_mmo.Game.World.{Room, update_at}
use simple_mmo.Game.Movement.{VectorMath}
use simple_mmo.Game.Damage.{set_target}
use simple_mmo.Game.Combat.{is_hit, character_attack}
use simple_mmo.Game.Patrol.{
  Rolls, dist_sq, trace_range_sq, closest_player, set_path, walk, stroll, hunt, set_patrol_timer,
  get_random_pos_in_cell, update_patrol,
}
use simple_mmo.Game.Behavior.{
  give_up, pursue, set_search_timer, remember, turn_to, strike_target, attack_target, update_attack,
  update_hit, search_path, trace_target, update_trace, update_in, update_ai,
}
use simple_mmo.Game.Behavior.Minds.{
  state_at, target_at, SameMinds, Same-trans, Same-if, Same-update_at, SameMinds-set_path,
  SameMinds-character_attack,
}
use simple_mmo.Game.Behavior.Prey.{closest_player_sound, closest_player_complete}
use simple_mmo.Game.Behavior.Choices.{
  Decides, rests, spots, patrols, loses, outruns, reaches, chases, forgets, resumes, fights,
  suffers, recovers, attack_range_sq, DecidesIn, unmoved, changed, DecidesIn-if, set_target-sets,
}

module _ ⦃fl : Floats⦄ where
  open fl use {F, lt, le, mul, largest}

  update_hit-Decides :
      (a : ℕ) (r : Room) → state_at a r ≡ MonsterState.hit → DecidesIn a r (update_hit a r)
  unfolding update_hit
  update_hit-Decides a r e = elim (Bool-cases (is_hit r.now (r.heap a))) [
    | inl h ↦
        rw h (
          unmoved a r r MonsterState.hit (target_at a r) (λ b. refl, λ b. refl) e refl
            (suffers e h))
    | inr h ↦ rw h (changed a r r MonsterState.none (target_at a r) refl (recovers e h))
  ]

  SameMinds-walk :
      (a : ℕ) (found : Bool × List PositionInfo) (r : Room) → SameMinds r (walk a found r)
  SameMinds-walk a (false, path) r = (
    Same-update_at (λ o. o.monster_state) a (set_patrol_timer r.now 500) r refl,
    Same-update_at (λ o. o.target_player) a (set_patrol_timer r.now 500) r refl,
  )
  SameMinds-walk a (true, path) r =
      let s = set_path a path r in
      let t = update_at a (set_patrol_timer r.now 1000) s in
      let k = SameMinds-set_path a path r in
      (
        Same-trans (λ o. o.monster_state) r s t k.0
            (Same-update_at (λ o. o.monster_state) a (set_patrol_timer r.now 1000) s refl),
        Same-trans (λ o. o.target_player) r s t k.1
            (Same-update_at (λ o. o.target_player) a (set_patrol_timer r.now 1000) s refl),
      )

  SameMinds-pursue :
      (a : ℕ) (there : PositionInfo) (found : Bool × List PositionInfo) (r : Room)
      → SameMinds r (pursue a there found r)
  SameMinds-pursue a there (false, path) r = (
    Same-update_at (λ o. o.monster_state) a (set_search_timer r.now 500) r refl,
    Same-update_at (λ o. o.target_player) a (set_search_timer r.now 500) r refl,
  )
  SameMinds-pursue a there (true, path) r =
      let s = set_path a path r in
      let t = update_at a (remember there r.now) s in
      let k = SameMinds-set_path a path r in
      (
        Same-trans (λ o. o.monster_state) r s t k.0
            (Same-update_at (λ o. o.monster_state) a (remember there r.now) s refl),
        Same-trans (λ o. o.target_player) r s t k.1
            (Same-update_at (λ o. o.target_player) a (remember there r.now) s refl),
      )

  SameMinds-if : (c : Bool) (r s : Room) → SameMinds r s → SameMinds r (if c then s else r)
  SameMinds-if true r s k = k
  SameMinds-if false r s k = (λ b. refl, λ b. refl)

  give_up-Decides :
      (a : ℕ) (r : Room) → Decides a r MonsterState.patrol none → DecidesIn a r (give_up a r)
  give_up-Decides a r h =
      changed a r (update_at a (set_target none) r) MonsterState.patrol none
        (set_target-sets a none r) h

  module _ (dx : VectorMath) where
    SameMinds-strike_target : (a t : ℕ) (r : Room) → SameMinds r (strike_target dx a t r)
    SameMinds-strike_target a t r =
        let turn = turn_to dx (r.heap t) r.now in
        let turned = update_at a turn r in
        let id = (turned.heap t).info.id in
        let struck = character_attack a 0 id turned in
        let k = SameMinds-character_attack a 0 id turned in
        let p = Same-update_at (λ o. o.monster_state) a turn r refl in
        let q = Same-update_at (λ o. o.target_player) a turn r refl in
        (
          Same-if (λ o. o.monster_state) (r.heap a).in_room r struck turned
              (Same-trans (λ o. o.monster_state) r turned struck p k.0) p,
          Same-if (λ o. o.target_player) (r.heap a).in_room r struck turned
              (Same-trans (λ o. o.target_player) r turned struck q k.1) q,
        )

    attack_target-Decides :
        (a : ℕ) (target : Option ℕ) (r : Room)
        → target_at a r ≡ target
        → state_at a r ≡ MonsterState.attack
        → DecidesIn a r (attack_target dx a target r)
    attack_target-Decides a none r q e =
        changed a r r MonsterState.patrol (target_at a r) refl (forgets e (rw q tt))
    attack_target-Decides a (some t) r q e = elim (Bool-cases (is_dead (r.heap t).info.stat.hp)) [
      | inl dead ↦
          rw dead (changed a r r MonsterState.patrol (target_at a r) refl (forgets e (rw q dead)))
      | inr alive ↦
          elim (Bool-cases (lt (attack_range_sq (r.heap a)) (dist_sq (r.heap a) (r.heap t)))) [
            | inl far ↦
                rw (alive, far)
                  (changed a r r MonsterState.trace (some t) q (resumes t e (q, alive) far))
            | inr near ↦
                rw (alive, near)
                  (unmoved a r
                    (if is_ready r.now (r.heap a).attack_timer then strike_target dx a t r else r)
                    MonsterState.attack (some t)
                    (SameMinds-if (is_ready r.now (r.heap a).attack_timer) r
                      (strike_target dx a t r) (SameMinds-strike_target a t r))
                    e q (fights t e (q, alive) near))
          ]
    ]

  module _ (d : Detour) (dx : VectorMath) where
    trace_target-Decides :
        (blank : PositionInfo) (a : ℕ) (target : Option ℕ) (r : Room)
        → target_at a r ≡ target
        → state_at a r ≡ MonsterState.trace
        → DecidesIn a r (trace_target d dx blank a target r)
    trace_target-Decides blank a none r q e = give_up-Decides a r (loses e (rw q tt))
    trace_target-Decides blank a (some t) r q e =
        elim (Bool-cases (is_dead (r.heap t).info.stat.hp)) [
          | inl dead ↦ rw dead (give_up-Decides a r (loses e (rw q dead)))
          | inr alive ↦ elim (Bool-cases (lt trace_range_sq (dist_sq (r.heap a) (r.heap t)))) [
            | inl far ↦ rw (alive, far) (give_up-Decides a r (outruns t e (q, alive) far))
            | inr reach ↦
                elim (Bool-cases
                  (le (dist_sq (r.heap a) (r.heap t)) (attack_range_sq (r.heap a)))) [
                    | inl near ↦
                        rw (alive, reach, near)
                          (changed a r r MonsterState.attack (some t) q
                            (reaches t e (q, alive) reach near))
                    | inr away ↦
                        rw (alive, reach, away)
                          (unmoved a r (search_path d dx blank a t r) MonsterState.trace (some t)
                            (SameMinds-search_path blank a t r) e q
                            (chases t e (q, alive) reach away))
                  ]
          ]
        ]
      where
        SameMinds-search_path :
            (blank : PositionInfo) (a t : ℕ) (r : Room) → SameMinds r (search_path d dx blank a t r)
        SameMinds-search_path blank a t r =
            let o = r.heap a in
            let there = (r.heap t).info.position in
            let path = find_path d blank o.info.position there [] in
            SameMinds-if _ r (pursue a there path r) (SameMinds-pursue a there path r)

    hunt-Decides :
        (blank : PositionInfo) (rolls : Rolls) (a : ℕ) (closest : Option ℕ) (r : Room)
        → (closest_player (r.heap a) (r.heap a).view_list r (none, largest)).0 ≡ closest
        → (r.heap a).in_room ≡ true
        → state_at a r ≡ MonsterState.patrol
        → DecidesIn a r (hunt d blank rolls a closest r)
    hunt-Decides blank rolls a none r q here e =
        let o = r.heap a in
        let path =
          find_path d blank o.info.position
            (get_random_pos_in_cell d rolls o.info.position r.game_map) [] in
        unmoved a r (stroll d blank rolls a r) MonsterState.patrol (target_at a r)
          (SameMinds-if _ r (walk a path r) (SameMinds-walk a path r)) e refl
          (patrols e (λ h. closest_player_complete o o.view_list r (none, largest) q))
    hunt-Decides blank rolls a (some t) r q here e =
        elim (closest_player_sound (r.heap a) (r.heap a).view_list r (none, largest) t q) [
          | inl absurdity ↦ cc
          | inr prey ↦
              changed a r (update_at a (set_target (some t)) r) MonsterState.trace (some t)
                (set_target-sets a (some t) r) (spots t e here prey)
        ]

    update_patrol-Decides :
        (blank : PositionInfo) (rolls : Rolls) (a : ℕ) (r : Room)
        → state_at a r ≡ MonsterState.patrol
        → DecidesIn a r (update_patrol d blank rolls a r)
    unfolding update_patrol
    update_patrol-Decides blank rolls a r e =
        let chosen = (closest_player (r.heap a) (r.heap a).view_list r (none, largest)).0 in
        DecidesIn-if a r (r.heap a).in_room (hunt d blank rolls a chosen r) r
          (λ here. hunt-Decides blank rolls a chosen r refl here e)
          (λ gone.
            unmoved a r r MonsterState.patrol (target_at a r) (λ b. refl, λ b. refl) e refl
              (patrols e (λ h. absurd (false≢true (sym gone ∙ h)))))

    -- Whatever a monster sees and wherever it stands, a decision brings it to the state and the
    -- target that the relation `Decides` has for its state, the players in its view and its target:
    -- on patrol it traces a living player in view and in reach if there is one, and else stays on
    -- patrol; it loses a target that is gone, dead or out of reach; it attacks a target in range and
    -- resumes the trace of one that gets out of range; a hit ends with its time; and asleep it stays.
    pub update_ai-Decides :
        (blank : PositionInfo) (rolls : Rolls) (a : ℕ) (r : Room)
        → Decides a r
            (state_at a (update_ai d dx blank rolls a r))
            (target_at a (update_ai d dx blank rolls a r))
    unfolding update_ai update_trace update_attack
    update_ai-Decides blank rolls a r = by_state (state_at a r) refl
      where
        by_state :
            (s : MonsterState) → state_at a r ≡ s → DecidesIn a r (update_in d dx s blank rolls a r)
        by_state MonsterState.none e =
            unmoved a r r MonsterState.none (target_at a r) (λ b. refl, λ b. refl) e refl (rests e)
        by_state MonsterState.patrol e = update_patrol-Decides blank rolls a r e
        by_state MonsterState.trace e = trace_target-Decides blank a (target_at a r) r refl e
        by_state MonsterState.attack e = attack_target-Decides dx a (target_at a r) r refl e
        by_state MonsterState.hit e = update_hit-Decides a r e
