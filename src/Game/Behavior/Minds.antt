-- ===== src/Game/Behavior/Minds.antt =====
-- What a monster's orders leave alone: the states and targets of all monsters.
use simple_mmo.Prelude.{
  ℕ, Bool, true, false, Option, none, some, List, if◌then◌else◌, ◌≡◌, refl, ap, ◌∙◌, arith,
  Bool-cases, inl, inr, ==_eq, ◌==◌,
}
use simple_mmo.Game.Floats.{Floats}
use simple_mmo.Game.Objects.{Object, PositionInfo, MonsterState, is_idle, same_state}
use simple_mmo.Game.World.Sends.{heap-broadcast_aoi}
use simple_mmo.Game.World.{Packet, sc_move_object, Room, update_at}
use simple_mmo.Game.World.Broadcast.{broadcast_aoi}
use simple_mmo.Game.Monster.{drop_path, movable_stop_move, stop_move, change_state, enter_state}
use simple_mmo.Game.Skills.{SkillData, get_skill_data}
use simple_mmo.Game.Combat.{attack, start_attack, character_attack, is_hit}
use simple_mmo.Game.Patrol.{set_path, is_empty_path, take_path, start_path}

module _ ⦃fl : Floats⦄ where
  abbrev pub state_at : ℕ → Room → MonsterState
  state_at a r = (r.heap a).monster_state

  abbrev pub target_at : ℕ → Room → Option ℕ
  target_at a r = (r.heap a).target_player

  heap-start_attack :
      (a skill target : ℕ) (data' : Option SkillData) (r : Room)
      → (start_attack a skill target data' r).heap ≡ r.heap
  heap-start_attack a skill target none r = refl
  heap-start_attack a skill target (some s) r = heap-broadcast_aoi a _ false r

  heap-if :
      (c : Bool) (r s t : Room)
      → s.heap ≡ r.heap
      → t.heap ≡ r.heap
      → (if c then s else t).heap ≡ r.heap
  heap-if true r s t p q = p
  heap-if false r s t p q = q

  -- An attack changes no object before it hits.
  pub heap-character_attack :
      (a skill target : ℕ) (r : Room) → (character_attack a skill target r).heap ≡ r.heap
  unfolding character_attack
  heap-character_attack a skill target r =
      let (ok, s) = attack r.now (r.heap a) skill in
      let started = start_attack a s target (get_skill_data s) r in
      heap-if ok r (if is_hit r.now (r.heap a) then r else started) r
        (heap-if (is_hit r.now (r.heap a)) r r started refl
          (heap-start_attack a s target (get_skill_data s) r))
        refl

  -- Something that can be seen of an object, and is the same afterwards for every object.
  abbrev pub Same : {A : Type 0} → (Object → A) → Room → Room → Type 0
  Same obs r r' = (b : ℕ) → obs (r'.heap b) ≡ obs (r.heap b)

  module _ {A : Type 0} (obs : Object → A) where
    pub Same-trans : (r s t : Room) → Same obs r s → Same obs s t → Same obs r t
    Same-trans r s t p q b = q b ∙ p b

    pub Same-if :
        (c : Bool) (r s t : Room) → Same obs r s → Same obs r t → Same obs r (if c then s else t)
    Same-if true r s t p q = p
    Same-if false r s t p q = q

    pub Same-heap : (r r' : Room) → r'.heap ≡ r.heap → Same obs r r'
    Same-heap r r' e b = ap (λ h. obs (h b)) e

    pub Same-update_at :
        (a : ℕ) (h : Object → Object) (r : Room)
        → obs (h (r.heap a)) ≡ obs (r.heap a)
        → Same obs r (update_at a h r)
    Same-update_at a h r e b = elim (Bool-cases (a == b)) [
      | inl same ↦ rw (same, ← ==_eq a b same) e
      | inr other ↦ rw other refl
    ]

    pub Same-broadcast_aoi :
        (a : ℕ) (p : Packet) (self : Bool) (r : Room) → Same obs r (broadcast_aoi a p self r)
    Same-broadcast_aoi a p self r =
        Same-heap r (broadcast_aoi a p self r) (heap-broadcast_aoi a p self r)

    pub Same-stop_move :
        (a : ℕ) (r : Room)
        → obs (drop_path (r.heap a)) ≡ obs (r.heap a)
        → Same obs r (stop_move a r)
    unfolding stop_move
    Same-stop_move a r e =
        let halted = update_at a drop_path r in
        let o = halted.heap a in
        let told = broadcast_aoi a (sc_move_object o.info o.last_move_time) false halted in
        let dropped = Same-update_at a drop_path r e in
        Same-if (is_idle (r.heap a).info.position.state) r r (if o.in_room then told else halted)
          (λ b. refl)
          (Same-if o.in_room r told halted
            (Same-trans r halted told dropped
              (Same-broadcast_aoi a (sc_move_object o.info o.last_move_time) false halted))
            dropped)

  module _ {A : Type 0} (obs : Object → A) (drops : (o : Object) → obs (drop_path o) ≡ obs o)
      (takes : (path : List PositionInfo) (o : Object) → obs (take_path path o) ≡ obs o)
      (starts : (o : Object) → obs (start_path o) ≡ obs o) where
    -- `SetPath`, where neither the path nor the way of moving shows.
    pub Same-set_path :
        (a : ℕ) (path : List PositionInfo) (r : Room) → Same obs r (set_path a path r)
    unfolding set_path
    Same-set_path a path r =
        let taken = update_at a (take_path path) r in
        let took = Same-update_at obs a (take_path path) r (takes path (r.heap a)) in
        Same-if obs (is_empty_path path) r (stop_move a taken) (update_at a start_path taken)
          (Same-trans obs r taken (stop_move a taken) took
            (Same-stop_move obs a taken (drops (taken.heap a))))
          (Same-trans obs r taken (update_at a start_path taken) took
            (Same-update_at obs a start_path taken (starts (taken.heap a))))

  drop_path_state : (o : Object) → (drop_path o).monster_state ≡ o.monster_state
  unfolding movable_stop_move
  drop_path_state o = ground arith

  drop_path_target : (o : Object) → (drop_path o).target_player ≡ o.target_player
  unfolding movable_stop_move
  drop_path_target o = ground arith

  -- The states of the monsters, and their targets, are the same afterwards.
  abbrev pub SameMinds : Room → Room → Type 0
  SameMinds r r' = Same (λ o. o.monster_state) r r' × Same (λ o. o.target_player) r r'

  pub SameMinds-stop_move : (a : ℕ) (r : Room) → SameMinds r (stop_move a r)
  SameMinds-stop_move a r = (
    Same-stop_move (λ o. o.monster_state) a r (drop_path_state (r.heap a)),
    Same-stop_move (λ o. o.target_player) a r (drop_path_target (r.heap a)),
  )

  -- A change of state sets it and leaves every target.
  pub change_state-target :
      (a : ℕ) (s : MonsterState) (r : Room) → Same (λ o. o.target_player) r (change_state a s r)
  unfolding change_state
  change_state-target a s r =
      Same-if (λ o. o.target_player) (same_state (r.heap a).monster_state s) r r
        (update_at a (enter_state s r.now) (stop_move a r)) (λ b. refl)
        (Same-trans (λ o. o.target_player) r (stop_move a r)
          (update_at a (enter_state s r.now) (stop_move a r)) (SameMinds-stop_move a r).1
          (Same-update_at (λ o. o.target_player) a (enter_state s r.now) (stop_move a r)
            (entered s ((stop_move a r).heap a))))
    where
      entered :
          (s : MonsterState) (o : Object) → (enter_state s r.now o).target_player ≡ o.target_player
      entered s o = ground arith

  pub SameMinds-set_path :
      (a : ℕ) (path : List PositionInfo) (r : Room) → SameMinds r (set_path a path r)
  SameMinds-set_path a path r = (
    Same-set_path (λ o. o.monster_state) drop_path_state (λ p o. refl) (λ o. refl) a path r,
    Same-set_path (λ o. o.target_player) drop_path_target (λ p o. refl) (λ o. refl) a path r,
  )

  pub SameMinds-character_attack :
      (a skill target : ℕ) (r : Room) → SameMinds r (character_attack a skill target r)
  SameMinds-character_attack a skill target r = (
    Same-heap (λ o. o.monster_state) r (character_attack a skill target r)
        (heap-character_attack a skill target r),
    Same-heap (λ o. o.target_player) r (character_attack a skill target r)
        (heap-character_attack a skill target r),
  )
