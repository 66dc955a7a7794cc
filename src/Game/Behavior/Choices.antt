-- ===== src/Game/Behavior/Choices.antt =====
-- What a monster may decide for, by its state (Monster.cpp).
use simple_mmo.Prelude.{
  ℕ, Bool, true, false, Option, none, some, if◌then◌else◌, ◌≡◌, refl, ◌∙◌, arith, ==_refl,
}
use simple_mmo.Game.Floats.{Floats}
use simple_mmo.Game.Objects.{Object, MonsterState}
use simple_mmo.Game.Removal.{contains}
use simple_mmo.Game.Stat.{is_dead}
use simple_mmo.Game.World.{Room, update_at}
use simple_mmo.Game.Monster.{change_state}
use simple_mmo.Game.Damage.{set_target}
use simple_mmo.Game.Damage.Failures.{change_state-sets}
use simple_mmo.Game.Combat.{is_hit}
use simple_mmo.Game.Patrol.{dist_sq, trace_range_sq}
use simple_mmo.Game.Behavior.Minds.{state_at, target_at, SameMinds, change_state-target}
use simple_mmo.Game.Behavior.Prey.{IsPrey, IsAmong}

module _ ⦃fl : Floats⦄ where
  open fl use {F, lt, le, mul, largest}

  -- The target is gone or dead.
  abbrev pub HasLost : Room → Option ℕ → Type 0
  HasLost r none = Unit
  HasLost r (some t) = is_dead (r.heap t).info.stat.hp ≡ true

  -- The target is there and alive.
  abbrev pub IsAfter : Room → Option ℕ → ℕ → Type 0
  IsAfter r target t = (target ≡ some t) × (is_dead (r.heap t).info.stat.hp ≡ false)

  -- `_attackRange * _attackRange`
  abbrev pub attack_range_sq : Object → F
  attack_range_sq o = mul o.attack_range o.attack_range

  -- The state and the target that the object at an address may come to.
  pub data Decides (a : ℕ) (r : Room) : MonsterState → Option ℕ → Type 0 where
    -- NONE: nothing happens
    rests : state_at a r ≡ MonsterState.none → Decides a r MonsterState.none (target_at a r)
    -- PATROL: a living player in view and in reach is traced, if there is one
    spots :
        (t : ℕ)
        → state_at a r ≡ MonsterState.patrol
        → (r.heap a).in_room ≡ true
        → IsAmong r (r.heap a) (r.heap a).view_list t
        → Decides a r MonsterState.trace (some t)
    patrols :
        state_at a r ≡ MonsterState.patrol
        → ((r.heap a).in_room ≡ true
            → (id t : ℕ) → contains id (r.heap a).view_list ≡ true
            → IsPrey r (r.heap a) id t
            → lt (dist_sq (r.heap a) (r.heap t)) largest ≡ true
            → ⊥)
        → Decides a r MonsterState.patrol (target_at a r)
    -- TRACE
    loses :
        state_at a r ≡ MonsterState.trace
        → HasLost r (target_at a r)
        → Decides a r MonsterState.patrol none
    outruns :
        (t : ℕ)
        → state_at a r ≡ MonsterState.trace
        → IsAfter r (target_at a r) t
        → lt trace_range_sq (dist_sq (r.heap a) (r.heap t)) ≡ true
        → Decides a r MonsterState.patrol none
    reaches :
        (t : ℕ)
        → state_at a r ≡ MonsterState.trace
        → IsAfter r (target_at a r) t
        → lt trace_range_sq (dist_sq (r.heap a) (r.heap t)) ≡ false
        → le (dist_sq (r.heap a) (r.heap t)) (attack_range_sq (r.heap a)) ≡ true
        → Decides a r MonsterState.attack (some t)
    chases :
        (t : ℕ)
        → state_at a r ≡ MonsterState.trace
        → IsAfter r (target_at a r) t
        → lt trace_range_sq (dist_sq (r.heap a) (r.heap t)) ≡ false
        → le (dist_sq (r.heap a) (r.heap t)) (attack_range_sq (r.heap a)) ≡ false
        → Decides a r MonsterState.trace (some t)
    -- ATTACK
    forgets :
        state_at a r ≡ MonsterState.attack
        → HasLost r (target_at a r)
        → Decides a r MonsterState.patrol (target_at a r)
    resumes :
        (t : ℕ)
        → state_at a r ≡ MonsterState.attack
        → IsAfter r (target_at a r) t
        → lt (attack_range_sq (r.heap a)) (dist_sq (r.heap a) (r.heap t)) ≡ true
        → Decides a r MonsterState.trace (some t)
    fights :
        (t : ℕ)
        → state_at a r ≡ MonsterState.attack
        → IsAfter r (target_at a r) t
        → lt (attack_range_sq (r.heap a)) (dist_sq (r.heap a) (r.heap t)) ≡ false
        → Decides a r MonsterState.attack (some t)
    -- HIT
    suffers :
        state_at a r ≡ MonsterState.hit
        → is_hit r.now (r.heap a) ≡ true
        → Decides a r MonsterState.hit (target_at a r)
    recovers :
        state_at a r ≡ MonsterState.hit
        → is_hit r.now (r.heap a) ≡ false
        → Decides a r MonsterState.none (target_at a r)

  abbrev pub DecidesIn : ℕ → Room → Room → Type 0
  DecidesIn a r r' = Decides a r (state_at a r') (target_at a r')

  pub decided :
      (a : ℕ) (r r' : Room) (s : MonsterState) (target : Option ℕ)
      → state_at a r' ≡ s
      → target_at a r' ≡ target
      → Decides a r s target
      → DecidesIn a r r'
  decided a r r' s target e q h = rw (e, q) h

  -- The same state and target as before.
  pub unmoved :
      (a : ℕ) (r r' : Room) (s : MonsterState) (target : Option ℕ)
      → SameMinds r r'
      → state_at a r ≡ s
      → target_at a r ≡ target
      → Decides a r s target
      → DecidesIn a r r'
  unmoved a r r' s target (p, q) e f h = decided a r r' s target (p a ∙ e) (q a ∙ f) h

  -- A change of state behind a change of the target.
  pub changed :
      (a : ℕ) (r r1 : Room) (s : MonsterState) (target : Option ℕ)
      → target_at a r1 ≡ target
      → Decides a r s target
      → DecidesIn a r (change_state a s r1)
  changed a r r1 s target q h =
      decided a r (change_state a s r1) s target (change_state-sets a s r1)
        (change_state-target a s r1 a ∙ q) h

  pub DecidesIn-if :
      (a : ℕ) (r : Room) (c : Bool) (s t : Room)
      → (c ≡ true → DecidesIn a r s)
      → (c ≡ false → DecidesIn a r t)
      → DecidesIn a r (if c then s else t)
  DecidesIn-if a r true s t p q = p refl
  DecidesIn-if a r false s t p q = q refl

  pub set_target-sets :
      (a : ℕ) (target : Option ℕ) (r : Room)
      → target_at a (update_at a (set_target target) r) ≡ target
  set_target-sets a target r = ground (arith, ==_refl a)
