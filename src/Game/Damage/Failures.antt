-- ===== src/Game/Damage/Failures.antt =====
-- Damage by an attacker who has gone, and the state of a monster that a player has killed.
use simple_mmo.Prelude.{
  ℕ, true, false, none, some, ◌≡◌, ◌↔◌, ◌⊎◌, refl, ◌∙◌, inl, inr, arith, find, Bool-cases,
  Option-cases, ==_refl,
}
use simple_mmo.Prelude.Int.{ℤ}
use simple_mmo.Game.Floats.{Floats}
use simple_mmo.Game.Objects.{MonsterState, is_player, is_monster, same_state}
use simple_mmo.Game.Stat.{is_dead, stat_on_damaged}
use simple_mmo.Game.World.{Room, update_at}
use simple_mmo.Game.Monster.{change_state}
use simple_mmo.Game.View.Changes.{Keeps-update_at, Keeps-change_state}
use simple_mmo.Game.Damage.{
  character_on_damaged, set_target, monster_on_damaged, on_damaged, apply_delayed_damage,
}
use simple_mmo.Game.Damage.Outcomes.{
  on_damaged-Hurts, character_on_damaged-Hurts, set_target-IsHarmless,
}

module _ ⦃fl : Floats⦄ where
  on_damaged-gone :
      (t : ℕ) (damage : ℤ) (r : Room)
      → is_dead (r.heap t).info.stat.hp ≡ false
      → (on_damaged t damage none r ≡ none)
        ↔ (((r.heap t).in_room ≡ true) ⊎ (is_monster (r.heap t).info.object_type ≡ true))
  unfolding on_damaged monster_on_damaged character_on_damaged
  on_damaged-gone t damage r alive = elim (Bool-cases (is_monster (r.heap t).info.object_type)) [
    | inl m ↦ elim (Bool-cases (r.heap t).in_room) [
      | inl h ↦ rw (m, alive, h) (λ _. inl refl, λ _. refl)
      | inr h ↦ rw (m, alive, h) (λ _. inr refl, λ _. refl)
    ]
    | inr m ↦ elim (Bool-cases (r.heap t).in_room) [
      | inl h ↦ rw (m, alive, h) (λ _. inl refl, λ _. refl)
      | inr h ↦ rw (m, alive, h) (λ e. cc, λ e. ground arith)
    ]
  ]

  same_state_eq : (a b : MonsterState) → same_state a b ≡ true → a ≡ b
  same_state_eq a b h = ground arith

  pub change_state-sets :
      (t : ℕ) (s : MonsterState) (r : Room) → ((change_state t s r).heap t).monster_state ≡ s
  unfolding change_state
  change_state-sets t s r = elim (Bool-cases (same_state (r.heap t).monster_state s)) [
    | inl h ↦ rw h (same_state_eq (r.heap t).monster_state s h)
    | inr h ↦ rw (h, ==_refl t) (ground arith)
  ]

  -- Delayed damage to a living target of the room reads through a null pointer exactly when the
  -- attacker is no longer in the room's map, and the target is a monster or still has its room.
  pub apply_delayed_damage-fails_iff :
      (target_id attacker_id t : ℕ) (damage : ℤ) (r : Room)
      → find target_id r.objects ≡ some t
      → is_dead (r.heap t).info.stat.hp ≡ false
      → (apply_delayed_damage target_id attacker_id damage r ≡ none) ↔ (
          (find attacker_id r.objects ≡ none)
          × (((r.heap t).in_room ≡ true) ⊎ (is_monster (r.heap t).info.object_type ≡ true)))
  unfolding apply_delayed_damage
  apply_delayed_damage-fails_iff target_id attacker_id t damage r at_t alive =
      elim (Option-cases (find attacker_id r.objects)) [
        | inl gone ↦
            let f = on_damaged-gone t damage r alive in
            rw (at_t, alive, gone) (λ e. (refl, f.0 e), λ h. f.1 h.1)
        | inr (a, here) ↦
            let (r', e, w) = on_damaged-Hurts t damage a r in
            rw (at_t, alive, here, e) (λ h. cc, λ h. cc)
      ]

  -- Whatever the damage, also if it kills the monster, a hit by a player leaves the monster in the
  -- state TRACE, with the hit points that the damage leaves it.
  pub monster_on_damaged-traces :
      (t a : ℕ) (damage : ℤ) (r : Room)
      → is_player (r.heap a).info.object_type ≡ true
      → (r' : Room) × (monster_on_damaged t damage (some a) r ≡ some r')
        × ((r'.heap t).monster_state ≡ MonsterState.trace)
        × ((r'.heap t).info.stat ≡ (stat_on_damaged damage (r.heap t).info.stat).1)
  unfolding monster_on_damaged
  monster_on_damaged-traces t a damage r p =
      let (s, e, w) = character_on_damaged-Hurts t damage a r in
      let h = change_state t MonsterState.hit s in
      let u = update_at t (set_target (some a)) h in
      let k = Keeps-change_state t MonsterState.hit s in
      let v = Keeps-change_state t MonsterState.trace u in
      let targeted = Keeps-update_at t (set_target (some a)) h (set_target-IsHarmless (some a)) in
      let stat_after : ((change_state t MonsterState.trace u).heap t).info.stat
          ≡ (stat_on_damaged damage (r.heap t).info.stat).1 =
        v.stat t ∙ targeted.stat t ∙ k.stat t ∙ (w t).0 ∙ rw (==_refl t) refl in
      (
        change_state t MonsterState.trace u,
        rw (e, k.kind a, (w a).1, p) refl,
        change_state-sets t MonsterState.trace u,
        stat_after,
      )
