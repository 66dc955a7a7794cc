-- ===== src/Game/Damage/Outcomes.antt =====
-- What damage does to the stats of the objects, and where it reads through a null pointer.
use simple_mmo.Prelude.{
  ℕ, true, false, Option, some, ◌≡◌, refl, ◌∙◌, inl, inr, arith, ◌==◌, if◌then◌else◌, Bool-cases,
}
use simple_mmo.Prelude.Int.{ℤ}
use simple_mmo.Game.Floats.{Floats}
use simple_mmo.Game.Objects.{MonsterState, is_player, is_monster}
use simple_mmo.Game.Stat.{is_dead, stat_on_damaged}
use simple_mmo.Game.World.{sc_damage, sc_dead, Room, update_at}
use simple_mmo.Game.World.Broadcast.{broadcast_aoi}
use simple_mmo.Game.Monster.{stop_move, change_state}
use simple_mmo.Game.View.Changes.{
  Keeps, Keeps-refl, Keeps-trans, Keeps-if, Keeps-broadcast_aoi, Keeps-stop_move,
  Keeps-change_state, IsHarmless, Keeps-update_at,
}
use simple_mmo.Game.Damage.{
  id_at, character_on_dead, monster_on_dead, on_dead, wound, character_on_damaged, set_target,
  monster_on_damaged, on_damaged,
}

module _ ⦃fl : Floats⦄ where
  Keeps-character_on_dead : (t : ℕ) (r : Room) → Keeps r (character_on_dead t r)
  unfolding character_on_dead
  Keeps-character_on_dead t r =
      Keeps-if (r.heap t).in_room r _ r (Keeps-broadcast_aoi t (sc_dead (id_at t r)) true r)
        (Keeps-refl r)

  Keeps-on_dead : (t : ℕ) (r : Room) → Keeps r (on_dead t r)
  unfolding on_dead monster_on_dead
  Keeps-on_dead t r =
      let told = character_on_dead t r in
      Keeps-if (is_monster (r.heap t).info.object_type) r _ told
        (Keeps-trans r told _ (Keeps-character_on_dead t r) (
          Keeps-trans told (stop_move t told) _ (Keeps-stop_move t told)
            (Keeps-change_state t MonsterState.none (stop_move t told))))
        (Keeps-character_on_dead t r)

  -- The states of `character_on_damaged` on a living target: after the wound, after its broadcast
  -- and after the death.
  abbrev wounded : ℕ → ℤ → Room → Room
  wounded t damage r = update_at t (wound (stat_on_damaged damage (r.heap t).info.stat).1 r.now) r

  abbrev told : ℕ → ℤ → ℕ → Room → Room
  told t damage a r =
      let w = wounded t damage r in
      if (r.heap t).in_room
      then broadcast_aoi t
          (sc_damage (id_at a w) (id_at t w) (stat_on_damaged damage (r.heap t).info.stat).0
            (w.heap t).info.stat.hp)
          true w
      else w

  abbrev hurt : ℕ → ℤ → ℕ → Room → Room
  hurt t damage a r =
      let s = told t damage a r in if is_dead (s.heap t).info.stat.hp then on_dead t s else s

  character_on_damaged-alive :
      (t : ℕ) (damage : ℤ) (a : ℕ) (r : Room)
      → is_dead (r.heap t).info.stat.hp ≡ false
      → character_on_damaged t damage (some a) r ≡ some (hurt t damage a r)
  unfolding character_on_damaged
  character_on_damaged-alive t damage a r alive = elim (Bool-cases (r.heap t).in_room) [
    | inl h ↦ rw (alive, h) refl
    | inr h ↦ rw (alive, h) refl
  ]

  character_on_damaged-dead :
      (t : ℕ) (damage : ℤ) (attacker : Option ℕ) (r : Room)
      → is_dead (r.heap t).info.stat.hp ≡ true
      → character_on_damaged t damage attacker r ≡ some r
  unfolding character_on_damaged
  character_on_damaged-dead t damage attacker r dead = rw dead refl

  Keeps-hurt :
      (t : ℕ) (damage : ℤ) (a : ℕ) (r : Room) → Keeps (wounded t damage r) (hurt t damage a r)
  Keeps-hurt t damage a r =
      let w = wounded t damage r in
      let s = told t damage a r in
      let k = Keeps-if (r.heap t).in_room w _ w (Keeps-broadcast_aoi t _ true w) (Keeps-refl w) in
      Keeps-if (is_dead (s.heap t).info.stat.hp) w (on_dead t s) s
        (Keeps-trans w s (on_dead t s) k (Keeps-on_dead t s)) k

  -- The target's stats have changed as the component says, nobody else's have, and nor has a kind.
  abbrev pub StatsAfter : ℕ → ℤ → Room → Room → Type 0
  StatsAfter t damage r r' =
      (b : ℕ)
      → ((r'.heap b).info.stat ≡ (
          if t == b then (stat_on_damaged damage (r.heap t).info.stat).1 else (r.heap b).info.stat))
        × ((r'.heap b).info.object_type ≡ (r.heap b).info.object_type)

  StatsAfter-dead :
      (t : ℕ) (damage : ℤ) (r : Room)
      → is_dead (r.heap t).info.stat.hp ≡ true
      → StatsAfter t damage r r
  unfolding stat_on_damaged
  StatsAfter-dead t damage r dead b = (ground (arith, dead), refl)

  StatsAfter-wounded : (t : ℕ) (damage : ℤ) (r : Room) → StatsAfter t damage r (wounded t damage r)
  StatsAfter-wounded t damage r b = elim (Bool-cases (t == b)) [
    | inl h ↦ rw h (refl, refl)
    | inr h ↦ rw h (refl, refl)
  ]

  StatsAfter-Keeps :
      (t : ℕ) (damage : ℤ) (r s s' : Room)
      → StatsAfter t damage r s
      → Keeps s s'
      → StatsAfter t damage r s'
  StatsAfter-Keeps t damage r s s' w k b = (k.stat b ∙ (w b).0, k.kind b ∙ (w b).1)

  abbrev pub Hurts : ℕ → ℤ → Room → Option Room → Type 0
  Hurts t damage r o = (r' : Room) × (o ≡ some r') × StatsAfter t damage r r'

  pub character_on_damaged-Hurts :
      (t : ℕ) (damage : ℤ) (a : ℕ) (r : Room)
      → Hurts t damage r (character_on_damaged t damage (some a) r)
  character_on_damaged-Hurts t damage a r = elim (Bool-cases (is_dead (r.heap t).info.stat.hp)) [
    | inl dead ↦
        (r, character_on_damaged-dead t damage (some a) r dead, StatsAfter-dead t damage r dead)
    | inr alive ↦ (
      hurt t damage a r,
      character_on_damaged-alive t damage a r alive,
      StatsAfter-Keeps t damage r (wounded t damage r) (hurt t damage a r)
          (StatsAfter-wounded t damage r) (Keeps-hurt t damage a r),
    )
  ]

  pub set_target-IsHarmless : (target : Option ℕ) → IsHarmless (set_target target)
  set_target-IsHarmless target = record {
    id = λ o. refl;
    kind = λ o. refl;
    view = λ o. refl;
    stat = λ o. refl;
  }

  -- What a monster does once it has been hit.
  abbrev react : ℕ → ℕ → Room → Room
  react t a s =
      let h = change_state t MonsterState.hit s in
      if is_player (h.heap a).info.object_type
      then change_state t MonsterState.trace (update_at t (set_target (some a)) h)
      else h

  Keeps-react : (t a : ℕ) (s : Room) → Keeps s (react t a s)
  Keeps-react t a s =
      let h = change_state t MonsterState.hit s in
      let u = update_at t (set_target (some a)) h in
      let k = Keeps-change_state t MonsterState.hit s in
      Keeps-if (is_player (h.heap a).info.object_type) s _ h
        (Keeps-trans s h _ k (
          Keeps-trans h u _
            (Keeps-update_at t (set_target (some a)) h (set_target-IsHarmless (some a)))
            (Keeps-change_state t MonsterState.trace u)))
        k

  monster_on_damaged-Hurts :
      (t : ℕ) (damage : ℤ) (a : ℕ) (r : Room)
      → Hurts t damage r (monster_on_damaged t damage (some a) r)
  unfolding monster_on_damaged
  monster_on_damaged-Hurts t damage a r =
      let (s, e, w) = character_on_damaged-Hurts t damage a r in
      (react t a s, rw e refl, StatsAfter-Keeps t damage r s (react t a s) w (Keeps-react t a s))

  -- Damage by an attacker that exists never reads through a null pointer. Whatever the kinds of the
  -- two, and whether the target still lives and is in a room, it changes the target's stats as
  -- `StatComponent::OnDamaged` does, no other object's stats, and no object's kind.
  pub on_damaged-Hurts :
      (t : ℕ) (damage : ℤ) (a : ℕ) (r : Room) → Hurts t damage r (on_damaged t damage (some a) r)
  unfolding on_damaged
  on_damaged-Hurts t damage a r = elim (Bool-cases (is_monster (r.heap t).info.object_type)) [
    | inl m ↦ rw m (monster_on_damaged-Hurts t damage a r)
    | inr m ↦ rw m (character_on_damaged-Hurts t damage a r)
  ]
