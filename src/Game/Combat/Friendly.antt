-- ===== src/Game/Combat/Friendly.antt =====
-- Whom a skill can wound.
use simple_mmo.Prelude.{
  ℕ, true, false, Option, none, some, List, [], ◌∷◌, ◌==◌, ◌&&◌, not, ◌≡◌, refl, ◌∙◌, inl, inr,
  Bool-cases, Option-cases, ==_eq,
}
use simple_mmo.Prelude.Int.{ℤ, pos, negsuc}
use simple_mmo.Game.Floats.{Floats}
use simple_mmo.Game.Objects.{ObjectType, StatInfo}
use simple_mmo.Game.Stat.{is_dead, stat_on_damaged}
use simple_mmo.Game.Skills.{SkillData, get_skill_data}
use simple_mmo.Game.Navmesh.{Detour, ray_cast}
use simple_mmo.Game.World.{Room, get_game_object}
use simple_mmo.Game.Damage.{on_damaged}
use simple_mmo.Game.Damage.Outcomes.{on_damaged-Hurts, StatsAfter}
use simple_mmo.Game.Combat.{
  is_enemy, Hits, in_shape, is_projectile, dist_sq_at, strike, consider, consider_found,
  consider_all, land, shoot, hit_with, process_skill_hit,
}

module _ ⦃fl : Floats⦄ where
  abbrev kind_of : Room → ℕ → ObjectType
  kind_of r a = (r.heap a).info.object_type

  abbrev stat_of : Room → ℕ → StatInfo
  stat_of r a = (r.heap a).info.stat

  -- From `r` to `r'` no kinds change, nor the stats of anyone who is dead or no enemy of `a`.
  pub record Spares (a : ℕ) (r r' : Room) : Type 0 where
    pub kind : (b : ℕ) → (r'.heap b).info.object_type ≡ (r.heap b).info.object_type
    pub friend :
        (b : ℕ)
        → is_enemy (kind_of r a) (kind_of r b) ≡ false
        → (r'.heap b).info.stat ≡ (r.heap b).info.stat
    pub dead :
        (b : ℕ)
        → is_dead (r.heap b).info.stat.hp ≡ true
        → (r'.heap b).info.stat ≡ (r.heap b).info.stat

  Spares-refl : (a : ℕ) (r : Room) → Spares a r r
  Spares-refl a r = record { kind = λ b. refl; friend = λ b h. refl; dead = λ b h. refl }

  Spares-trans : (a : ℕ) (r s t : Room) → Spares a r s → Spares a s t → Spares a r t
  Spares-trans a r s t p q = record {
    kind = λ b. q.kind b ∙ p.kind b;
    friend = λ b h. q.friend b (rw (p.kind a, p.kind b) h) ∙ p.friend b h;
    dead = λ b h. q.dead b (rw (p.dead b h) h) ∙ p.dead b h;
  }

  stat_on_damaged-dead :
      (damage : ℤ) (s : StatInfo) → is_dead s.hp ≡ true → (stat_on_damaged damage s).1 ≡ s
  unfolding stat_on_damaged
  stat_on_damaged-dead damage s h = rw h refl

  Spares-StatsAfter :
      (a t : ℕ) (damage : ℤ) (r r' : Room)
      → is_enemy (kind_of r a) (kind_of r t) ≡ true
      → StatsAfter t damage r r'
      → Spares a r r'
  Spares-StatsAfter a t damage r r' e w = record {
    kind = λ b. (w b).1;
    friend = λ b h. elim (Bool-cases (t == b)) [
      | inl q ↦ let tb = ==_eq t b q in absurd cc
      | inr q ↦ (w b).0 ∙ rw q refl
    ];
    dead = λ b h. elim (Bool-cases (t == b)) [
      | inl q ↦ (w b).0 ∙ rw (q, ==_eq t b q) (stat_on_damaged-dead damage (stat_of r b) h)
      | inr q ↦ (w b).0 ∙ rw q refl
    ];
  }

  -- The handler returns a state that spares the friends of `a`.
  abbrev pub ReturnsSparing : ℕ → Room → Option Room → Type 0
  ReturnsSparing a r o = (r' : Room) × (o ≡ some r') × Spares a r r'

  on_damaged-Spares :
      (a t : ℕ) (damage : ℤ) (r : Room)
      → is_enemy (kind_of r a) (kind_of r t) ≡ true
      → ReturnsSparing a r (on_damaged t damage (some a) r)
  on_damaged-Spares a t damage r e =
      let (r', q, w) = on_damaged-Hurts t damage a r in
      (r', q, Spares-StatsAfter a t damage r r' e w)

  module _ (d : Detour) where
    -- The loop's state is one that spares, and its closest target is an enemy.
    record IsFair (a : ℕ) (r : Room) (h : Hits d) : Type 0 where
      spares : Spares a r h.room
      enemy : (t : ℕ) → h.closest ≡ some t → is_enemy (kind_of h.room a) (kind_of h.room t) ≡ true

    abbrev FairReturn : ℕ → Room → Option (Hits d) → Type 0
    FairReturn a r o = (h : Hits d) × (o ≡ some h) × IsFair a r h

    strike-IsFair :
        (skill : SkillData) (a t : ℕ) (r : Room) (h : Hits d)
        → IsFair a r h
        → is_enemy (kind_of h.room a) (kind_of h.room t) ≡ true
        → FairReturn a r (strike d skill a t h)
    unfolding strike
    strike-IsFair skill a t r h f e = elim (Bool-cases (is_projectile d skill.hit_shape)) [
      | inl p ↦ elim (Bool-cases (fl.lt (dist_sq_at d a t h.room) h.min_dist_sq)) [
        | inl nearer ↦ rw (p, nearer) (_, refl, record { spares = f.spares; enemy = λ u c. cc })
        | inr farther ↦ rw (p, farther) (h, refl, f)
      ]
      | inr p ↦
          let (r', q, w) = on_damaged-Spares a t skill.base_damage h.room e in
          rw (p, q)
            (
              _,
              refl,
              record {
                spares = Spares-trans a r h.room r' f.spares w;
                enemy = λ u c. rw (w.kind a, w.kind u) (f.enemy u c);
              },
            )
    ]

    consider-IsFair :
        (skill : SkillData) (a t : ℕ) (r : Room) (h : Hits d)
        → IsFair a r h
        → FairReturn a r (consider d skill a t h)
    unfolding consider
    consider-IsFair skill a t r h f =
        elim (Bool-cases (is_enemy (kind_of h.room a) (kind_of h.room t))) [
          | inl e ↦
              elim (Bool-cases (
                not (is_dead (h.room.heap t).info.stat.hp)
                && (in_shape d skill a t h.room
                    && ray_cast d (h.room.heap a).info.position (h.room.heap t).info.position))) [
                      | inl struck ↦ rw (e, struck) (strike-IsFair skill a t r h f e)
                      | inr missed ↦ rw (e, missed) (h, refl, f)
                    ]
          | inr e ↦ rw e (h, refl, f)
        ]

    consider_found-IsFair :
        (skill : SkillData) (a : ℕ) (t : Option ℕ) (r : Room) (h : Hits d)
        → IsFair a r h
        → FairReturn a r (consider_found d skill a t h)
    consider_found-IsFair skill a none r h f = (h, refl, f)
    consider_found-IsFair skill a (some t) r h f = consider-IsFair skill a t r h f

    consider_all-IsFair :
        (skill : SkillData) (a : ℕ) (ids : List ℕ) (r : Room) (h : Hits d)
        → IsFair a r h
        → FairReturn a r (consider_all d skill a ids h)
    unfolding consider_all
    consider_all-IsFair skill a [] r h f = (h, refl, f)
    consider_all-IsFair skill a (id ∷ ids) r h f =
        let (next, e, g) = consider_found-IsFair skill a (get_game_object id h.room) r h f in
        rw e (consider_all-IsFair skill a ids r next g)

    land-Spares :
        (skill : SkillData) (a t : ℕ) (ms : ℤ) (r : Room)
        → is_enemy (kind_of r a) (kind_of r t) ≡ true
        → ReturnsSparing a r (land d skill a t ms r)
    land-Spares skill a t (pos ℕ.zero) r e = on_damaged-Spares a t skill.base_damage r e
    land-Spares skill a t (negsuc n) r e = on_damaged-Spares a t skill.base_damage r e
    land-Spares skill a t (pos (ℕ.suc ms)) r e =
        (_, refl, record { kind = λ b. refl; friend = λ b h. refl; dead = λ b h. refl })

    shoot-Spares :
        (skill : SkillData) (a : ℕ) (r : Room) (h : Hits d)
        → IsFair a r h
        → (t : Option ℕ) → h.closest ≡ t
        → ReturnsSparing a h.room (shoot d skill a t h.min_dist_sq h.room)
    shoot-Spares skill a r h f none c = (h.room, refl, Spares-refl a h.room)
    shoot-Spares skill a r h f (some t) c = elim (Bool-cases (is_projectile d skill.hit_shape)) [
      | inl p ↦ rw p (land-Spares skill a t _ h.room (f.enemy t c))
      | inr p ↦ rw p (h.room, refl, Spares-refl a h.room)
    ]

    hit_with-Spares :
        (skill : SkillData) (a : ℕ) (r : Room) → ReturnsSparing a r (hit_with d a skill r)
    unfolding hit_with
    hit_with-Spares skill a r =
        let start : Hits d = record { room = r; closest = none; min_dist_sq = fl.largest } in
        let fair : IsFair a r start = record {
          spares = Spares-refl a r;
          enemy = λ t c. absurd cc;
        } in
        let (h, e, f) = consider_all-IsFair skill a (r.heap a).view_list r start fair in
        let (r', q, w) = shoot-Spares skill a r h f h.closest refl in
        (r', rw (e, q) refl, Spares-trans a r h.room r' f.spares w)

    -- Whatever an attacker sees and whatever the navigation mesh answers, a skill's hit never reads
    -- through a null pointer, and it changes neither the kind of any object nor the stats of one
    -- that is dead or is no enemy of the attacker: players wound monsters only, and monsters
    -- players only.
    pub process_skill_hit-Spares :
        (a skill_id : ℕ) (r : Room) → ReturnsSparing a r (process_skill_hit d a skill_id r)
    unfolding process_skill_hit
    process_skill_hit-Spares a skill_id r = elim (Bool-cases (is_dead (r.heap a).info.stat.hp)) [
      | inl dead ↦ rw dead (r, refl, Spares-refl a r)
      | inr alive ↦ elim (Option-cases (get_skill_data skill_id)) [
        | inl missing ↦ rw (alive, missing) (r, refl, Spares-refl a r)
        | inr (skill, e) ↦ rw (alive, e) (hit_with-Spares skill a r)
      ]
    ]
