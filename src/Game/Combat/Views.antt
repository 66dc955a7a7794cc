-- ===== src/Game/Combat/Views.antt =====
-- Attacks and hits (CombatProcessor.cpp, Room.cpp) and what decides who sees whom.
use simple_mmo.Prelude.{
  ℕ, zero, suc, Bool, true, false, Option, none, some, List, [], ◌∷◌, if◌then◌else◌,
}
use simple_mmo.Prelude.Int.{ℤ, pos, negsuc}
use simple_mmo.Prelude.Options.{◌>>=◌}
use simple_mmo.Game.Floats.{Floats}
use simple_mmo.Game.Stat.{is_dead}
use simple_mmo.Game.Skills.{SkillData, get_skill_data}
use simple_mmo.Game.Navmesh.{Detour}
use simple_mmo.Game.World.{
  sc_attack, execute_skill_hit, apply_delayed_damage, Room, reserve_job, get_game_object,
}
use simple_mmo.Game.World.Broadcast.{broadcast_aoi}
use simple_mmo.Game.Damage.{id_at, on_damaged}
use simple_mmo.Game.Damage.Views.{Stays-broadcast_aoi, StaysIn-on_damaged}
use simple_mmo.Game.View.Stays.{
  Stays, Stays-refl, Stays-trans, Stays-if, Stays-reserve_job, StaysIn, StaysIn-if, StaysIn-trans,
}
use simple_mmo.Game.Combat.{
  Hits, is_projectile, dist_sq_at, with_room, strike, consider, consider_found, consider_all, land,
  flight_time_ms, shoot, hit_with, with_skill, process_skill_hit, hit_found, room_execute_skill_hit,
  is_hit, attack, start_attack, character_attack,
}

module _ ⦃fl : Floats⦄ (d : Detour) where
  open fl use {F, lt, sqrt, largest}

  -- The room of the loop's state.
  abbrev HitsStay : Room → Option (Hits d) → Type 0
  HitsStay r none = Unit
  HitsStay r (some h) = Stays r h.room

  HitsStay-if :
      (c : Bool) (r : Room) (s t : Option (Hits d))
      → HitsStay r s
      → HitsStay r t
      → HitsStay r (if c then s else t)
  HitsStay-if true r s t p q = p
  HitsStay-if false r s t p q = q

  HitsStay-with_room :
      (h : Hits d) (r : Room) (o : Option Room) → StaysIn r o → HitsStay r (o >>= with_room d h)
  HitsStay-with_room h r none p = tt
  HitsStay-with_room h r (some s) p = p

  HitsStay-strike :
      (skill : SkillData) (a t : ℕ) (h : Hits d) → HitsStay h.room (strike d skill a t h)
  unfolding strike
  HitsStay-strike skill a t h =
      let hurt = on_damaged t skill.base_damage (some a) h.room in
      HitsStay-if (is_projectile d skill.hit_shape) h.room _ (hurt >>= with_room d h)
        (closest (lt (dist_sq_at d a t h.room) h.min_dist_sq))
        (HitsStay-with_room h h.room hurt (StaysIn-on_damaged t skill.base_damage (some a) h.room))
    where
      closest :
          (c : Bool)
          → Stays h.room
              (if c
                then record h { min_dist_sq = dist_sq_at d a t h.room; closest = some t }
                else h).room
      closest true = Stays-refl h.room
      closest false = Stays-refl h.room

  HitsStay-consider :
      (skill : SkillData) (a t : ℕ) (h : Hits d) → HitsStay h.room (consider d skill a t h)
  unfolding consider
  HitsStay-consider skill a t h =
      HitsStay-if _ h.room (strike d skill a t h) (some h) (HitsStay-strike skill a t h)
        (Stays-refl h.room)

  HitsStay-consider_found :
      (skill : SkillData) (a : ℕ) (found : Option ℕ) (h : Hits d)
      → HitsStay h.room (consider_found d skill a found h)
  HitsStay-consider_found skill a none h = Stays-refl h.room
  HitsStay-consider_found skill a (some t) h = HitsStay-consider skill a t h

  HitsStay-bind :
      (r : Room) (o : Option (Hits d)) (k : Hits d → Option (Hits d))
      → HitsStay r o
      → ((h : Hits d) → HitsStay h.room (k h))
      → HitsStay r (o >>= k)
  HitsStay-bind r none k p q = tt
  HitsStay-bind r (some h) k p q = carry (k h) (q h)
    where
      carry : (o : Option (Hits d)) → HitsStay h.room o → HitsStay r o
      carry none w = tt
      carry (some g) w = Stays-trans r h.room g.room p w

  HitsStay-consider_all :
      (skill : SkillData) (a : ℕ) (ids : List ℕ) (h : Hits d)
      → HitsStay h.room (consider_all d skill a ids h)
  unfolding consider_all
  HitsStay-consider_all skill a [] h = Stays-refl h.room
  HitsStay-consider_all skill a (id ∷ ids) h =
      HitsStay-bind h.room (consider_found d skill a (get_game_object id h.room) h)
        (consider_all d skill a ids) (HitsStay-consider_found skill a (get_game_object id h.room) h)
        (HitsStay-consider_all skill a ids)

  StaysIn-land :
      (skill : SkillData) (a t : ℕ) (ms : ℤ) (r : Room) → StaysIn r (land d skill a t ms r)
  StaysIn-land skill a t (pos zero) r = StaysIn-on_damaged t skill.base_damage (some a) r
  StaysIn-land skill a t (pos (suc ms)) r =
      Stays-reserve_job (suc ms) (apply_delayed_damage (id_at t r) (id_at a r) skill.base_damage) r
  StaysIn-land skill a t (negsuc ms) r = StaysIn-on_damaged t skill.base_damage (some a) r

  StaysIn-shoot :
      (skill : SkillData) (a : ℕ) (closest : Option ℕ) (dist : F) (r : Room)
      → StaysIn r (shoot d skill a closest dist r)
  StaysIn-shoot skill a none dist r = Stays-refl r
  StaysIn-shoot skill a (some t) dist r =
      StaysIn-if (is_projectile d skill.hit_shape) r
        (land d skill a t (flight_time_ms d skill (sqrt dist)) r) (some r)
        (StaysIn-land skill a t (flight_time_ms d skill (sqrt dist)) r) (Stays-refl r)

  StaysIn-hit_with : (a : ℕ) (skill : SkillData) (r : Room) → StaysIn r (hit_with d a skill r)
  unfolding hit_with
  StaysIn-hit_with a skill r =
      let start : Hits d = record { room = r; closest = none; min_dist_sq = largest } in
      landed (consider_all d skill a (r.heap a).view_list start)
        (HitsStay-consider_all skill a (r.heap a).view_list start)
    where
      landed :
          (o : Option (Hits d))
          → HitsStay r o
          → StaysIn r (o >>= λ h. shoot d skill a h.closest h.min_dist_sq h.room)
      landed none p = tt
      landed (some h) p =
          StaysIn-trans r h.room (shoot d skill a h.closest h.min_dist_sq h.room) p
            (StaysIn-shoot skill a h.closest h.min_dist_sq h.room)

  StaysIn-with_skill :
      (a : ℕ) (skill : Option SkillData) (r : Room) → StaysIn r (with_skill d a skill r)
  StaysIn-with_skill a none r = Stays-refl r
  StaysIn-with_skill a (some skill) r = StaysIn-hit_with a skill r

  StaysIn-hit_found :
      (found : Option ℕ) (skill_id : ℕ) (r : Room) → StaysIn r (hit_found d found skill_id r)
  unfolding process_skill_hit
  StaysIn-hit_found none skill_id r = Stays-refl r
  StaysIn-hit_found (some a) skill_id r =
      StaysIn-if (is_dead (r.heap a).info.stat.hp) r (some r)
        (with_skill d a (get_skill_data skill_id) r) (Stays-refl r)
        (StaysIn-with_skill a (get_skill_data skill_id) r)

  pub StaysIn-room_execute_skill_hit :
      (attacker_id skill_id target_id : ℕ) (r : Room)
      → StaysIn r (room_execute_skill_hit d attacker_id skill_id target_id r)
  unfolding room_execute_skill_hit
  StaysIn-room_execute_skill_hit attacker_id skill_id target_id r =
      StaysIn-hit_found (get_game_object attacker_id r) skill_id r

module _ ⦃fl : Floats⦄ where
  Stays-start_attack :
      (a skill target : ℕ) (found : Option SkillData) (r : Room)
      → Stays r (start_attack a skill target found r)
  Stays-start_attack a skill target none r = Stays-refl r
  Stays-start_attack a skill target (some s) r =
      let told = broadcast_aoi a (sc_attack (id_at a r) skill target) false r in
      let job = execute_skill_hit (id_at a told) skill target in
      Stays-trans r told (reserve_job s.hit_delay_ms job told)
        (Stays-broadcast_aoi a (sc_attack (id_at a r) skill target) false r)
        (Stays-reserve_job s.hit_delay_ms job told)

  pub Stays-character_attack :
      (a skill target : ℕ) (r : Room) → Stays r (character_attack a skill target r)
  unfolding character_attack
  Stays-character_attack a skill target r =
      let (ok, s) = attack r.now (r.heap a) skill in
      let started = start_attack a s target (get_skill_data s) r in
      Stays-if ok r (if is_hit r.now (r.heap a) then r else started) r
        (Stays-if (is_hit r.now (r.heap a)) r r started (Stays-refl r)
          (Stays-start_attack a s target (get_skill_data s) r))
        (Stays-refl r)
