-- ===== src/Game/Behavior/Prey.antt =====
-- The loop of `Monster::UpdatePatrol` (Monster.cpp): which player a patrolling monster chooses.
use simple_mmo.Prelude.{
  ℕ, Bool, true, false, Option, none, some, List, [], ◌∷◌, ◌&&◌, not, ◌≡◌, ◌⊎◌, refl, sym, ap, ◌∙◌,
  arith, find, Bool-cases, inl, inr, ==_eq, ==_refl,
}
use mathlib.Core.Bool.{false≢true}
use simple_mmo.Game.Floats.{Floats}
use simple_mmo.Game.Objects.{Object, is_player}
use simple_mmo.Game.Removal.{contains}
use simple_mmo.Game.Stat.{is_dead}
use simple_mmo.Game.World.{Room, get_game_object}
use simple_mmo.Game.Patrol.{Closest, dist_sq, trace_range_sq, closer_found, closest_player}

module _ ⦃fl : Floats⦄ where
  open fl use {F, lt, le, mul, largest}

  -- A living player of the room under this id, in reach of an object that traces.
  abbrev pub IsPrey : Room → Object → ℕ → ℕ → Type 0
  IsPrey r o id t =
      (find id r.objects ≡ some t)
      × (is_player (r.heap t).info.object_type ≡ true)
      × (le (dist_sq o (r.heap t)) trace_range_sq ≡ true)
      × (is_dead (r.heap t).info.stat.hp ≡ false)

  -- An id of the list under which there is such a player.
  abbrev pub IsAmong : Room → Object → List ℕ → ℕ → Type 0
  IsAmong r o ids t = (id : ℕ) × (contains id ids ≡ true) × IsPrey r o id t

  contains_front : (k x : ℕ) (xs : List ℕ) → contains k xs ≡ true → contains k (x ∷ xs) ≡ true
  unfolding contains
  contains_front k x xs h = ground arith

  contains_head : (x : ℕ) (xs : List ℕ) → contains x (x ∷ xs) ≡ true
  unfolding contains
  contains_head x xs = rw (==_refl x) refl

  closer-some :
      (o : Object) (id : ℕ) (a : Option ℕ) (r : Room) (best : Closest) (t : ℕ)
      → get_game_object id r ≡ a
      → (closer_found o a r best).0 ≡ some t
      → (best.0 ≡ some t) ⊎ IsPrey r o id t
  closer-some o id none r best t e q = inl q
  closer-some o id (some a) r best t e q =
      elim (Bool-cases (is_player (r.heap a).info.object_type)) [
        | inr p ↦ inl (rw p at q)
        | inl p ↦ elim (Bool-cases (lt (dist_sq o (r.heap a)) best.1)) [
          | inr near ↦ inl (rw (p, near) at q)
          | inl near ↦ elim (Bool-cases (le (dist_sq o (r.heap a)) trace_range_sq)) [
            | inr reach ↦ inl (rw (p, near, reach) at q)
            | inl reach ↦ elim (Bool-cases (is_dead (r.heap a).info.stat.hp)) [
              | inl dead ↦ inl (rw (p, near, reach, dead) at q)
              | inr alive ↦
                  let q' : some a ≡ some t = rw (p, near, reach, alive) at q in
                  let k : a ≡ t = cc in
                  inr (rw k at (let y : IsPrey r o id a = (e, p, reach, alive) in y))
            ]
          ]
        ]
      ]

  -- Who is chosen is one of the list, or was chosen before.
  pub closest_player_sound :
      (o : Object) (ids : List ℕ) (r : Room) (best : Closest) (t : ℕ)
      → (closest_player o ids r best).0 ≡ some t
      → (best.0 ≡ some t) ⊎ IsAmong r o ids t
  unfolding closest_player
  closest_player_sound o [] r best t q = inl q
  closest_player_sound o (id ∷ ids) r best t q =
      elim (closest_player_sound o ids r (closer_found o (get_game_object id r) r best) t q) [
        | inr (k, c, p) ↦ inr (k, contains_front k id ids c, p)
        | inl e ↦ elim (closer-some o id (get_game_object id r) r best t refl e) [
          | inl b ↦ inl b
          | inr p ↦ inr (id, contains_head id ids, p)
        ]
      ]

  -- The test of the loop.
  abbrev is_closer : Object → ℕ → Room → F → Bool
  is_closer o a r min =
      is_player (r.heap a).info.object_type
      && (lt (dist_sq o (r.heap a)) min
          && (le (dist_sq o (r.heap a)) trace_range_sq && not (is_dead (r.heap a).info.stat.hp)))

  Prey-is_closer :
      (o : Object) (id t : ℕ) (r : Room) (min : F)
      → IsPrey r o id t
      → lt (dist_sq o (r.heap t)) min ≡ true
      → is_closer o t r min ≡ true
  Prey-is_closer o id t r min (e, p, reach, alive) near = rw (p, near, reach, alive) refl

  closer-none :
      (o : Object) (id : ℕ) (a : Option ℕ) (r : Room) (best : Closest)
      → get_game_object id r ≡ a
      → (closer_found o a r best).0 ≡ none
      → (closer_found o a r best ≡ best)
        × ((t : ℕ) → IsPrey r o id t → lt (dist_sq o (r.heap t)) best.1 ≡ true → ⊥)
  closer-none o id none r best e q = (refl, λ t p near. let y = p.0 in cc)
  closer-none o id (some a) r best e q = elim (Bool-cases (is_closer o a r best.1)) [
    | inl c ↦ absurd (let y : some a ≡ none = rw c at q in cc)
    | inr c ↦ (
      rw c refl,
      λ t p near.
          let k : a ≡ t = let y = p.0 in cc in
          false≢true (sym c ∙ rw (sym k) at (Prey-is_closer o id t r best.1 p near)),
    )
  ]

  contains_tail :
      (k x : ℕ) (xs : List ℕ) → contains k (x ∷ xs) ≡ true → (x ≡ k) ⊎ (contains k xs ≡ true)
  unfolding contains
  contains_tail k x xs h = ground (arith, ==_eq x k)

  none_before :
      (o : Object) (ids : List ℕ) (r : Room) (best : Closest)
      → (closest_player o ids r best).0 ≡ none
      → best.0 ≡ none
  unfolding closest_player
  none_before o [] r best h = h
  none_before o (x ∷ xs) r best h =
      let found = get_game_object x r in
      let q = none_before o xs r (closer_found o found r best) h in
      ap (λ c. c.0) (sym (closer-none o x found r best refl q).0) ∙ q

  -- Where nobody is chosen, nobody of the list could be.
  pub closest_player_complete :
      (o : Object) (ids : List ℕ) (r : Room) (best : Closest)
      → (closest_player o ids r best).0 ≡ none
      → (id t : ℕ) → contains id ids ≡ true
      → IsPrey r o id t
      → lt (dist_sq o (r.heap t)) best.1 ≡ true
      → ⊥
  unfolding closest_player contains
  closest_player_complete o [] r best q id t c p near = cc
  closest_player_complete o (x ∷ xs) r best q id t c p near =
      let next = closer_found o (get_game_object x r) r best in
      let (e, nobody) =
        closer-none o x (get_game_object x r) r best refl (none_before o xs r next q) in
      elim (contains_tail id x xs c) [
        | inl same ↦ nobody t (rw (sym same) at p) near
        | inr later ↦ closest_player_complete o xs r next q id t later p (rw (sym e) at near)
      ]
