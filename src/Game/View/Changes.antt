-- ===== src/Game/View/Changes.antt =====
-- When a handler leaves alone stats and what decides who sees whom, ids, kinds and the map of
-- objects, and what it does to the view lists.
use simple_mmo.Prelude.{
  ℕ, Bool, true, false, Option, none, some, List, [], ◌∷◌, ◌&&◌, if◌then◌else◌, ◌≡◌, refl, ap, ◌∙◌,
  arith,
}
use simple_mmo.Game.Floats.{Floats}
use simple_mmo.Game.Objects.{Object, MonsterState, is_player, is_idle, same_state}
use simple_mmo.Game.Stat.{is_dead}
use simple_mmo.Game.World.{Packet, sc_move_object, Room, update_at, send_to, id_to_player}
use simple_mmo.Game.World.Broadcast.{broadcast_aoi, broadcast_to_view, send_to_player}
use simple_mmo.Game.Monster.{
  stop_move, change_state, wake_up_by_player, sleep_if_no_player, movable_stop_move, drop_path,
  set_awake, enter_state, is_empty,
}

module _ ⦃fl : Floats⦄ where
  -- The view list at each address changes by `f`, and the rest of what decides views is kept.
  pub record Changes (f : ℕ → List ℕ → List ℕ) (r r' : Room) : Type 0 where
    pub objects : r'.objects ≡ r.objects
    pub map : r'.game_map ≡ r.game_map
    pub id : (b : ℕ) → (r'.heap b).info.id ≡ (r.heap b).info.id
    pub kind : (b : ℕ) → (r'.heap b).info.object_type ≡ (r.heap b).info.object_type
    pub view : (b : ℕ) → (r'.heap b).view_list ≡ f b (r.heap b).view_list
    pub stat : (b : ℕ) → (r'.heap b).info.stat ≡ (r.heap b).info.stat

  abbrev pub Keeps : Room → Room → Type 0
  Keeps = Changes (λ b l. l)

  pub Keeps-refl : (r : Room) → Keeps r r
  Keeps-refl r = record {
    objects = refl;
    map = refl;
    id = λ b. refl;
    kind = λ b. refl;
    view = λ b. refl;
    stat = λ b. refl;
  }

  pub Changes-trans :
      (f g : ℕ → List ℕ → List ℕ) (r s t : Room)
      → Changes f r s
      → Changes g s t
      → Changes (λ b l. g b (f b l)) r t
  Changes-trans f g r s t p q = record {
    objects = q.objects ∙ p.objects;
    map = q.map ∙ p.map;
    id = λ b. q.id b ∙ p.id b;
    kind = λ b. q.kind b ∙ p.kind b;
    view = λ b. q.view b ∙ ap (g b) (p.view b);
    stat = λ b. q.stat b ∙ p.stat b;
  }

  pub Keeps-trans : (r s t : Room) → Keeps r s → Keeps s t → Keeps r t
  Keeps-trans r s t p q = Changes-trans (λ b l. l) (λ b l. l) r s t p q

  pub Keeps-send_to : (session : Option ℕ) (p : Packet) (r : Room) → Keeps r (send_to session p r)
  Keeps-send_to none p r = Keeps-refl r
  Keeps-send_to (some s) p r = record {
    objects = refl;
    map = refl;
    id = λ b. refl;
    kind = λ b. refl;
    view = λ b. refl;
    stat = λ b. refl;
  }

  Keeps-send_to_player : (a : Option ℕ) (p : Packet) (r : Room) → Keeps r (send_to_player a p r)
  Keeps-send_to_player none p r = Keeps-refl r
  Keeps-send_to_player (some a) p r = Keeps-send_to (r.heap a).session p r

  Keeps-broadcast_to_view :
      (ids : List ℕ) (p : Packet) (r : Room) → Keeps r (broadcast_to_view ids p r)
  unfolding broadcast_to_view
  Keeps-broadcast_to_view [] p r = Keeps-refl r
  Keeps-broadcast_to_view (id ∷ ids) p r =
      let r' = send_to_player (id_to_player id r) p r in
      Keeps-trans r r' (broadcast_to_view ids p r') (Keeps-send_to_player (id_to_player id r) p r)
        (Keeps-broadcast_to_view ids p r')

  pub Keeps-if : (b : Bool) (r s t : Room) → Keeps r s → Keeps r t → Keeps r (if b then s else t)
  Keeps-if true r s t p q = p
  Keeps-if false r s t p q = q

  pub Keeps-broadcast_aoi :
      (a : ℕ) (p : Packet) (self : Bool) (r : Room) → Keeps r (broadcast_aoi a p self r)
  unfolding broadcast_aoi
  Keeps-broadcast_aoi a p self r =
      let c = self && is_player (r.heap a).info.object_type in
      let r' = if c then send_to (r.heap a).session p r else r in
      Keeps-trans r r' (broadcast_to_view (r.heap a).view_list p r')
        (Keeps-if c r (send_to (r.heap a).session p r) r (Keeps-send_to (r.heap a).session p r)
          (Keeps-refl r))
        (Keeps-broadcast_to_view (r.heap a).view_list p r')

  -- A change of an object that leaves its id, kind and view list alone.
  pub record IsHarmless (h : Object → Object) : Type 0 where
    pub id : (o : Object) → (h o).info.id ≡ o.info.id
    pub kind : (o : Object) → (h o).info.object_type ≡ o.info.object_type
    pub view : (o : Object) → (h o).view_list ≡ o.view_list
    pub stat : (o : Object) → (h o).info.stat ≡ o.info.stat

  pub Keeps-update_at :
      (a : ℕ) (h : Object → Object) (r : Room) → IsHarmless h → Keeps r (update_at a h r)
  Keeps-update_at a h r w = record {
    objects = refl;
    map = refl;
    id = λ b. ground (arith, w.id (r.heap b));
    kind = λ b. ground (arith, w.kind (r.heap b));
    view = λ b. ground (arith, w.view (r.heap b));
    stat = λ b. ground (arith, w.stat (r.heap b));
  }

  drop_path-IsHarmless : IsHarmless drop_path
  unfolding movable_stop_move
  drop_path-IsHarmless = record {
    id = λ o. ground arith;
    kind = λ o. ground arith;
    view = λ o. ground arith;
    stat = λ o. ground arith;
  }

  set_awake-IsHarmless : (b : Bool) → IsHarmless (set_awake b)
  set_awake-IsHarmless b = record {
    id = λ o. refl;
    kind = λ o. refl;
    view = λ o. refl;
    stat = λ o. refl;
  }

  enter_state-IsHarmless : (s : MonsterState) (now : ℕ) → IsHarmless (enter_state s now)
  enter_state-IsHarmless MonsterState.trace now = record {
    id = λ o. refl;
    kind = λ o. refl;
    view = λ o. refl;
    stat = λ o. refl;
  }
  enter_state-IsHarmless MonsterState.patrol now = record {
    id = λ o. refl;
    kind = λ o. refl;
    view = λ o. refl;
    stat = λ o. refl;
  }
  enter_state-IsHarmless _ now = record {
    id = λ o. refl;
    kind = λ o. refl;
    view = λ o. refl;
    stat = λ o. refl;
  }

  pub Keeps-stop_move : (a : ℕ) (r : Room) → Keeps r (stop_move a r)
  unfolding stop_move
  Keeps-stop_move a r =
      let halted = update_at a drop_path r in
      let o = halted.heap a in
      let told = broadcast_aoi a (sc_move_object o.info o.last_move_time) false halted in
      let dropped = Keeps-update_at a drop_path r drop_path-IsHarmless in
      Keeps-if (is_idle (r.heap a).info.position.state) r r (if o.in_room then told else halted)
        (Keeps-refl r)
        (Keeps-if o.in_room r told halted
          (Keeps-trans r halted told dropped
            (Keeps-broadcast_aoi a (sc_move_object o.info o.last_move_time) false halted))
          dropped)

  pub Keeps-change_state : (a : ℕ) (s : MonsterState) (r : Room) → Keeps r (change_state a s r)
  unfolding change_state
  Keeps-change_state a s r =
      Keeps-if (same_state (r.heap a).monster_state s) r r
        (update_at a (enter_state s r.now) (stop_move a r)) (Keeps-refl r)
        (Keeps-trans r (stop_move a r) _ (Keeps-stop_move a r) (
          Keeps-update_at a (enter_state s r.now) (stop_move a r) (enter_state-IsHarmless s r.now)))

  Keeps-awake :
      (a : ℕ) (b : Bool) (s : MonsterState) (r : Room)
      → Keeps r (change_state a s (update_at a (set_awake b) r))
  Keeps-awake a b s r =
      Keeps-trans r (update_at a (set_awake b) r) _
        (Keeps-update_at a (set_awake b) r (set_awake-IsHarmless b))
        (Keeps-change_state a s (update_at a (set_awake b) r))

  pub Keeps-wake_up_by_player : (a : ℕ) (r : Room) → Keeps r (wake_up_by_player a r)
  unfolding wake_up_by_player
  Keeps-wake_up_by_player a r =
      Keeps-if (is_dead (r.heap a).info.stat.hp) r r _ (Keeps-refl r) (
        Keeps-if (r.heap a).wake_up r r _ (Keeps-refl r) (Keeps-awake a true MonsterState.patrol r))

  pub Keeps-sleep_if_no_player : (a : ℕ) (r : Room) → Keeps r (sleep_if_no_player a r)
  unfolding sleep_if_no_player
  Keeps-sleep_if_no_player a r = Keeps-if (is_dead (r.heap a).info.stat.hp) r r _ (Keeps-refl r) (
      Keeps-if (is_empty (r.heap a).view_list) r _ r (Keeps-awake a false MonsterState.none r)
        (Keeps-refl r))
