-- ===== src/Game/View/Stays.antt =====
-- When a handler leaves alone what decides who sees whom: ids, kinds, view lists, the map of
-- objects and the grid. Stats, positions and orders may change.
use simple_mmo.Prelude.{
  ℕ, Bool, true, false, Option, none, some, if◌then◌else◌, ◌≡◌, refl, ◌∙◌, arith,
}
use simple_mmo.Prelude.Options.{◌>>=◌}
use simple_mmo.Game.Floats.{Floats}
use simple_mmo.Game.Objects.{Object}
use simple_mmo.Game.World.{Job, Room, update_at, reserve_job}
use simple_mmo.Game.View.Changes.{Keeps}
use simple_mmo.Game.View.Symmetry.{Registered}

module _ ⦃fl : Floats⦄ where
  pub record Stays (r r' : Room) : Type 0 where
    pub objects : r'.objects ≡ r.objects
    pub map : r'.game_map ≡ r.game_map
    pub id : (b : ℕ) → (r'.heap b).info.id ≡ (r.heap b).info.id
    pub kind : (b : ℕ) → (r'.heap b).info.object_type ≡ (r.heap b).info.object_type
    pub view : (b : ℕ) → (r'.heap b).view_list ≡ (r.heap b).view_list

  pub Stays-refl : (r : Room) → Stays r r
  Stays-refl r = record {
    objects = refl;
    map = refl;
    id = λ b. refl;
    kind = λ b. refl;
    view = λ b. refl;
  }

  pub Keeps-Stays : (r r' : Room) → Keeps r r' → Stays r r'
  Keeps-Stays r r' k = record {
    objects = k.objects;
    map = k.map;
    id = k.id;
    kind = k.kind;
    view = k.view;
  }

  pub Stays-trans : (r s t : Room) → Stays r s → Stays s t → Stays r t
  Stays-trans r s t p q = record {
    objects = q.objects ∙ p.objects;
    map = q.map ∙ p.map;
    id = λ b. q.id b ∙ p.id b;
    kind = λ b. q.kind b ∙ p.kind b;
    view = λ b. q.view b ∙ p.view b;
  }

  pub Stays-if : (c : Bool) (r s t : Room) → Stays r s → Stays r t → Stays r (if c then s else t)
  Stays-if true r s t p q = p
  Stays-if false r s t p q = q

  -- A change of an object that leaves its id, kind and view list alone.
  pub record IsGentle (h : Object → Object) : Type 0 where
    pub id : (o : Object) → (h o).info.id ≡ o.info.id
    pub kind : (o : Object) → (h o).info.object_type ≡ o.info.object_type
    pub view : (o : Object) → (h o).view_list ≡ o.view_list

  pub Stays-update_at :
      (a : ℕ) (h : Object → Object) (r : Room) → IsGentle h → Stays r (update_at a h r)
  Stays-update_at a h r w = record {
    objects = refl;
    map = refl;
    id = λ b. ground (arith, w.id (r.heap b));
    kind = λ b. ground (arith, w.kind (r.heap b));
    view = λ b. ground (arith, w.view (r.heap b));
  }

  pub Stays-reserve_job : (delay : ℕ) (job : Job) (r : Room) → Stays r (reserve_job delay job r)
  Stays-reserve_job delay job r = record {
    objects = refl;
    map = refl;
    id = λ b. refl;
    kind = λ b. refl;
    view = λ b. refl;
  }

  pub Registered-Stays : (s : ℕ) (r r' : Room) → Stays r r' → Registered s r → Registered s r'
  Registered-Stays s r r' c e = rw (c.objects, c.id s) e

  -- Whatever the fallible handler returns.
  abbrev pub StaysIn : Room → Option Room → Type 0
  StaysIn r none = Unit
  StaysIn r (some r') = Stays r r'

  pub StaysIn-if :
      (c : Bool) (r : Room) (s t : Option Room)
      → StaysIn r s
      → StaysIn r t
      → StaysIn r (if c then s else t)
  StaysIn-if true r s t p q = p
  StaysIn-if false r s t p q = q

  pub StaysIn-trans : (r s : Room) (t : Option Room) → Stays r s → StaysIn s t → StaysIn r t
  StaysIn-trans r s none p q = tt
  StaysIn-trans r s (some t) p q = Stays-trans r s t p q

  pub StaysIn-bind :
      (r : Room) (o : Option Room) (h : Room → Option Room)
      → StaysIn r o
      → ((s : Room) → StaysIn s (h s))
      → StaysIn r (o >>= h)
  StaysIn-bind r none h p q = tt
  StaysIn-bind r (some s) h p q = StaysIn-trans r s (h s) p (q s)
