-- ===== src/Game/Moves/Arrival.antt =====
-- `Room::AddObject` and `Room::RemoveObject` (Room.cpp) beside the places on the room's map.
use simple_mmo.Prelude.{
  ℕ, Dict, ◌⊎◌, Bool, true, false, Option, none, some, [], ◌∷◌, ◌≡◌, ◌≢◌, refl, sym, ap, ◌∙◌, inl,
  inr, arith, find, erase, find-erase, Option-cases, ==_refl, ==_ne, ℕ_discrete,
}
use simple_mmo.Game.Removal.{count}
use simple_mmo.Game.Floats.{Floats}
use simple_mmo.Game.GameMap.{CellPos}
use simple_mmo.Game.GameMap.Occupancy.{Places}
use simple_mmo.Game.World.{Room}
use simple_mmo.Game.View.Step.{sees}
use simple_mmo.Game.View.Symmetry.{kind_at, view_at}
use simple_mmo.Game.Moves.{remove_object, drop_player}
use simple_mmo.Game.Moves.Sights.{found}
use simple_mmo.Game.Moves.Shown.{Tracks, shows, shows-same}

find_front :
    (k i a b : ℕ) (m : Dict ℕ)
    → find i ((k, a) ∷ m) ≡ some b
    → (i ≡ k) × (b ≡ a) ⊎ (find i m ≡ some b)
unfolding find
find_front k i a b m p = ground arith

absent_front : (k i a : ℕ) (m : Dict ℕ) → find i ((k, a) ∷ m) ≡ none → (i ≢ k) × (find i m ≡ none)
unfolding find
absent_front k i a m p = elim (ℕ_discrete i k) [
  | yes e ↦ ground (arith, ==_refl k)
  | no ne ↦ (ne, rw (==_ne k i (λ e. ne (sym e))) at p)
]

still : (id i a : ℕ) (m : Dict ℕ) → find i (erase id m) ≡ some a → id ≢ i
still id i a m p e = ground (arith, find-erase id i m, ==_refl i)

shows_nobody : (w h : ℕ) (c : Bool) (o : Option CellPos) → 0 ≡ shows w h c none o
shows_nobody w h true o = refl
shows_nobody w h false o = refl

pub shows_missing : (w h : ℕ) (c : Bool) (o : Option CellPos) → 0 ≡ shows w h c o none
shows_missing w h true none = refl
shows_missing w h true (some d) = refl
shows_missing w h false o = refl

module _ ⦃fl : Floats⦄ where
  -- The object at `a` has been put into the map of objects under its id, which was free, and lists
  -- nobody yet.
  pub record IsArrival (a : ℕ) (r r' : Room) : Type 0 where
    pub fresh : find (r.heap a).info.id r.objects ≡ none
    pub objects : r'.objects ≡ ((r.heap a).info.id, a) ∷ r.objects
    pub map : r'.game_map ≡ r.game_map
    pub id : (b : ℕ) → (r'.heap b).info.id ≡ (r.heap b).info.id
    pub kind : (b : ℕ) → (r'.heap b).info.object_type ≡ (r.heap b).info.object_type
    pub view : (b : ℕ) → (r'.heap b).view_list ≡ (r.heap b).view_list
    pub empty : (r.heap a).view_list ≡ []

  listed_front :
      (a : ℕ) (r r' : Room) (f : Places)
      → IsArrival a r r'
      → Tracks r f
      → (i j b d : ℕ) → find i (((r.heap a).info.id, a) ∷ r.objects) ≡ some b
      → find j (((r.heap a).info.id, a) ∷ r.objects) ≡ some d
      → i ≢ j
      → count j (view_at r b)
        ≡ shows r.game_map.cells.grid_width r.game_map.cells.grid_height
            (sees (kind_at r b) (kind_at r d))
            (f i)
            (f j)
  unfolding count
  listed_front a r r' f c v i j b d p q ne =
      let sid = (r.heap a).info.id in
      let w = r.game_map.cells.grid_width in
      let h = r.game_map.cells.grid_height in
      elim (find_front sid i a b r.objects p) [
        | inl (e, s) ↦
            rw (s, c.empty, e, v.absent sid c.fresh)
              (shows_nobody w h (sees (kind_at r a) (kind_at r d)) (f j))
        | inr s ↦ elim (find_front sid j a d r.objects q) [
          | inl (e, t) ↦
              rw (e, v.absent sid c.fresh)
                (v.strangers i sid b s c.fresh
                  ∙ shows_missing w h (sees (kind_at r b) (kind_at r d)) (f i))
          | inr t ↦ v.listed i j b d s t ne
        ]
      ]

  pub arrival-Tracks :
      (a : ℕ) (r r' : Room) (f : Places) → IsArrival a r r' → Tracks r f → Tracks r' f
  unfolding count
  arrival-Tracks a r r' f c v =
      let sid = (r.heap a).info.id in
      record {
        keyed = λ i b p. elim (find_front sid i a b r.objects (rw c.objects at p)) [
          | inl (e, q) ↦ rw (q, c.id a) (sym e)
          | inr q ↦ c.id b ∙ v.keyed i b q
        ];
        map = rw c.map v.map;
        absent = λ i p. v.absent i (absent_front sid i a r.objects (rw c.objects at p)).1;
        listed = λ i j b d p q ne.
            ap (count j) (c.view b)
            ∙ listed_front a r r' f c v i j b d (rw c.objects at p) (rw c.objects at q) ne
            ∙ shows-same (f i) (f j) (ap (λ g. g.cells.grid_width) c.map)
                (ap (λ g. g.cells.grid_height) c.map) (c.kind b) (c.kind d);
        self = λ i b p. elim (find_front sid i a b r.objects (rw c.objects at p)) [
          | inl (e, q) ↦ rw (q, c.view a, c.empty) refl
          | inr q ↦ rw (c.view b) (v.self i b q)
        ];
        strangers = λ i j b p q.
            let q1 = (absent_front sid j a r.objects (rw c.objects at q)).1 in
            elim (find_front sid i a b r.objects (rw c.objects at p)) [
              | inl (e, s) ↦ rw (s, c.view a, c.empty) refl
              | inr s ↦ rw (c.view b) (v.strangers i j b s q1)
            ];
      }

  -- An object that is not on the map is taken out of the map of objects.
  pub departure-Tracks :
      (id : ℕ) (r : Room) (f : Places)
      → f id ≡ none
      → Tracks r f
      → Tracks (drop_player id (remove_object id r)) f
  unfolding remove_object
  departure-Tracks id r f gone v =
      let w = r.game_map.cells.grid_width in
      let h = r.game_map.cells.grid_height in
      record {
        keyed = λ i a p. v.keyed i a (found id i a r p);
        map = v.map;
        absent = λ i p. elim (ℕ_discrete id i) [
          | yes e ↦ rw (← e) gone
          | no ne ↦ v.absent i (rw (find-erase id i r.objects, ==_ne id i ne) at p)
        ];
        listed = λ i j a b p q. v.listed i j a b (found id i a r p) (found id j b r q);
        self = λ i a p. v.self i a (found id i a r p);
        strangers = λ i j a p q. elim (ℕ_discrete id j) [
          | yes e ↦ elim (Option-cases (find j r.objects)) [
            | inl missing ↦ v.strangers i j a (found id i a r p) missing
            | inr (b, t) ↦
                v.listed i j a b (found id i a r p) t (λ h. still id i a r.objects p (e ∙ sym h))
                ∙ rw (← e, gone) (sym (shows_missing w h (sees (kind_at r a) (kind_at r b)) (f i)))
          ]
          | no ne ↦
              v.strangers i j a (found id i a r p)
                (rw (find-erase id j r.objects, ==_ne id j ne) at q)
        ];
      }
