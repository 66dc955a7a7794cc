-- ===== src/Game/Moves/Shown.antt =====
-- The view lists of a room beside the places on its map: what Room.cpp keeps in step when it passes
-- a report of GameMap.cpp to `Room::UpdateView`.
use simple_mmo.Prelude.{
  ℕ, ◌+◌, ◌-◌, Bool, true, false, Option, none, some, Dict, List, [], ◌∷◌, ◌&&◌, if◌then◌else◌, ◌≡◌,
  ◌≢◌, refl, sym, ap, ap₂, ◌∙◌, inl, inr, arith, find, Option-cases, ==_refl, ==_ne, ℕ_discrete,
}
use simple_mmo.Prelude.Int.{ℤ}
use simple_mmo.Game.Removal.{count}
use simple_mmo.Game.Floats.{Floats}
use simple_mmo.Game.GameMap.{CellPos, Cells, ViewUpdate}
use simple_mmo.Game.GameMap.Grid.{IsInside}
use simple_mmo.Game.GameMap.Sight.{near_int, in_sight}
use simple_mmo.Game.GameMap.Occupancy.{Places, Represents, SameSize}
use simple_mmo.Game.GameMap.Leave.{seen_by}
use simple_mmo.Game.Objects.{ObjectType}
use simple_mmo.Game.World.{Room}
use simple_mmo.Game.Monster.{is_empty}
use simple_mmo.Game.View.{update_view, leave_views, enter_views}
use simple_mmo.Game.View.Step.{sees}
use simple_mmo.Game.View.Symmetry.{Views, is_character, Registered, kind_at, view_at}
use simple_mmo.Game.View.Loops.{updated, update_view-IsUpdated}
use simple_mmo.Game.Moves.Sights.{Views-with_map, shown_room}

near_int_comm : (a b : ℤ) → near_int a b ≡ near_int b a
near_int_comm a b = ground arith

in_sight_comm :
    (w h : ℕ) (c d : CellPos)
    → IsInside w h c
    → IsInside w h d
    → in_sight w h c d ≡ in_sight w h d c
in_sight_comm w h c d p q = ground (arith, near_int_comm c.x d.x, near_int_comm c.y d.y)

-- Every object on the map is in a cell of the grid.
abbrev pub AreInside : ℕ → ℕ → Places → Type 0
AreInside w h f = (i : ℕ) (c : CellPos) → f i ≡ some c → IsInside w h c

pub Represents-AreInside :
    (m : Cells) (f : Places) → Represents m f → AreInside m.grid_width m.grid_height f
Represents-AreInside m f v i c e = v.sound.recorded i c (v.recorded i ∙ e)

pub seen_by_comm :
    (w h i j : ℕ) (f : Places) → AreInside w h f → seen_by w h (f i) (f j) ≡ seen_by w h (f j) (f i)
seen_by_comm w h i j f v = elim (Option-cases (f i)) [
  | inl p ↦ elim (Option-cases (f j)) [ inl q ↦ rw (p, q) refl | inr (d, q) ↦ rw (p, q) refl ]
  | inr (c, p) ↦ elim (Option-cases (f j)) [
    | inl q ↦ rw (p, q) refl
    | inr (d, q) ↦ rw (p, q, in_sight_comm w h c d (v i c p) (v j d q)) refl
  ]
]

-- The report says how the sight of `sid` changes between the places before and after.
pub record IsReport (w h sid : ℕ) (f f' : Places) (u : ViewUpdate) : Type 0 where
  pub others : (k : ℕ) → k ≢ sid → f' k ≡ f k
  pub change :
      (k : ℕ)
      → k ≢ sid
      → seen_by w h (f sid) (f k) - count k u.leaved + count k u.entered
        ≡ seen_by w h (f' sid) (f' k)

-- How often an object is to be listed by another.
abbrev pub shows : ℕ → ℕ → Bool → Option CellPos → Option CellPos → ℕ
shows w h sight o p = if sight then seen_by w h o p else 0

updated_at_subject :
    (sid j old x y : ℕ) (u : ViewUpdate) (sight : Bool)
    → j ≢ sid
    → x - count j u.leaved + count j u.entered ≡ y
    → old ≡ (if sight then x else 0)
    → updated sid sight u sid j old ≡ (if sight then y else 0)
updated_at_subject sid j old x y u true h c e = ground (arith, ==_ne j sid h, ==_refl sid)
updated_at_subject sid j old x y u false h c e = ground (arith, ==_ne j sid h, ==_refl sid)

updated_at_other :
    (sid i old x y : ℕ) (u : ViewUpdate) (sight : Bool)
    → i ≢ sid
    → x - count i u.leaved + count i u.entered ≡ y
    → old ≡ (if sight then x else 0)
    → updated sid sight u i sid old ≡ (if sight then y else 0)
updated_at_other sid i old x y u true h c e = ground (arith, ==_ne i sid h, ==_refl sid)
updated_at_other sid i old x y u false h c e = ground (arith, ==_ne i sid h, ==_refl sid)

updated-shows :
    (w h sid : ℕ) (f f' : Places) (u : ViewUpdate) (sight : Bool) (i j old : ℕ)
    → AreInside w h f
    → AreInside w h f'
    → IsReport w h sid f f' u
    → i ≢ j
    → old ≡ shows w h sight (f i) (f j)
    → updated sid sight u i j old ≡ shows w h sight (f' i) (f' j)
updated-shows w h sid f f' u sight i j old v v' x differ e = elim (ℕ_discrete i sid) [
  | yes p ↦
      let ne : j ≢ sid = λ q. differ (p ∙ sym q) in
      rw p (
        updated_at_subject sid j old (seen_by w h (f sid) (f j)) (seen_by w h (f' sid) (f' j)) u
          sight ne (x.change j ne) (rw p at e))
  | no p ↦ elim (ℕ_discrete j sid) [
    | yes q ↦
        rw (q, seen_by_comm w h i sid f' v')
          (updated_at_other sid i old (seen_by w h (f sid) (f i)) (seen_by w h (f' sid) (f' i)) u
            sight p (x.change i p) (rw (q, seen_by_comm w h i sid f v) at e))
    | no q ↦ rw (x.others i p, x.others j q, ==_ne i sid p, ==_ne j sid q) e
  ]
]

pub shows-same :
    {w h w' h' : ℕ} {k l k' l' : ObjectType} (o p : Option CellPos)
    → w' ≡ w
    → h' ≡ h
    → k' ≡ k
    → l' ≡ l
    → shows w h (sees k l) o p ≡ shows w' h' (sees k' l') o p
shows-same o p a b c d = rw (a, b, c, d) refl

updated_self :
    (sid : ℕ) (sight : Bool) (u : ViewUpdate) (i old : ℕ) → updated sid sight u i i old ≡ old
updated_self sid sight u i old = ground arith

module _ ⦃fl : Floats⦄ where
  -- The lists and the places of a room agree: of two objects one lists the other, and once, exactly
  -- if its kind sees the other's kind and it has the other in sight.
  pub record Tracks (r : Room) (f : Places) : Type 0 where
    pub keyed : (i a : ℕ) → find i r.objects ≡ some a → (r.heap a).info.id ≡ i
    pub map : Represents r.game_map.cells f
    pub absent : (i : ℕ) → find i r.objects ≡ none → f i ≡ none
    pub listed :
        (i j a b : ℕ)
        → find i r.objects ≡ some a
        → find j r.objects ≡ some b
        → i ≢ j
        → count j (view_at r a)
          ≡ shows r.game_map.cells.grid_width r.game_map.cells.grid_height
              (sees (kind_at r a) (kind_at r b))
              (f i)
              (f j)
    pub self : (i a : ℕ) → find i r.objects ≡ some a → count i (view_at r a) ≡ 0
    pub strangers :
        (i j a : ℕ)
        → find i r.objects ≡ some a
        → find j r.objects ≡ none
        → count j (view_at r a) ≡ 0

  same_place : (i j a b : ℕ) (m : Dict ℕ) → find i m ≡ some a → find j m ≡ some b → i ≡ j → a ≡ b
  same_place i j a b m p q e = ground arith

  shows-mutual :
      (k l : ObjectType) (x y : ℕ)
      → is_character k ≡ true
      → is_character l ≡ true
      → x ≡ y
      → (if sees k l then x else 0) ≡ (if sees l k then y else 0)
  shows-mutual k l x y p q e = ground arith

  pub Tracks-Views : (r : Room) (f : Places) → Tracks r f → Views r
  Tracks-Views r f v = record {
    keyed = v.keyed;
    mutual_views = λ i j a b p q ca cb. elim (ℕ_discrete i j) [
      | yes e ↦ ap₂ (λ k c. count k (view_at r c)) (sym e) (same_place i j a b r.objects p q e)
      | no ne ↦
          v.listed i j a b p q ne
          ∙ shows-mutual (kind_at r a) (kind_at r b) _ _ ca cb (
              seen_by_comm r.game_map.cells.grid_width r.game_map.cells.grid_height i j f
                (Represents-AreInside r.game_map.cells f v.map))
          ∙ sym (v.listed j i b a q p (λ e. ne (sym e)))
    ];
    players_only = λ i j a b p q m n. elim (ℕ_discrete i j) [
      | yes e ↦ ap (λ k. count k (view_at r a)) (sym e) ∙ v.self i a p
      | no ne ↦ ground (arith, v.listed i j a b p q ne)
    ];
  }

  show_lists :
      (a : ℕ) (r : Room) (es ls : List ℕ)
      → (if is_empty es && is_empty ls
          then r
          else update_view a (record { entered = es; leaved = ls }) r)
        ≡ update_view a (record { entered = es; leaved = ls }) r
  unfolding update_view leave_views enter_views
  show_lists a r [] [] = refl
  show_lists a r [] (x ∷ xs) = refl
  show_lists a r (x ∷ xs) ls = refl

  -- Showing a report leaves the map of objects.
  pub shown_room-objects :
      (a : ℕ) (r : Room) (u : ViewUpdate) (m : Cells) (f : Places)
      → Registered a r
      → Tracks r f
      → (shown_room a r u (record r.game_map { cells = m })).objects ≡ r.objects
  shown_room-objects a r u m f e v =
      let r1 : Room = record r { game_map = record r.game_map { cells = m } } in
      let y = update_view-IsUpdated a u r1 (Views-with_map r r1.game_map (Tracks-Views r f v), e) in
      ap (λ s. s.objects) (show_lists a r1 u.entered u.leaved) ∙ y.same.objects

  -- A registered subject's report shows the new places.
  pub shown_room-Tracks :
      (a : ℕ) (r : Room) (u : ViewUpdate) (m : Cells) (f f' : Places)
      → Registered a r
      → Tracks r f
      → Represents m f'
      → SameSize r.game_map.cells m
      → IsReport r.game_map.cells.grid_width r.game_map.cells.grid_height (r.heap a).info.id f f' u
      → Tracks (shown_room a r u (record r.game_map { cells = m })) f'
  shown_room-Tracks a r u m f f' e v x (ww, hh) c =
      let sid = (r.heap a).info.id in
      let r1 : Room = record r { game_map = record r.game_map { cells = m } } in
      let r2 = update_view a u r1 in
      let y = update_view-IsUpdated a u r1 (Views-with_map r r1.game_map (Tracks-Views r f v), e) in
      let inside = rw (ww, hh) at (Represents-AreInside m f' x) in
      rw (show_lists a r1 u.entered u.leaved) (record {
        keyed = y.good.0.keyed;
        map = rw y.same.map x;
        absent = λ i p. elim (ℕ_discrete i sid) [
          | yes q ↦ ground (arith, e, rw y.same.objects at p)
          | no q ↦ c.others i q ∙ v.absent i (rw y.same.objects at p)
        ];
        listed = λ i j b d p q ne.
            let p1 = rw y.same.objects at p in
            let q1 = rw y.same.objects at q in
            y.counts i j b d p1 q1
            ∙ updated-shows r.game_map.cells.grid_width r.game_map.cells.grid_height sid f f' u
                (sees (kind_at r b) (kind_at r d)) i j (count j (view_at r b))
                (Represents-AreInside r.game_map.cells f v.map) inside c ne
                (v.listed i j b d p1 q1 ne)
            ∙ shows-same (f' i) (f' j) (ap (λ g. g.cells.grid_width) y.same.map ∙ ww)
                (ap (λ g. g.cells.grid_height) y.same.map ∙ hh) (y.same.kind b) (y.same.kind d);
        self = λ i b p.
            let p1 = rw y.same.objects at p in
            y.counts i i b b p1 p1
            ∙ updated_self sid (sees (kind_at r b) (kind_at r b)) u i (count i (view_at r b))
            ∙ v.self i b p1;
        strangers = λ i j b p q.
            let p1 = rw y.same.objects at p in
            let q1 = rw y.same.objects at q in y.strangers i j b p1 q1 ∙ v.strangers i j b p1 q1;
      })
