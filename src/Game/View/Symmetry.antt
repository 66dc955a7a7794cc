-- ===== src/Game/View/Symmetry.antt =====
-- The order in the view lists of a room, and `Room::UpdateView` (Room.cpp).
use simple_mmo.Prelude.{
  ℕ, suc, ◌-◌, Bool, true, false, some, List, [], ◌∷◌, ◌==◌, ◌&&◌, ◌||◌, if◌then◌else◌, ◌≡◌, ◌≢◌,
  sym, ap, ◌∙◌, arith, find, Option-cases, inl, inr, ==_refl, ==_ne, ℕ_discrete,
}
use simple_mmo.Game.Removal.{remove_swap, count, count-append, count-remove_swap, contains-count}
use simple_mmo.Game.Floats.{Floats}
use simple_mmo.Game.Objects.{ObjectType, is_player, is_monster}
use simple_mmo.Game.GameMap.{ViewUpdate}
use simple_mmo.Game.World.{Packet, sc_add_object, Room}
use simple_mmo.Game.View.{
  leave_view, leave_view_found, enter_view, enter_view_found, leave_views, enter_views, update_view,
}
use simple_mmo.Game.View.Changes.{Changes}
use simple_mmo.Game.View.Step.{
  sees, appended, both_sides, leave_view_found-Changes, enter_view_found-Changes,
}

abbrev pub is_character : ObjectType → Bool
is_character k = is_player k || is_monster k

module _ ⦃fl : Floats⦄ where
  abbrev pub kind_at : Room → ℕ → ObjectType
  kind_at r a = (r.heap a).info.object_type

  abbrev pub view_at : Room → ℕ → List ℕ
  view_at r a = (r.heap a).view_list

  pub record Views (r : Room) : Type 0 where
    -- an object stands in the map under its own id
    pub keyed : (i a : ℕ) → find i r.objects ≡ some a → (r.heap a).info.id ≡ i
    -- of two characters of the room, each is in the other's list equally often
    pub mutual_views :
        (i j a b : ℕ)
        → find i r.objects ≡ some a
        → find j r.objects ≡ some b
        → is_character (kind_at r a) ≡ true
        → is_character (kind_at r b) ≡ true
        → count j (view_at r a) ≡ count i (view_at r b)
    -- no monster has an object of the room that is no player in its list
    pub players_only :
        (i j a b : ℕ)
        → find i r.objects ≡ some a
        → find j r.objects ≡ some b
        → is_monster (kind_at r a) ≡ true
        → is_player (kind_at r b) ≡ false
        → count j (view_at r a) ≡ 0

  -- A change of lists that alters how often one key occurs, by `step`.
  pub record IsCounted (g : ℕ → List ℕ → List ℕ) (step : ℕ → ℕ) : Type 0 where
    pub other : (j k : ℕ) (l : List ℕ) → j ≢ k → count j (g k l) ≡ count j l
    pub self : (k : ℕ) (l : List ℕ) → count k (g k l) ≡ step (count k l)

  pub remove_swap-IsCounted : IsCounted remove_swap (λ n. n - 1)
  remove_swap-IsCounted = record {
    other = λ j k l h. ground (arith, count-remove_swap j k l);
    self = λ k l. ground (arith, count-remove_swap k k l, contains-count k l);
  }

  pub appended-IsCounted : IsCounted appended suc
  unfolding count
  appended-IsCounted = record {
    other = λ j k l h. ground (arith, count-append j l (k ∷ []));
    self = λ k l. ground (arith, count-append k l (k ∷ []));
  }

  count-sides :
      (g : ℕ → List ℕ → List ℕ) (step : ℕ → ℕ)
      → IsCounted g step
      → (c d : Bool) (i j sid tid : ℕ) (l : List ℕ) → sid ≢ tid
      → let l' = if c && (sid == i) then g tid l else l in
        count j (if d && (tid == i) then g sid l' else l') ≡ (
          if (c && (sid == i)) && (j == tid)
          then step (count j l)
          else (if (d && (tid == i)) && (j == sid) then step (count j l) else count j l))
  count-sides g step w c d i j sid tid l h =
      ground (arith, w.other j tid l, w.other j sid l, w.self tid l, w.self sid l)

  module _ (g : ℕ → List ℕ → List ℕ) (step : ℕ → ℕ) (w : IsCounted g step) (s sid t tid : ℕ)
      (r r' : Room) (c : Changes (both_sides g s sid t tid r) r r') (v : Views r)
      (at_s : find sid r.objects ≡ some s) (at_t : find tid r.objects ≡ some t)
      (differ : sid ≢ tid) where
    -- Addresses agree exactly when ids do.
    same_address :
        (i k a b : ℕ) → find i r.objects ≡ some a → find k r.objects ≡ some b → (a == b) ≡ (i == k)
    same_address i k a b p q = ground (arith, v.keyed i a p, v.keyed k b q)

    -- How often `j` occurs in the new list of the object with id `i`.
    pub count_after :
        (i j a : ℕ)
        → find i r.objects ≡ some a
        → count j (view_at r' a) ≡ (
            if (sees (kind_at r s) (kind_at r t) && (sid == i)) && (j == tid)
            then step (count j (view_at r a))
            else (if (sees (kind_at r t) (kind_at r s) && (tid == i)) && (j == sid)
                then step (count j (view_at r a))
                else count j (view_at r a)))
    count_after i j a p =
        ap (count j) (c.view a)
        ∙ rw (same_address sid i s a at_s p, same_address tid i t a at_t p)
            (count-sides g step w (sees (kind_at r s) (kind_at r t))
              (sees (kind_at r t) (kind_at r s)) i j sid tid (view_at r a) differ)

    mutual_after :
        (i j a b : ℕ)
        → find i r.objects ≡ some a
        → find j r.objects ≡ some b
        → is_character (kind_at r a) ≡ true
        → is_character (kind_at r b) ≡ true
        → count j (view_at r' a) ≡ count i (view_at r' b)
    mutual_after i j a b p q ca cb = ground (
      arith,
      count_after i j a p,
      count_after j i b q,
      v.mutual_views i j a b p q ca cb,
      at_s,
      at_t,
    )

    players_only_after :
        (i j a b : ℕ)
        → find i r.objects ≡ some a
        → find j r.objects ≡ some b
        → is_monster (kind_at r a) ≡ true
        → is_player (kind_at r b) ≡ false
        → count j (view_at r' a) ≡ 0
    players_only_after i j a b p q m n =
        ground (arith, count_after i j a p, v.players_only i j a b p q m n, at_s, at_t)

    pub both_sides-Views : Views r'
    both_sides-Views = record {
      keyed = λ i a p. c.id a ∙ v.keyed i a (rw c.objects at p);
      mutual_views = λ i j a b p q ca cb.
          mutual_after i j a b (rw c.objects at p) (rw c.objects at q) (rw (c.kind a) at ca)
            (rw (c.kind b) at cb);
      players_only = λ i j a b p q m n.
          players_only_after i j a b (rw c.objects at p) (rw c.objects at q) (rw (c.kind a) at m)
            (rw (c.kind b) at n);
    }

  -- The subject of an update stands in the map of objects.
  abbrev pub Registered : ℕ → Room → Type 0
  Registered s r = find (r.heap s).info.id r.objects ≡ some s

  pub Registered-Changes :
      (f : ℕ → List ℕ → List ℕ) (s : ℕ) (r r' : Room)
      → Changes f r r'
      → Registered s r
      → Registered s r'
  Registered-Changes f s r r' c e = rw (c.objects, c.id s) e

  -- A state that came from `r` by view updates of `s`.
  abbrev pub Good : ℕ → Room → Type 0
  Good s r = Views r × Registered s r

  leave_view-Good : (s tid : ℕ) (r : Room) → Good s r → Good s (leave_view s tid r)
  unfolding leave_view
  leave_view-Good s tid r (v, e) = elim (ℕ_discrete tid (r.heap s).info.id) [
    | yes same ↦ rw (same, ==_refl (r.heap s).info.id) (v, e)
    | no differ ↦ elim (Option-cases (find tid r.objects)) [
      | inl missing ↦ rw (==_ne tid (r.heap s).info.id differ, missing) (v, e)
      | inr (t, at_t) ↦
          let sid = (r.heap s).info.id in
          let r' = leave_view_found s sid tid (some t) r in
          let c = leave_view_found-Changes s sid tid t r in
          rw (==_ne tid sid differ, at_t)
            (
              both_sides-Views remove_swap (λ n. n - 1) remove_swap-IsCounted s sid t tid r r' c v e
                  at_t (λ h. differ (sym h)),
              Registered-Changes _ s r r' c e,
            )
    ]
  ]

  enter_view-Good :
      (add : Packet) (s tid : ℕ) (r : Room) → Good s r → Good s (enter_view add s tid r)
  unfolding enter_view
  enter_view-Good add s tid r (v, e) = elim (ℕ_discrete tid (r.heap s).info.id) [
    | yes same ↦ rw (same, ==_refl (r.heap s).info.id) (v, e)
    | no differ ↦ elim (Option-cases (find tid r.objects)) [
      | inl missing ↦ rw (==_ne tid (r.heap s).info.id differ, missing) (v, e)
      | inr (t, at_t) ↦
          let sid = (r.heap s).info.id in
          let r' = enter_view_found add s sid tid (some t) r in
          let c = enter_view_found-Changes add s sid tid t r in
          rw (==_ne tid sid differ, at_t)
            (
              both_sides-Views appended suc appended-IsCounted s sid t tid r r' c v e at_t
                  (λ h. differ (sym h)),
              Registered-Changes _ s r r' c e,
            )
    ]
  ]

  leave_views-Good : (s : ℕ) (ids : List ℕ) (r : Room) → Good s r → Good s (leave_views s ids r)
  unfolding leave_views
  leave_views-Good s [] r h = h
  leave_views-Good s (id ∷ ids) r h = leave_views-Good s ids _ (leave_view-Good s id r h)

  enter_views-Good :
      (add : Packet) (s : ℕ) (ids : List ℕ) (r : Room) → Good s r → Good s (enter_views add s ids r)
  unfolding enter_views
  enter_views-Good add s [] r h = h
  enter_views-Good add s (id ∷ ids) r h =
      enter_views-Good add s ids _ (enter_view-Good add s id r h)

  -- Whatever objects are said to have come into view of a registered subject or to have gone out of
  -- it, `UpdateView` keeps views mutual between the characters of the room, keeps every object that
  -- is no player out of the monsters' lists, and keeps the objects under their own ids.
  pub update_view-Views :
      (s : ℕ) (u : ViewUpdate) (r : Room) → Registered s r → Views r → Views (update_view s u r)
  unfolding update_view
  update_view-Views s u r e v =
      let add = sc_add_object (r.heap s).info in
      (enter_views-Good add s u.entered (leave_views s u.leaved r)
        (leave_views-Good s u.leaved r (v, e))).0
