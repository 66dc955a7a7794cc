-- ===== src/Game/View/Loops.antt =====
-- The loops of `Room::UpdateView` (Room.cpp) over the objects that came into view and those that went
-- out of it.
use simple_mmo.Prelude.{
  ℕ, ◌+◌, ◌-◌, Bool, none, some, List, [], ◌∷◌, ◌≡◌, refl, sym, ap, ◌∙◌, inl, inr, arith, find,
  Option-cases, ==_refl, ==_ne, ==_eq, ℕ_discrete,
}
use simple_mmo.Game.Removal.{remove_swap, count}
use simple_mmo.Game.Floats.{Floats}
use simple_mmo.Game.World.{Packet, sc_add_object, Room}
use simple_mmo.Game.GameMap.{ViewUpdate}
use simple_mmo.Game.View.{leave_view, enter_view, leave_views, enter_views, update_view}
use simple_mmo.Game.View.Step.{sees, appended, leave_view_found-Changes, enter_view_found-Changes}
use simple_mmo.Game.View.Symmetry.{
  Good, kind_at, view_at, IsCounted, remove_swap-IsCounted, appended-IsCounted,
}
use simple_mmo.Game.View.Counts.{
  SameObjects, SameObjects-trans, IsRounds, once, counted, IsRounds-same, IsRounds-trans,
  IsRounds-found,
}

minus_zero : (k : ℕ) → k - 0 ≡ k
minus_zero k = omega arith

minus_sum : (k m n : ℕ) → (k - m) - n ≡ k - (m + n)
minus_sum k m n = omega arith

plus_zero : (k : ℕ) → k + 0 ≡ k
plus_zero k = omega arith

plus_sum : (k m n : ℕ) → (k + m) + n ≡ k + (m + n)
plus_sum k m n = omega arith

-- How often an object is in the list of another after the subject's update `u`.
abbrev pub updated : ℕ → Bool → ViewUpdate → ℕ → ℕ → ℕ → ℕ
updated sid sight u i j old =
    counted ◌+◌ sid sight i j (λ k. count k u.entered)
      (counted ◌-◌ sid sight i j (λ k. count k u.leaved) old)

module _ ⦃fl : Floats⦄ where
  added : IsCounted appended (λ k. k + 1)
  added = record {
    other = appended-IsCounted.other;
    self = λ k l. appended-IsCounted.self k l ∙ omega arith;
  }

  leave_view-IsRounds :
      (s tid : ℕ) (r : Room) → Good s r → IsRounds ◌-◌ s (once tid) r (leave_view s tid r)
  unfolding leave_view
  leave_view-IsRounds s tid r (v, e) = elim (ℕ_discrete tid (r.heap s).info.id) [
    | yes same ↦
        rw (same, ==_refl (r.heap s).info.id)
          (IsRounds-same ◌-◌ minus_zero minus_sum remove_swap remove_swap-IsCounted s
            (once (r.heap s).info.id) r
            (λ i a p ne. rw (==_ne (r.heap s).info.id i (λ h. ne (sym h))) refl) (v, e))
    | no differ ↦ elim (Option-cases (find tid r.objects)) [
      | inl missing ↦
          rw (==_ne tid (r.heap s).info.id differ, missing)
            (IsRounds-same ◌-◌ minus_zero minus_sum remove_swap remove_swap-IsCounted s (once tid) r
              (λ i a p ne. ground (arith, ==_eq tid i)) (v, e))
      | inr (t, at_t) ↦
          rw (==_ne tid (r.heap s).info.id differ, at_t)
            (IsRounds-found ◌-◌ minus_zero minus_sum remove_swap remove_swap-IsCounted s tid t r _
              (v, e) differ at_t (leave_view_found-Changes s (r.heap s).info.id tid t r))
    ]
  ]

  enter_view-IsRounds :
      (add : Packet) (s tid : ℕ) (r : Room)
      → Good s r
      → IsRounds ◌+◌ s (once tid) r (enter_view add s tid r)
  unfolding enter_view
  enter_view-IsRounds add s tid r (v, e) = elim (ℕ_discrete tid (r.heap s).info.id) [
    | yes same ↦
        rw (same, ==_refl (r.heap s).info.id)
          (IsRounds-same ◌+◌ plus_zero plus_sum appended added s (once (r.heap s).info.id) r
            (λ i a p ne. rw (==_ne (r.heap s).info.id i (λ h. ne (sym h))) refl) (v, e))
    | no differ ↦ elim (Option-cases (find tid r.objects)) [
      | inl missing ↦
          rw (==_ne tid (r.heap s).info.id differ, missing)
            (IsRounds-same ◌+◌ plus_zero plus_sum appended added s (once tid) r
              (λ i a p ne. ground (arith, ==_eq tid i)) (v, e))
      | inr (t, at_t) ↦
          rw (==_ne tid (r.heap s).info.id differ, at_t)
            (IsRounds-found ◌+◌ plus_zero plus_sum appended added s tid t r _ (v, e) differ at_t
              (enter_view_found-Changes add s (r.heap s).info.id tid t r))
    ]
  ]

  leave_views-IsRounds :
      (s : ℕ) (ids : List ℕ) (r : Room)
      → Good s r
      → IsRounds ◌-◌ s (λ k. count k ids) r (leave_views s ids r)
  unfolding leave_views count
  leave_views-IsRounds s [] r g =
      IsRounds-same ◌-◌ minus_zero minus_sum remove_swap remove_swap-IsCounted s (λ k. 0) r
        (λ i a p ne. refl) g
  leave_views-IsRounds s (id ∷ ids) r g =
      let x = leave_view-IsRounds s id r g in
      IsRounds-trans ◌-◌ minus_zero minus_sum remove_swap remove_swap-IsCounted s (once id)
        (λ k. count k ids) r (leave_view s id r) _ x (leave_views-IsRounds s ids _ x.good)

  enter_views-IsRounds :
      (add : Packet) (s : ℕ) (ids : List ℕ) (r : Room)
      → Good s r
      → IsRounds ◌+◌ s (λ k. count k ids) r (enter_views add s ids r)
  unfolding enter_views count
  enter_views-IsRounds add s [] r g =
      IsRounds-same ◌+◌ plus_zero plus_sum appended added s (λ k. 0) r (λ i a p ne. refl) g
  enter_views-IsRounds add s (id ∷ ids) r g =
      let x = enter_view-IsRounds add s id r g in
      IsRounds-trans ◌+◌ plus_zero plus_sum appended added s (once id) (λ k. count k ids) r
        (enter_view add s id r) _ x (enter_views-IsRounds add s ids _ x.good)

  pub record IsUpdated (s : ℕ) (u : ViewUpdate) (r r' : Room) : Type 0 where
    pub same : SameObjects r r'
    pub good : Good s r'
    pub counts :
        (i j a b : ℕ)
        → find i r.objects ≡ some a
        → find j r.objects ≡ some b
        → count j (view_at r' a)
          ≡ updated
              (r.heap s).info.id
              (sees (kind_at r a) (kind_at r b))
              u
              i
              j
              (count j (view_at r a))
    pub strangers :
        (i j a : ℕ)
        → find i r.objects ≡ some a
        → find j r.objects ≡ none
        → count j (view_at r' a) ≡ count j (view_at r a)

  pub update_view-IsUpdated :
      (s : ℕ) (u : ViewUpdate) (r : Room) → Good s r → IsUpdated s u r (update_view s u r)
  unfolding update_view
  update_view-IsUpdated s u r g =
      let x = leave_views-IsRounds s u.leaved r g in
      let t = leave_views s u.leaved r in
      let add = sc_add_object (r.heap s).info in
      let y = enter_views-IsRounds add s u.entered t x.good in
      record {
        same = SameObjects-trans r t (enter_views add s u.entered t) x.same y.same;
        good = y.good;
        counts = λ i j a b p q.
            let later =
              rw (x.same.id s, x.same.kind a, x.same.kind b) at
                (y.counts i j a b (rw x.same.objects p) (rw x.same.objects q)) in
            later
            ∙ ap
                (counted ◌+◌ (r.heap s).info.id (sees (kind_at r a) (kind_at r b)) i j
                  (λ k. count k u.entered))
                (x.counts i j a b p q);
        strangers = λ i j a p q.
            y.strangers i j a (rw x.same.objects p) (rw x.same.objects q) ∙ x.strangers i j a p q;
      }
