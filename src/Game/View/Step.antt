-- ===== src/Game/View/Step.antt =====
-- What one round of the loops of `UpdateView` does to the view lists.
use simple_mmo.Prelude.{
  ℕ, Bool, true, false, Option, some, List, [], ◌∷◌, ◌++◌, ◌==◌, ◌&&◌, ◌||◌, if◌then◌else◌, refl,
  arith,
}
use simple_mmo.Game.Removal.{remove_swap}
use simple_mmo.Game.Floats.{Floats}
use simple_mmo.Game.Objects.{ObjectType, is_player, is_monster}
use simple_mmo.Game.World.{Packet, sc_add_object, sc_remove_object, Room, send_to}
use simple_mmo.Game.Monster.{wake_up_by_player, sleep_if_no_player}
use simple_mmo.Game.View.{
  remove_view, add_view, at_player, at_monster, subject_leaves, target_leaves, subject_enters,
  target_enters, leave_view_found, enter_view_found,
}
use simple_mmo.Game.View.Changes.{
  Changes, Keeps, Keeps-refl, Keeps-if, Keeps-send_to, Keeps-wake_up_by_player,
  Keeps-sleep_if_no_player, Changes-trans,
}

-- Whether an object of the first kind keeps one of the second in its view list.
abbrev pub sees : ObjectType → ObjectType → Bool
sees k l = is_player k || (is_monster k && is_player l)

abbrev pub only_at : Bool → ℕ → (List ℕ → List ℕ) → ℕ → List ℕ → List ℕ
only_at c a g b l = if c && (a == b) then g l else l

abbrev pub appended : ℕ → List ℕ → List ℕ
appended id l = l ++ id ∷ []

module _ ⦃fl : Floats⦄ where
  -- Both sides of one round: the subject's list changes by `g target_id`, the target's by
  -- `g subject_id`, each if it sees the other's kind.
  abbrev pub both_sides : (ℕ → List ℕ → List ℕ) → ℕ → ℕ → ℕ → ℕ → Room → ℕ → List ℕ → List ℕ
  both_sides g subject subject_id target target_id r b l =
      let k = (r.heap subject).info.object_type in
      let m = (r.heap target).info.object_type in
      only_at (sees m k) target (g subject_id) b (only_at (sees k m) subject (g target_id) b l)

  remove_view-Changes :
      (a id : ℕ) (r : Room) → Changes (only_at true a (remove_swap id)) r (remove_view a id r)
  unfolding remove_view
  remove_view-Changes a id r = record {
    objects = refl;
    map = refl;
    id = λ b. ground arith;
    kind = λ b. ground arith;
    view = λ b. ground arith;
    stat = λ b. ground arith;
  }

  add_view-Changes :
      (a id : ℕ) (r : Room) → Changes (only_at true a (appended id)) r (add_view a id r)
  unfolding add_view
  add_view-Changes a id r = record {
    objects = refl;
    map = refl;
    id = λ b. ground arith;
    kind = λ b. ground arith;
    view = λ b. ground arith;
    stat = λ b. ground arith;
  }

  Changes-if :
      (c : Bool) (a : ℕ) (g : List ℕ → List ℕ) (r s : Room)
      → Changes (only_at true a g) r s
      → Changes (only_at c a g) r (if c then s else r)
  Changes-if true a g r s p = p
  Changes-if false a g r s p = Keeps-refl r

  -- A change of one list, and then a tail that keeps all lists.
  Changes-tail :
      (a : ℕ) (g : List ℕ → List ℕ) (r s t : Room)
      → Changes (only_at true a g) r s
      → Keeps s t
      → Changes (only_at true a g) r t
  Changes-tail a g r s t p q = Changes-trans (only_at true a g) (λ b l. l) r s t p q

  tail-Keeps :
      (c d : Bool) (r s : Room) (session : Option ℕ) (p : Packet)
      → Keeps r s
      → Keeps r (if c then s else (if d then send_to session p r else r))
  tail-Keeps c d r s session p q =
      Keeps-if c r s _ q (Keeps-if d r _ r (Keeps-send_to session p r) (Keeps-refl r))

  subject_leaves-Changes :
      (s t tid : ℕ) (r : Room)
      → Changes
          (only_at
            (sees (r.heap s).info.object_type (r.heap t).info.object_type)
            s
            (remove_swap tid))
          r
          (subject_leaves s t tid r)
  unfolding subject_leaves
  subject_leaves-Changes s t tid r =
      let r' = remove_view s tid r in
      Changes-if (sees (r.heap s).info.object_type (r.heap t).info.object_type) s (remove_swap tid)
        r _
        (Changes-tail s (remove_swap tid) r r' _ (remove_view-Changes s tid r) (
          tail-Keeps (at_monster s r' && at_player t r') (at_player s r') r'
            (sleep_if_no_player s r') (r'.heap s).session (sc_remove_object tid)
            (Keeps-sleep_if_no_player s r')))

  subject_enters-Changes :
      (s t tid : ℕ) (r : Room)
      → Changes
          (only_at (sees (r.heap s).info.object_type (r.heap t).info.object_type) s (appended tid))
          r
          (subject_enters s t tid r)
  unfolding subject_enters
  subject_enters-Changes s t tid r =
      let r' = add_view s tid r in
      Changes-if (sees (r.heap s).info.object_type (r.heap t).info.object_type) s (appended tid) r _
        (Changes-tail s (appended tid) r r' _ (add_view-Changes s tid r) (
          tail-Keeps (at_monster s r' && at_player t r') (at_player s r') r'
            (wake_up_by_player s r') (r'.heap s).session (sc_add_object (r'.heap t).info)
            (Keeps-wake_up_by_player s r')))

  target_leaves-Changes :
      (s sid t : ℕ) (r : Room)
      → Changes
          (only_at
            (sees (r.heap t).info.object_type (r.heap s).info.object_type)
            t
            (remove_swap sid))
          r
          (target_leaves s sid t r)
  unfolding target_leaves
  target_leaves-Changes s sid t r =
      let r' = remove_view t sid r in
      Changes-if (sees (r.heap t).info.object_type (r.heap s).info.object_type) t (remove_swap sid)
        r _
        (Changes-tail t (remove_swap sid) r r' _ (remove_view-Changes t sid r) (
          tail-Keeps (at_monster t r' && at_player s r') (at_player t r') r'
            (sleep_if_no_player t r') (r'.heap t).session (sc_remove_object sid)
            (Keeps-sleep_if_no_player t r')))

  target_enters-Changes :
      (add : Packet) (s sid t : ℕ) (r : Room)
      → Changes
          (only_at (sees (r.heap t).info.object_type (r.heap s).info.object_type) t (appended sid))
          r
          (target_enters add s sid t r)
  unfolding target_enters
  target_enters-Changes add s sid t r =
      let r' = add_view t sid r in
      Changes-if (sees (r.heap t).info.object_type (r.heap s).info.object_type) t (appended sid) r _
        (Changes-tail t (appended sid) r r' _ (add_view-Changes t sid r) (
          tail-Keeps (at_monster t r' && at_player s r') (at_player t r') r'
            (wake_up_by_player t r') (r'.heap t).session add (Keeps-wake_up_by_player t r')))

  -- The second side runs in the state that the first leaves, where the kinds are the same.
  second-side :
      (g : ℕ → List ℕ → List ℕ) (s sid t tid : ℕ) (r r1 r2 : Room)
      → Changes
          (only_at (sees (r.heap s).info.object_type (r.heap t).info.object_type) s (g tid))
          r
          r1
      → Changes
          (only_at (sees (r1.heap t).info.object_type (r1.heap s).info.object_type) t (g sid))
          r1
          r2
      → Changes (both_sides g s sid t tid r) r r2
  second-side g s sid t tid r r1 r2 p q =
      Changes-trans
        (only_at (sees (r.heap s).info.object_type (r.heap t).info.object_type) s (g tid))
        (only_at (sees (r.heap t).info.object_type (r.heap s).info.object_type) t (g sid)) r r1 r2 p
        (rw (p.kind t, p.kind s) at q)

  pub leave_view_found-Changes :
      (s sid tid t : ℕ) (r : Room)
      → Changes (both_sides remove_swap s sid t tid r) r (leave_view_found s sid tid (some t) r)
  leave_view_found-Changes s sid tid t r =
      second-side remove_swap s sid t tid r (subject_leaves s t tid r) _
        (subject_leaves-Changes s t tid r)
        (target_leaves-Changes s sid t (subject_leaves s t tid r))

  pub enter_view_found-Changes :
      (add : Packet) (s sid tid t : ℕ) (r : Room)
      → Changes (both_sides appended s sid t tid r) r (enter_view_found add s sid tid (some t) r)
  enter_view_found-Changes add s sid tid t r =
      second-side appended s sid t tid r (subject_enters s t tid r) _
        (subject_enters-Changes s t tid r)
        (target_enters-Changes add s sid t (subject_enters s t tid r))
