-- ===== src/Game/View/Counts.antt =====
-- How often objects are listed after the loops of `Room::UpdateView` (Room.cpp), from what the loops
-- are given.
use simple_mmo.Prelude.{
  ℕ, ◌+◌, Bool, none, some, List, ◌==◌, ◌&&◌, if◌then◌else◌, not, ◌≡◌, ◌≢◌, refl, sym, ap₂, ◌∙◌,
  Dict, arith, find,
}
use simple_mmo.Game.Removal.{count}
use simple_mmo.Game.Floats.{Floats}
use simple_mmo.Game.World.{Room}
use simple_mmo.Game.View.Changes.{Changes}
use simple_mmo.Game.View.Step.{sees, both_sides}
use simple_mmo.Game.View.Symmetry.{
  Good, kind_at, view_at, IsCounted, count_after, both_sides-Views, Registered-Changes,
}

-- How often `j` is in the list of `i` after `n i` and `n j` more or fewer occurrences, where one of
-- the two is the subject and the list's owner sees the kind of the other.
abbrev pub counted : (ℕ → ℕ → ℕ) → ℕ → Bool → ℕ → ℕ → (ℕ → ℕ) → ℕ → ℕ
counted op sid sight i j n old =
    if (i == sid) && not (j == sid)
    then (if sight then op old (n j) else old)
    else (if (j == sid) && not (i == sid) then (if sight then op old (n i) else old) else old)

abbrev pub once : ℕ → ℕ → ℕ
once tid k = if tid == k then 1 else 0

same_found : (m : Dict ℕ) (i j a b : ℕ) → find i m ≡ some a → find j m ≡ some b → i ≡ j → a ≡ b
same_found m i j a b p q e = ground arith

module _ ⦃fl : Floats⦄ where
  -- The rooms agree on the objects, their ids, kinds and stats.
  pub record SameObjects (r r' : Room) : Type 0 where
    pub objects : r'.objects ≡ r.objects
    pub map : r'.game_map ≡ r.game_map
    pub id : (b : ℕ) → (r'.heap b).info.id ≡ (r.heap b).info.id
    pub kind : (b : ℕ) → (r'.heap b).info.object_type ≡ (r.heap b).info.object_type

  pub SameObjects-refl : (r : Room) → SameObjects r r
  SameObjects-refl r = record { objects = refl; map = refl; id = λ b. refl; kind = λ b. refl }

  pub SameObjects-trans : (r s t : Room) → SameObjects r s → SameObjects s t → SameObjects r t
  SameObjects-trans r s t p q = record {
    objects = q.objects ∙ p.objects;
    map = q.map ∙ p.map;
    id = λ b. q.id b ∙ p.id b;
    kind = λ b. q.kind b ∙ p.kind b;
  }

  -- What the rounds of a loop of the subject `s` do, with the numbers that they are given.
  pub record IsRounds (op : ℕ → ℕ → ℕ) (s : ℕ) (n : ℕ → ℕ) (r r' : Room) : Type 0 where
    pub same : SameObjects r r'
    pub good : Good s r'
    pub counts :
        (i j a b : ℕ)
        → find i r.objects ≡ some a
        → find j r.objects ≡ some b
        → count j (view_at r' a)
          ≡ counted op
              (r.heap s).info.id
              (sees (kind_at r a) (kind_at r b))
              i
              j
              n
              (count j (view_at r a))
    pub strangers :
        (i j a : ℕ)
        → find i r.objects ≡ some a
        → find j r.objects ≡ none
        → count j (view_at r' a) ≡ count j (view_at r a)

  module _ (op : ℕ → ℕ → ℕ) (op_zero : (k : ℕ) → op k 0 ≡ k)
      (op_sum : (k m n : ℕ) → op (op k m) n ≡ op k (m + n)) (g : ℕ → List ℕ → List ℕ)
      (w : IsCounted g (λ k. op k 1)) (s : ℕ) where
    pub IsRounds-same :
        (n : ℕ → ℕ) (r : Room)
        → ((i a : ℕ) → find i r.objects ≡ some a → i ≢ (r.heap s).info.id → n i ≡ 0)
        → Good s r
        → IsRounds op s n r r
    IsRounds-same n r z v = record {
      same = SameObjects-refl r;
      good = v;
      counts = λ i j a b p q. ground (arith, z i a p, z j b q, op_zero (count j (view_at r a)));
      strangers = λ i j a p q. refl;
    }

    pub IsRounds-trans :
        (n m : ℕ → ℕ) (r t u : Room)
        → IsRounds op s n r t
        → IsRounds op s m t u
        → IsRounds op s (λ k. n k + m k) r u
    IsRounds-trans n m r t u x y = record {
      same = SameObjects-trans r t u x.same y.same;
      good = y.good;
      counts = λ i j a b p q.
          let later =
            rw (x.same.id s, x.same.kind a, x.same.kind b) at
              (y.counts i j a b (rw x.same.objects p) (rw x.same.objects q)) in
          ground (
            arith,
            later,
            x.counts i j a b p q,
            op_sum (count j (view_at r a)) (n i) (m i),
            op_sum (count j (view_at r a)) (n j) (m j),
          );
      strangers = λ i j a p q.
          y.strangers i j a (rw x.same.objects p) (rw x.same.objects q) ∙ x.strangers i j a p q;
    }

    one_round :
        (st ts ab : Bool) (i j sid tid old : ℕ)
        → sid ≢ tid
        → (i ≡ sid → j ≡ tid → ab ≡ st)
        → (i ≡ tid → j ≡ sid → ab ≡ ts)
        → (if (st && (sid == i)) && (j == tid)
            then op old 1
            else (if (ts && (tid == i)) && (j == sid) then op old 1 else old))
          ≡ counted op sid ab i j (once tid) old
    one_round st ts ab i j sid tid old differ x y = ground (arith, op_zero old)

    pub IsRounds-found :
        (tid t : ℕ) (r r' : Room)
        → Good s r
        → tid ≢ (r.heap s).info.id
        → find tid r.objects ≡ some t
        → Changes (both_sides g s (r.heap s).info.id t tid r) r r'
        → IsRounds op s (once tid) r r'
    IsRounds-found tid t r r' (v, e) ne at_t c =
        let sid = (r.heap s).info.id in
        let differ : sid ≢ tid = λ h. ne (sym h) in
        record {
          same = record { objects = c.objects; map = c.map; id = c.id; kind = c.kind };
          good = (
            both_sides-Views g (λ k. op k 1) w s sid t tid r r' c v e at_t differ,
            Registered-Changes _ s r r' c e,
          );
          counts = λ i j a b p q.
              count_after g (λ k. op k 1) w s sid t tid r r' c v e at_t differ i j a p
              ∙ one_round (sees (kind_at r s) (kind_at r t)) (sees (kind_at r t) (kind_at r s))
                  (sees (kind_at r a) (kind_at r b)) i j sid tid (count j (view_at r a)) differ
                  (λ x y.
                    ap₂ (λ k l. sees (kind_at r k) (kind_at r l))
                      (same_found r.objects i sid a s p e x)
                      (same_found r.objects j tid b t q at_t y))
                  (λ x y.
                    ap₂ (λ k l. sees (kind_at r k) (kind_at r l))
                      (same_found r.objects i tid a t p at_t x)
                      (same_found r.objects j sid b s q e y));
          strangers = λ i j a p q. ground (
            arith,
            count_after g (λ k. op k 1) w s sid t tid r r' c v e at_t differ i j a p,
            e,
            at_t,
          );
        }
