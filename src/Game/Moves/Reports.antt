-- ===== src/Game/Moves/Reports.antt =====
-- What the reports of EnterMap, UpdateMap and LeaveMap (GameMap.cpp) say of the sight of the object
-- that enters, moves or leaves.
use simple_mmo.Prelude.{
  ℕ, ◌+◌, ◌-◌, Bool, Option, none, some, [], ◌&&◌, not, if◌then◌else◌, ◌≡◌, ◌≢◌, refl, sym, arith,
  ==_refl, ==_ne,
}
use simple_mmo.Game.Removal.{count}
use simple_mmo.Game.GameMap.{CellPos, ViewUpdate}
use simple_mmo.Game.GameMap.Sight.{in_sight}
use simple_mmo.Game.GameMap.Occupancy.{Places, put_at, take_off}
use simple_mmo.Game.GameMap.Report.{seen_from, newly_seen}
use simple_mmo.Game.GameMap.Leave.{seen_by}
use simple_mmo.Game.Moves.Shown.{IsReport}

put_at_other : (id : ℕ) (c : CellPos) (f : Places) (k : ℕ) → k ≢ id → put_at id c f k ≡ f k
put_at_other id c f k ne = rw (==_ne id k (λ e. ne (sym e))) refl

take_off_other : (id : ℕ) (f : Places) (k : ℕ) → k ≢ id → take_off id f k ≡ f k
take_off_other id f k ne = rw (==_ne id k (λ e. ne (sym e))) refl

pub entered-IsReport :
    (w h id : ℕ) (c : CellPos) (f : Places) (u : ViewUpdate)
    → f id ≡ none
    → ((k : ℕ) → count k u.entered ≡ seen_from w h c (put_at id c f k))
    → u.leaved ≡ []
    → IsReport w h id f (put_at id c f) u
unfolding count
entered-IsReport w h id c f u new e l = record {
  others = put_at_other id c f;
  change = λ k ne. rw (new, l, e k, ==_refl id) (omega arith);
}

sights :
    (p q : Bool)
    → (if p then 1 else 0) - (if p && not q then 1 else 0) + (if q && not p then 1 else 0)
      ≡ (if q then 1 else 0)
sights p q = ground arith

sight_moves :
    (w h : ℕ) (b c : CellPos) (o : Option CellPos)
    → seen_from w h b o - newly_seen w h c b o + newly_seen w h b c o ≡ seen_from w h c o
sight_moves w h b c none = refl
sight_moves w h b c (some d) = sights (in_sight w h b d) (in_sight w h c d)

pub moved-IsReport :
    (w h id : ℕ) (b c : CellPos) (f : Places) (u : ViewUpdate)
    → f id ≡ some b
    → ((k : ℕ) → count k u.entered ≡ newly_seen w h b c (put_at id c f k))
    → ((k : ℕ) → count k u.leaved ≡ newly_seen w h c b (put_at id c f k))
    → IsReport w h id f (put_at id c f) u
moved-IsReport w h id b c f u here e l = record {
  others = put_at_other id c f;
  change = λ k ne.
      rw (here, l k, e k, ==_refl id, ==_ne id k (λ q. ne (sym q))) (sight_moves w h b c (f k));
}

pub left-IsReport :
    (w h id : ℕ) (f : Places) (u : ViewUpdate)
    → ((k : ℕ) → count k u.leaved ≡ seen_by w h (f id) (take_off id f k))
    → u.entered ≡ []
    → IsReport w h id f (take_off id f) u
unfolding count
left-IsReport w h id f u l e = record {
  others = take_off_other id f;
  change = λ k ne. rw (e, l k, ==_refl id, ==_ne id k (λ q. ne (sym q))) (omega arith);
}
