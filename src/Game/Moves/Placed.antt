-- ===== src/Game/Moves/Placed.antt =====
-- Rooms whose registered objects all have a place on the map, and which room and map agree about.
use simple_mmo.Prelude.{
  ℕ, Dict, none, some, [], ◌∷◌, ◌≡◌, refl, arith, find, erase, find-erase, ==_refl, ==_ne,
  ℕ_discrete, ◌==◌, Bool-cases, inl, inr,
}
use simple_mmo.Game.GameMap.{CellPos}
use simple_mmo.Game.GameMap.Occupancy.{Places, put_at, take_off}

-- No key stands twice in the map of objects.
unfoldable pub IsDistinct : Dict ℕ → Type 0
IsDistinct [] = Unit
IsDistinct ((k, a) ∷ m) = (find k m ≡ none) × IsDistinct m

-- Every entry is the one that is found under its key.
unfoldable pub AllFound : Dict ℕ → Dict ℕ → Type 0
AllFound [] m = Unit
AllFound ((i, a) ∷ os) m = (find i m ≡ some a) × AllFound os m

AllFound-front :
    (k b : ℕ) (os m : Dict ℕ) → find k m ≡ none → AllFound os m → AllFound os ((k, b) ∷ m)
unfolding AllFound find
AllFound-front k b [] m fresh w = tt
AllFound-front k b ((i, a) ∷ os) m fresh (here, w) =
    (ground (arith, fresh, here, ==_refl k), AllFound-front k b os m fresh w)

pub IsDistinct-AllFound : (m : Dict ℕ) → IsDistinct m → AllFound m m
unfolding AllFound IsDistinct find
IsDistinct-AllFound [] w = tt
IsDistinct-AllFound ((k, a) ∷ m) (fresh, w) =
    (rw (==_refl k) refl, AllFound-front k a m m fresh (IsDistinct-AllFound m w))

IsDistinct-erase : (id : ℕ) (m : Dict ℕ) → IsDistinct m → IsDistinct (erase id m)
unfolding IsDistinct erase
IsDistinct-erase id [] w = tt
IsDistinct-erase id ((k, a) ∷ m) (fresh, w) = elim (Bool-cases (k == id)) [
  | inl same ↦ rw same (IsDistinct-erase id m w)
  | inr other ↦ rw other (ground (arith, find-erase id k m, fresh), IsDistinct-erase id m w)
]

-- The objects have different ids, and each has a place.
pub record Placed (objects : Dict ℕ) (f : Places) : Type 0 where
  pub distinct : IsDistinct objects
  pub place : (i a : ℕ) → find i objects ≡ some a → (c : CellPos) × (f i ≡ some c)

pub Placed-put_at :
    (id : ℕ) (c : CellPos) (objects : Dict ℕ) (f : Places)
    → Placed objects f
    → Placed objects (put_at id c f)
Placed-put_at id c objects f w = record {
  distinct = w.distinct;
  place = λ i a p. elim (Bool-cases (i == id)) [
    | inl same ↦ (c, ground (arith, same))
    | inr other ↦ let (d, q) = w.place i a p in (d, ground (arith, other, q))
  ];
}

pub Placed-front :
    (id a : ℕ) (c : CellPos) (objects : Dict ℕ) (f : Places)
    → find id objects ≡ none
    → Placed objects f
    → Placed ((id, a) ∷ objects) (put_at id c f)
unfolding IsDistinct find
Placed-front id a c objects f fresh w = record {
  distinct = (fresh, w.distinct);
  place = λ i b p. elim (ℕ_discrete i id) [
    | yes e ↦ (c, ground (arith, e, ==_refl id))
    | no ne ↦
        let (d, q) = w.place i b (ground (arith, p, ==_ne i id ne)) in
        (d, ground (arith, q, ==_ne i id ne))
  ];
}

pub Placed-erase :
    (id : ℕ) (objects : Dict ℕ) (f : Places)
    → Placed objects f
    → Placed (erase id objects) (take_off id f)
Placed-erase id objects f w = record {
  distinct = IsDistinct-erase id objects w.distinct;
  place = λ i a p. elim (ℕ_discrete i id) [
    | yes e ↦ absurd (ground (arith, find-erase id i objects, e, p, ==_refl id))
    | no ne ↦
        let (d, q) = w.place i a (ground (arith, find-erase id i objects, p, ==_ne i id ne)) in
        (d, ground (arith, q, ==_ne i id ne))
  ];
}
