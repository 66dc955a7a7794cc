-- ===== src/Game/Navmesh/RoundTrip.antt =====
-- The change of coordinates between the game's and Detour's axes.
use simple_mmo.Prelude.{◌≡◌, ap}
use simple_mmo.Game.Floats.{Floats}
use simple_mmo.Game.Objects.{PositionInfo}
use simple_mmo.Game.Navmesh.{Point, ue_to_detour, detour_to_ue}

module _ ⦃fl : Floats⦄ where
  -- If negating a float twice gives it back, a position goes to Detour's axes and back unchanged, and
  -- so does a point of Detour's.
  pub detour_to_ue-ue_to_detour :
      (negated_twice : (a : fl.F) → fl.neg (fl.neg a) ≡ a)
      → (p : PositionInfo) (q : Point)
      → (detour_to_ue (ue_to_detour p) p ≡ p) × (ue_to_detour (detour_to_ue q p) ≡ q)
  unfolding detour_to_ue ue_to_detour
  detour_to_ue-ue_to_detour negated_twice p q = (
    ap (λ a. record p { x = a }) (negated_twice p.x),
    ap (λ a. record q { p2 = a }) (negated_twice q.p2),
  )
