-- ===== src/Game/Navmesh.antt =====
-- NavmeshManager.h and NavmeshManager.cpp: questions to the navigation mesh, over Detour's queries,
-- which are a parameter. Detour's status is `none` where a query fails.
pub mod RoundTrip
use simple_mmo.Prelude.{
  ℕ, Bool, true, false, Option, none, some, List, [], ◌∷◌, ◌++◌, ◌||◌, ◌==◌, if◌then◌else◌, map,
}
use simple_mmo.Game.Floats.{Floats}
use simple_mmo.Game.Objects.{PositionInfo}

module _ ⦃fl : Floats⦄ where
  open fl use {F, ratio, mul, lt, le, neg}

  -- A `float[3]`.
  pub record Point : Type 0 where
    pub p0 : F
    pub p1 : F
    pub p2 : F

  -- `dtNavMeshQuery` with the filter, `dtVlerp` and `dtVdistSqr`. A polygon's reference 0 is none.
  pub record Detour : Type 0 where
    -- whether the mesh has been loaded
    pub loaded : Bool
    pub find_nearest_poly : Point → Point → ℕ × Point
    -- how far a ray from a start towards an end comes, between 0 and 1
    pub ray : ℕ → Point → Point → Option F
    -- the polygons of a path, and its corners
    pub find_path_polys : ℕ → ℕ → Point → Point → List ℕ
    pub find_straight_path : Point → Point → List ℕ → List Point
    pub lerp : Point → Point → F → Point
    pub dist_sqr : Point → Point → F

  unfoldable pub ue_to_detour : PositionInfo → Point
  ue_to_detour p = record { p0 = p.y; p1 = p.z; p2 = neg p.x }

  unfoldable pub detour_to_ue : Point → PositionInfo → PositionInfo
  detour_to_ue q p = record p { x = neg q.p2; y = q.p0; z = q.p1 }

  abbrev pub extents : ℕ → ℕ → Point
  extents wide high = record { p0 = ratio wide 1; p1 = ratio high 1; p2 = ratio wide 1 }

  -- A `PositionInfo` that was not initialised holds values that the C++ leaves open.
  module _ (d : Detour) where
    unfoldable pub is_out_of_bounds : PositionInfo → Bool
    is_out_of_bounds p =
        let (nearest, _) = d.find_nearest_poly (ue_to_detour p) (extents 200 400) in
        if d.loaded then nearest == 0 else true

    abbrev pub near_enough : Point → Point → Option F → Bool
    near_enough start dest none = false
    near_enough start dest (some t) =
        if le (ratio 1 1) t
        then true
        else lt (d.dist_sqr (d.lerp start dest t) dest) (mul (ratio 100 1) (ratio 100 1))

    unfoldable pub can_move : PositionInfo → PositionInfo → Bool
    can_move start dest =
        let d_dest = ue_to_detour dest in
        let (start_ref, nearest) = d.find_nearest_poly (ue_to_detour start) (extents 100 200) in
        if d.loaded
        then (if start_ref == 0
            then false
            else near_enough nearest d_dest (d.ray start_ref nearest d_dest))
        else false

    abbrev pub far_enough : Option F → Bool
    far_enough none = false
    far_enough (some t) = le (ratio 95 100) t

    unfoldable pub ray_cast : PositionInfo → PositionInfo → Bool
    ray_cast start dest =
        let d_dest = ue_to_detour dest in
        let (start_ref, nearest) = d.find_nearest_poly (ue_to_detour start) (extents 50 100) in
        if d.loaded
        then (if start_ref == 0 then false else far_enough (d.ray start_ref nearest d_dest))
        else false

    abbrev pub corners :
        Point → Point → List ℕ → PositionInfo → List PositionInfo → Bool × List PositionInfo
    corners start end [] blank out = (false, out)
    corners start end (poly ∷ polys) blank out = (
      true,
      out ++ map (λ q. detour_to_ue q blank) (d.find_straight_path start end (poly ∷ polys)),
    )

    -- `FindPath`, with what `outPath` held before and the value of a fresh `PositionInfo`.
    unfoldable pub find_path :
        PositionInfo → PositionInfo → PositionInfo → List PositionInfo → Bool × List PositionInfo
    find_path blank start dest out =
        let (start_ref, from) = d.find_nearest_poly (ue_to_detour start) (extents 100 200) in
        let (end_ref, to) = d.find_nearest_poly (ue_to_detour dest) (extents 100 200) in
        if d.loaded
        then (if (start_ref == 0) || (end_ref == 0)
            then (false, out)
            else corners from to (d.find_path_polys start_ref end_ref from to) blank out)
        else (false, out)
