-- ===== src/Game/World/Sends.antt =====
-- What `Session::Send` from a room leaves as it is (Room.cpp).
use simple_mmo.Prelude.{
  ℕ, Bool, Option, none, some, List, [], ◌∷◌, ◌&&◌, ◌≡◌, refl, ◌∙◌, Bool-cases, inl, inr,
}
use simple_mmo.Game.Floats.{Floats}
use simple_mmo.Game.Objects.{is_player}
use simple_mmo.Game.World.{Packet, Room, send_to, id_to_player}
use simple_mmo.Game.World.Broadcast.{broadcast_aoi, broadcast_to_view, send_to_player}

module _ ⦃fl : Floats⦄ where
  heap-send_to : (s : Option ℕ) (p : Packet) (r : Room) → (send_to s p r).heap ≡ r.heap
  heap-send_to none p r = refl
  heap-send_to (some s) p r = refl

  heap-send_to_player :
      (a : Option ℕ) (p : Packet) (r : Room) → (send_to_player a p r).heap ≡ r.heap
  heap-send_to_player none p r = refl
  heap-send_to_player (some a) p r = heap-send_to (r.heap a).session p r

  heap-broadcast_to_view :
      (ids : List ℕ) (p : Packet) (r : Room) → (broadcast_to_view ids p r).heap ≡ r.heap
  unfolding broadcast_to_view
  heap-broadcast_to_view [] p r = refl
  heap-broadcast_to_view (id ∷ ids) p r =
      heap-broadcast_to_view ids p (send_to_player (id_to_player id r) p r)
      ∙ heap-send_to_player (id_to_player id r) p r

  -- A broadcast changes no object.
  pub heap-broadcast_aoi :
      (a : ℕ) (p : Packet) (self : Bool) (r : Room) → (broadcast_aoi a p self r).heap ≡ r.heap
  unfolding broadcast_aoi
  heap-broadcast_aoi a p self r =
      elim (Bool-cases (self && is_player (r.heap a).info.object_type)) [
        | inl h ↦ rw h (heap-broadcast_to_view _ p _ ∙ heap-send_to (r.heap a).session p r)
        | inr h ↦ rw h (heap-broadcast_to_view _ p _)
      ]
