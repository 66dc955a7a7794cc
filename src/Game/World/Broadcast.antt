-- ===== src/Game/World/Broadcast.antt =====
-- Room::Broadcast and Room::BroadcastAOI (Room.cpp).
use simple_mmo.Prelude.{ℕ, Bool, Option, none, some, List, [], ◌∷◌, ◌&&◌, if◌then◌else◌, Dict}
use simple_mmo.Game.Floats.{Floats}
use simple_mmo.Game.Objects.{is_player}
use simple_mmo.Game.World.{Packet, Room, send_to, id_to_player}

module _ ⦃fl : Floats⦄ where
  -- To the session of the player at an address, if there is one.
  abbrev pub send_to_player : Option ℕ → Packet → Room → Room
  send_to_player none p r = r
  send_to_player (some a) p r = send_to (r.heap a).session p r

  unfoldable pub broadcast_to : Dict ℕ → Packet → Room → Room
  broadcast_to [] p r = r
  broadcast_to ((id, a) ∷ players) p r = broadcast_to players p (send_to (r.heap a).session p r)

  unfoldable pub broadcast : Packet → Room → Room
  unfolding broadcast_to
  broadcast p r = broadcast_to r.players p r

  unfoldable pub broadcast_to_view : List ℕ → Packet → Room → Room
  broadcast_to_view [] p r = r
  broadcast_to_view (id ∷ ids) p r =
      broadcast_to_view ids p (send_to_player (id_to_player id r) p r)

  unfoldable pub broadcast_aoi : ℕ → Packet → Bool → Room → Room
  broadcast_aoi a p send_to_self r =
      let r' =
        if send_to_self && is_player (r.heap a).info.object_type
        then send_to (r.heap a).session p r
        else r in
      broadcast_to_view (r.heap a).view_list p r'
