-- ===== src/Game/World.antt =====
-- The state of a room (Room.h) with the objects that its maps point to, and what the room sends.
-- Objects are shared: the maps hold addresses. A handler reads the clock once.
pub mod Broadcast
pub mod Sends
use simple_mmo.Prelude.{
  ℕ, Bool, Option, none, some, List, [], ◌∷◌, ◌++◌, Dict, find, ◌==◌, if◌then◌else◌,
}
use simple_mmo.Prelude.Int.{ℤ}
use simple_mmo.Game.Floats.{Floats}
use simple_mmo.Game.Objects.{Object, ObjectInfo}
use simple_mmo.Game.GameMap.{GameMap}

-- The jobs of a room: a handler and its arguments. Players and monsters are addresses.
pub data Job : Type 0 where
  execute_skill_hit : ℕ → ℕ → ℕ → Job
  apply_delayed_damage : ℕ → ℕ → ℤ → Job
  update : ℕ → Job

module _ ⦃fl : Floats⦄ where
  -- PacketSerializer.h, by the fields of each packet.
  pub data Packet : Type 0 where
    sc_add_object : ObjectInfo → Packet
    sc_remove_object : ℕ → Packet
    sc_move_object : ObjectInfo → ℕ → Packet
    sc_attack : ℕ → ℕ → ℕ → Packet
    sc_damage : ℕ → ℕ → ℤ → ℤ → Packet
    sc_dead : ℕ → Packet

  pub record Room : Type 0 where
    pub objects : Dict ℕ
    pub players : Dict ℕ
    pub monsters : Dict ℕ
    pub game_map : GameMap
    -- the object at each address
    pub heap : ℕ → Object
    pub now : ℕ
    -- `Session::Send`, with the session, and `ReserveJob`, with the delay; oldest first
    pub sends : List (ℕ × Packet)
    pub reserved : List (ℕ × Job)

  abbrev pub update_at : ℕ → (Object → Object) → Room → Room
  update_at a f r = record r { heap = λ b. if a == b then f (r.heap b) else r.heap b }

  -- `if (auto session = player->GetSession()) session->Send(packet)`
  abbrev pub send_to : Option ℕ → Packet → Room → Room
  send_to none p r = r
  send_to (some s) p r = record r { sends = r.sends ++ (s, p) ∷ [] }

  abbrev pub reserve_job : ℕ → Job → Room → Room
  reserve_job delay job r = record r { reserved = r.reserved ++ (delay, job) ∷ [] }

  -- `Room::GetGameObject`, `Id2Player` and `Id2Monster`.
  abbrev pub get_game_object : ℕ → Room → Option ℕ
  get_game_object id r = find id r.objects

  abbrev pub id_to_player : ℕ → Room → Option ℕ
  id_to_player id r = find id r.players

  abbrev pub id_to_monster : ℕ → Room → Option ℕ
  id_to_monster id r = find id r.monsters
