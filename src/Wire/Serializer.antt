-- ===== src/Wire/Serializer.antt =====
-- PacketSerializer.cpp: each function fills a packed struct of TestProtocol.h and copies it into a
-- SendBuffer of its size.
use simple_mmo.Prelude.{ℕ, List, []}
use simple_mmo.Prelude.Int.{ℤ}
use simple_mmo.Game.Floats.{Floats}
use simple_mmo.Game.Objects.{ObjectInfo}
use simple_mmo.Game.World.{
  Packet, sc_add_object, sc_remove_object, sc_move_object, sc_attack, sc_damage, sc_dead,
}
use simple_mmo.Net.SendBuffer.{SendBuffer, copy_data}
use simple_mmo.Net.SendBuffer
use simple_mmo.Wire.Bytes.{write_u16, write_u32, write_int}
use simple_mmo.Wire.Layout.{FloatBits, write_id, write_info}

-- SC_PACKET_LIST
abbrev pub add_object_type : ℕ
add_object_type = 3

abbrev pub remove_object_type : ℕ
remove_object_type = 4

abbrev pub move_object_type : ℕ
move_object_type = 6

abbrev pub attack_type : ℕ
attack_type = 8

abbrev pub damage_type : ℕ
damage_type = 9

abbrev pub dead_type : ℕ
dead_type = 10

-- `packet.header = { size, type }`
unfoldable pub write_header : ℕ → ℕ → List ℕ → List ℕ
write_header size type rest = write_u16 size (write_u16 type rest)

-- `make_shared<SendBuffer>(size)` and `CopyData(&packet, size)`.
abbrev pub buffer_of : ℕ → List ℕ → SendBuffer
buffer_of size bytes = copy_data bytes size (SendBuffer.make size)

module _ ⦃fl : Floats⦄ ⦃bits : FloatBits⦄ where
  unfoldable pub make_sc_add_object : ObjectInfo → SendBuffer
  make_sc_add_object o = buffer_of 68 (write_header 68 add_object_type (write_info o []))

  unfoldable pub make_sc_remove_object : ℕ → SendBuffer
  make_sc_remove_object id = buffer_of 8 (write_header 8 remove_object_type (write_id id []))

  unfoldable pub make_sc_move_object : ObjectInfo → ℕ → SendBuffer
  make_sc_move_object o time =
      buffer_of 72 (write_header 72 move_object_type (write_info o (write_u32 time [])))

  unfoldable pub make_sc_attack : ℕ → ℕ → ℕ → SendBuffer
  make_sc_attack attacker skill target =
      buffer_of 16
        (write_header 16 attack_type (write_id attacker (write_id skill (write_id target []))))

  unfoldable pub make_sc_damage : ℕ → ℕ → ℤ → ℤ → SendBuffer
  make_sc_damage attacker target damage remain_hp = buffer_of 20 (
      write_header 20 damage_type
        (write_id attacker (write_id target (write_int damage (write_int remain_hp [])))))

  unfoldable pub make_sc_dead : ℕ → SendBuffer
  make_sc_dead id = buffer_of 8 (write_header 8 dead_type (write_id id []))

  -- The buffer for a packet that the room sends.
  abbrev pub make_packet : Packet → SendBuffer
  make_packet (sc_add_object o) = make_sc_add_object o
  make_packet (sc_remove_object id) = make_sc_remove_object id
  make_packet (sc_move_object o time) = make_sc_move_object o time
  make_packet (sc_attack attacker skill target) = make_sc_attack attacker skill target
  make_packet (sc_damage attacker target damage remain_hp) =
      make_sc_damage attacker target damage remain_hp
  make_packet (sc_dead id) = make_sc_dead id
