-- ===== src/Wire/Reading.antt =====
-- The packets of the server (TestProtocol.h) read back from their bytes.
use simple_mmo.Prelude.{
  ℕ, ◌<◌, ◌==◌, if◌then◌else◌, none, some, List, [], ◌++◌, take, drop, replicate, length, ◌≡◌, refl,
  sym, ap, ◌∙◌, arith, append-nil, take-append_length,
}
use simple_mmo.Prelude.Options.{◌>>=◌}
use simple_mmo.Game.Floats.{Floats}
use simple_mmo.Game.World.{
  Packet, sc_add_object, sc_remove_object, sc_move_object, sc_attack, sc_damage, sc_dead,
}
use simple_mmo.Net.Framing.{read_header}
use simple_mmo.Net.Framing.Frames.{IsFrame}
use simple_mmo.Net.SendBuffer.{SendBuffer, copy_data, payload}
use simple_mmo.Net.SendBuffer
use simple_mmo.Wire.Bytes.{
  Reader, two_16, two_32, IsInt, write_u16, read_u16, read_u16-write_u16, write_u32, read_u32,
  write_int, read_int, read_int-write_int, read_u32-write_u32,
}
use simple_mmo.Wire.Layout.{
  FloatBits, IsId, IsWritable, write_position, write_stat, write_float, write_id, read_id,
  write_info, read_info, read_id-write_id, read_info-write_info,
}
use simple_mmo.Wire.Serializer.{
  buffer_of, write_header, make_sc_add_object, make_sc_remove_object, make_sc_move_object,
  make_sc_attack, make_sc_damage, make_sc_dead, make_packet,
}

-- `copy_data` of all the bytes of a struct.
payload-buffer_of :
    (size : ℕ) (bytes : List ℕ) → length bytes ≡ size → payload (buffer_of size bytes) ≡ bytes
unfolding copy_data SendBuffer.make
payload-buffer_of size bytes e = rw (← e) (
    ap (λ bs. take (length bytes) (bs ++ drop (length bytes) (replicate (length bytes) 0)))
      (take_length bytes)
    ∙ take-append_length bytes (drop (length bytes) (replicate (length bytes) 0)))
  where
    take_length : (bs : List ℕ) → take (length bs) bs ≡ bs
    take_length bs = ap (take (length bs)) (sym (append-nil bs)) ∙ take-append_length bs []

module _ ⦃fl : Floats⦄ ⦃bits : FloatBits⦄ where
  unfoldable pub read_fields : ℕ → Reader Packet
  read_fields type b0 =
      if type == 3
      then (do (o, b1) ← read_info b0; some (sc_add_object o, b1))
      else (if type == 4
          then (do (id, b1) ← read_id b0; some (sc_remove_object id, b1))
          else (if type == 6
              then (do
                (o, b1) ← read_info b0
                (time, b2) ← read_u32 b1
                some (sc_move_object o time, b2))
              else (if type == 8
                  then (do
                    (attacker, b1) ← read_id b0
                    (skill, b2) ← read_id b1
                    (target, b3) ← read_id b2
                    some (sc_attack attacker skill target, b3))
                  else (if type == 9
                      then (do
                        (attacker, b1) ← read_id b0
                        (target, b2) ← read_id b1
                        (damage, b3) ← read_int b2
                        (remain_hp, b4) ← read_int b3
                        some (sc_damage attacker target damage remain_hp, b4))
                      else (if type == 10
                          then (do (id, b1) ← read_id b0; some (sc_dead id, b1))
                          else none)))))

  -- A packet by its header's type.
  unfoldable pub read_packet : Reader Packet
  read_packet b0 = do (size, b1) ← read_u16 b0; (type, b2) ← read_u16 b1; read_fields type b2

  -- The numbers of a packet fit their fields.
  abbrev pub Fits : Packet → Type 0
  Fits (sc_add_object o) = IsWritable o
  Fits (sc_remove_object id) = IsId id
  Fits (sc_move_object o time) = IsWritable o × (time < two_32)
  Fits (sc_attack attacker skill target) = IsId attacker × IsId skill × IsId target
  Fits (sc_damage attacker target damage remain_hp) =
      IsId attacker × IsId target × IsInt damage × IsInt remain_hp
  Fits (sc_dead id) = IsId id

  -- The bytes of a packet in front of others.
  abbrev pub write_packet : Packet → List ℕ → List ℕ
  write_packet (sc_add_object o) rest = write_header 68 3 (write_info o rest)
  write_packet (sc_remove_object id) rest = write_header 8 4 (write_id id rest)
  write_packet (sc_move_object o time) rest = write_header 72 6 (write_info o (write_u32 time rest))
  write_packet (sc_attack attacker skill target) rest =
      write_header 16 8 (write_id attacker (write_id skill (write_id target rest)))
  write_packet (sc_damage attacker target damage remain_hp) rest =
      write_header 20 9
        (write_id attacker (write_id target (write_int damage (write_int remain_hp rest))))
  write_packet (sc_dead id) rest = write_header 8 10 (write_id id rest)

  header :
      (size type : ℕ) (rest : List ℕ)
      → size < two_16
      → type < two_16
      → read_packet (write_header size type rest) ≡ read_fields type rest
  unfolding read_packet write_header
  header size type rest a b =
      rw (read_u16-write_u16 size (write_u16 type rest) a, read_u16-write_u16 type rest b) refl

  read_packet-write_packet :
      (p : Packet) (rest : List ℕ) → Fits p → read_packet (write_packet p rest) ≡ some (p, rest)
  unfolding read_fields
  read_packet-write_packet (sc_add_object o) rest h =
      rw
        (header 68 3 (write_info o rest) (omega arith) (omega arith), read_info-write_info o rest h)
        refl
  read_packet-write_packet (sc_remove_object id) rest h =
      rw (header 8 4 (write_id id rest) (omega arith) (omega arith), read_id-write_id id rest h)
        refl
  read_packet-write_packet (sc_move_object o time) rest h =
      rw
        (
          header 72 6 (write_info o (write_u32 time rest)) (omega arith) (omega arith),
          read_info-write_info o (write_u32 time rest) h.0,
          read_u32-write_u32 time rest h.1,
        )
        refl
  read_packet-write_packet (sc_attack attacker skill target) rest h =
      rw
        (
          header 16 8 (write_id attacker (write_id skill (write_id target rest))) (omega arith)
              (omega arith),
          read_id-write_id attacker (write_id skill (write_id target rest)) h.0,
          read_id-write_id skill (write_id target rest) h.1,
          read_id-write_id target rest h.2,
        )
        refl
  read_packet-write_packet (sc_damage attacker target damage remain_hp) rest h =
      rw
        (
          header 20 9
              (write_id attacker (write_id target (write_int damage (write_int remain_hp rest))))
              (omega arith) (omega arith),
          read_id-write_id attacker (write_id target (write_int damage (write_int remain_hp rest)))
              h.0,
          read_id-write_id target (write_int damage (write_int remain_hp rest)) h.1,
          read_int-write_int damage (write_int remain_hp rest) h.2,
          read_int-write_int remain_hp rest h.3,
        )
        refl
  read_packet-write_packet (sc_dead id) rest h =
      rw (header 8 10 (write_id id rest) (omega arith) (omega arith), read_id-write_id id rest h)
        refl

  write_packet-append :
      (p : Packet) (rest : List ℕ) → write_packet p rest ≡ write_packet p [] ++ rest
  unfolding write_header write_u16 write_info write_position write_stat write_float write_id
      write_int write_u32
  write_packet-append (sc_add_object o) rest = refl
  write_packet-append (sc_remove_object id) rest = refl
  write_packet-append (sc_move_object o time) rest = refl
  write_packet-append (sc_attack attacker skill target) rest = refl
  write_packet-append (sc_damage attacker target damage remain_hp) rest = refl
  write_packet-append (sc_dead id) rest = refl

  payload-make_packet : (p : Packet) → payload (make_packet p) ≡ write_packet p []
  unfolding make_sc_add_object make_sc_remove_object make_sc_move_object make_sc_attack
      make_sc_damage make_sc_dead write_header write_u16 write_info write_position write_stat
      write_float write_id write_int write_u32
  payload-make_packet (sc_add_object o) = payload-buffer_of 68 _ refl
  payload-make_packet (sc_remove_object id) = payload-buffer_of 8 _ refl
  payload-make_packet (sc_move_object o time) = payload-buffer_of 72 _ refl
  payload-make_packet (sc_attack attacker skill target) = payload-buffer_of 16 _ refl
  payload-make_packet (sc_damage attacker target damage remain_hp) = payload-buffer_of 20 _ refl
  payload-make_packet (sc_dead id) = payload-buffer_of 8 _ refl

  -- Every function of the serializer fills its buffer with a whole packet, whose size field is its
  -- length.
  pub make_packet-IsFrame : (p : Packet) → IsFrame (payload (make_packet p))
  unfolding write_header write_u16 write_info write_position write_stat write_float write_id
      write_int write_u32 read_header
  make_packet-IsFrame p = rw (payload-make_packet p) (frame p)
    where
      frame : (p : Packet) → IsFrame (write_packet p [])
      frame (sc_add_object o) = record { holds_header = omega arith; sized = λ rest. refl }
      frame (sc_remove_object id) = record { holds_header = omega arith; sized = λ rest. refl }
      frame (sc_move_object o time) = record { holds_header = omega arith; sized = λ rest. refl }
      frame (sc_attack attacker skill target) = record {
        holds_header = omega arith;
        sized = λ rest. refl;
      }
      frame (sc_damage attacker target damage remain_hp) = record {
        holds_header = omega arith;
        sized = λ rest. refl;
      }
      frame (sc_dead id) = record { holds_header = omega arith; sized = λ rest. refl }

  -- The bytes with which the server tells of something, in front of any others, read field by field
  -- as the packed structs lay them out, give it back, if its numbers fit their fields.
  pub read_packet-make_packet :
      (p : Packet) (rest : List ℕ)
      → Fits p
      → read_packet (payload (make_packet p) ++ rest) ≡ some (p, rest)
  read_packet-make_packet p rest h =
      ap (λ bs. read_packet (bs ++ rest)) (payload-make_packet p)
      ∙ ap read_packet (sym (write_packet-append p rest))
      ∙ read_packet-write_packet p rest h
