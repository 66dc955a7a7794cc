-- ===== src/Wire/Chat/Fits.antt =====
-- The message of a chat packet against the size of the packet that the room sends
-- (PacketHandler.cpp, Room.cpp).
use simple_mmo.Prelude.{
  ℕ, zero, suc, ◌+◌, ◌*◌, ◌≤◌, Option, none, some, List, [], ◌∷◌, ◌==◌, length, Dict, All, ◌≡◌,
  arith, Bool-cases, inl, inr,
}
use simple_mmo.Prelude.Options.{◌>>=◌}
use simple_mmo.Game.Floats.{Floats}
use simple_mmo.Game.World.{Room}
use simple_mmo.Net.Framing.{read_header}
use simple_mmo.Net.Framing.Frames.{IsFrame}
use simple_mmo.Wire.Bytes.{write_u16}
use simple_mmo.Wire.Layout.{length-write_id}
use simple_mmo.Wire.Serializer.{write_header}
use simple_mmo.Wire.Handlers.{wide_string}
use simple_mmo.Wire.Chat.{write_wide, chat_bytes, send_bytes, broadcast_bytes, player_chat}

length-write_wide :
    (cs rest : List ℕ) → length (write_wide cs rest) ≡ (length cs + 1) * 2 + length rest
unfolding write_wide write_u16
length-write_wide [] rest = omega arith
length-write_wide (c ∷ cs) rest = omega (arith, length-write_wide cs rest)

-- The string, if there is one, has at most so many characters.
abbrev Fits : ℕ → Option (List ℕ) → Type 0
Fits n none = Unit
Fits n (some cs) = length cs ≤ n

Fits-cons : (n c : ℕ) (o : Option (List ℕ)) → Fits n o → Fits (suc n) (o >>= λ cs. some (c ∷ cs))
Fits-cons n c none h = tt
Fits-cons n c (some cs) h = omega (arith, h)

wide_string-Fits : (n : ℕ) (bytes : List ℕ) → Fits n (wide_string n bytes)
unfolding wide_string
wide_string-Fits zero bytes = omega arith
wide_string-Fits (suc n) [] = tt
wide_string-Fits (suc n) (a ∷ []) = tt
wide_string-Fits (suc n) (a ∷ b ∷ bytes) = elim (Bool-cases (a + 256 * b == 0)) [
  | inl ends ↦ rw ends (omega arith)
  | inr goes ↦ rw goes (Fits-cons n (a + 256 * b) (wide_string n bytes) (wide_string-Fits n bytes))
]

length-wide_string : (n : ℕ) (bytes cs : List ℕ) → wide_string n bytes ≡ some cs → length cs ≤ n
length-wide_string n bytes cs e = rw e at (wide_string-Fits n bytes)

chat_bytes-IsFrame :
    (sender : ℕ) (message : List ℕ) → length message ≤ 99 → IsFrame (chat_bytes sender message)
unfolding write_header write_u16 read_header
chat_bytes-IsFrame sender message h = record {
  holds_header = omega arith;
  sized = λ rest.
      omega
        (arith, h, length-write_id sender (write_wide message []), length-write_wide message []);
}

module _ ⦃fl : Floats⦄ where
  broadcast_bytes-frames :
      (players : Dict ℕ) (bytes : List ℕ) (r : Room)
      → IsFrame bytes
      → All (λ e. IsFrame e.1) (broadcast_bytes players bytes r)
  unfolding broadcast_bytes
  broadcast_bytes-frames [] bytes r f = tt
  broadcast_bytes-frames ((id, a) ∷ players) bytes r f =
      sent (r.heap a).session (broadcast_bytes-frames players bytes r f)
    where
      sent :
          (s : Option ℕ)
          → All (λ e. IsFrame e.1) (broadcast_bytes players bytes r)
          → All (λ e. IsFrame e.1) (send_bytes s bytes (broadcast_bytes players bytes r))
      sent none w = w
      sent (some s) w = (f, w)

  -- A message that has been read from a chat packet can be sent on, whatever the bytes of the packet
  -- were, and each session is sent a whole packet.
  pub player_chat-frames :
      (sender : ℕ) (bytes message : List ℕ) (r : Room)
      → wide_string 99 bytes ≡ some message
      → (sends : List (ℕ × List ℕ)) × (player_chat sender message r ≡ some sends)
        × All (λ e. IsFrame e.1) sends
  unfolding player_chat
  player_chat-frames sender bytes message r e =
      let short = length-wide_string 99 bytes message e in
      (
        broadcast_bytes r.players (chat_bytes sender message) r,
        ground (arith, short),
        broadcast_bytes-frames r.players (chat_bytes sender message) r
            (chat_bytes-IsFrame sender message short),
      )
