-- ===== src/Wire/Stress/Reassembly.antt =====
-- The receive loop of the test client on a stream of whole packets, however it is cut.
use simple_mmo.Prelude.{
  ℕ, zero, suc, ◌+◌, ◌-◌, ◌≤◌, ◌<◌, List, [], ◌∷◌, ◌++◌, ◌==◌, if◌then◌else◌, take, drop, length,
  subst, ==_ne, le→leb, le→ltb, append-nil, ◌≡◌, ◌⊎◌, inl, inr, refl, sym, ap, ap₂, ◌∙◌, arith, All,
  append_assoc, length-append, take-append_length, drop-append_length, get_or,
}
use simple_mmo.Net.Framing.{read_header, word_at}
use simple_mmo.Net.Framing.Frames.{IsFrame, concat}
use simple_mmo.Wire.Stress.{
  Client, received, max_packet_size, keep_bytes, packet_size, receive_loop, receive,
}

-- The beginning of a packet: nothing yet, or at least the two bytes of its size and fewer than the
-- size says.
abbrev pub IsStart : List ℕ → Type 0
IsStart bytes =
    (bytes ≡ [])
    ⊎ (2 ≤ length bytes) × (length bytes < word_at 0 bytes) × (word_at 0 bytes ≤ max_packet_size)

-- The client has kept the beginning of a packet and its size.
pub record Keeps (bytes : List ℕ) (c : Client) : Type 0 where
  pub start : IsStart bytes
  pub kept : take c.prev_packet_data c.packet_buf ≡ bytes
  pub counted : c.prev_packet_data ≡ length bytes
  pub size : c.curr_packet_size ≡ (if length bytes == 0 then 0 else word_at 0 bytes)

-- A packet that the client's buffers hold.
abbrev pub IsPacket : List ℕ → Type 0
IsPacket f = IsFrame f × (length f ≤ max_packet_size)

split :
    (xs ys f zs : List ℕ)
    → xs ++ ys ≡ f ++ zs
    → length xs ≤ length f
    → (m : List ℕ) × (f ≡ xs ++ m) × (ys ≡ m ++ zs)
split [] ys f zs e h = (f, refl, e)
split (x ∷ xs) ys [] zs e h = absurd (omega arith)
split (x ∷ xs) ys (k ∷ f) zs e h =
    let (m, p, q) = split xs ys f zs (ap (drop 1) e) (omega arith) in
    (m, ap₂ (λ a b. a ∷ b) (ap (λ l. get_or l 0 0) (sym e)) p, q)

word_at-append : (xs ys : List ℕ) → 2 ≤ length xs → word_at 0 (xs ++ ys) ≡ word_at 0 xs
word_at-append [] ys h = absurd (omega arith)
word_at-append (x ∷ []) ys h = absurd (omega arith)
word_at-append (x ∷ y ∷ xs) ys h = refl

frame_size : (f rest : List ℕ) → IsFrame f → word_at 0 (f ++ rest) ≡ length f
unfolding read_header
frame_size f rest v = v.sized rest

-- Where something has been kept, the client knows the size; otherwise the header is at hand.
packet_size-Keeps :
    (bytes chunk stale : List ℕ) (c : Client)
    → Keeps bytes c
    → 2 ≤ length (bytes ++ chunk)
    → packet_size (chunk ++ stale) c ≡ word_at 0 (bytes ++ chunk)
unfolding packet_size read_header
packet_size-Keeps [] chunk stale c k h = ground (arith, k.size, word_at-append chunk stale)
packet_size-Keeps (x ∷ []) chunk stale c k h = absurd (single k.start)
  where
    single : IsStart (x ∷ []) → ⊥
    single (inl e) = cc
    single (inr p) = omega arith
packet_size-Keeps (x ∷ y ∷ bytes) chunk stale c k h = positive k.start
  where
    positive :
        IsStart (x ∷ y ∷ bytes)
        → packet_size (chunk ++ stale) c ≡ word_at 0 (x ∷ y ∷ (bytes ++ chunk))
    positive (inl e) = cc
    positive (inr p) = ground (arith, k.size)

start_lt :
    (bytes more : List ℕ) (n : ℕ)
    → IsStart bytes
    → word_at 0 (bytes ++ more) ≡ n
    → 4 ≤ n
    → length bytes < n
start_lt bytes more n (inl e) q h = rw e (omega arith)
start_lt bytes more n (inr p) q h = omega (arith, word_at-append bytes more)

-- What has been kept of a packet is not all of it.
begun :
    (bytes chunk f more : List ℕ)
    → IsStart bytes
    → IsPacket f
    → bytes ++ chunk ≡ f ++ more
    → length bytes < length f
begun bytes chunk f more v p e =
    start_lt bytes chunk (length f) v (ap (word_at 0) e ∙ frame_size f more p.0) p.0.holds_header

module _ {S : Type 0} (handle : S → List ℕ → S) where
  abbrev pub deliver : S → List (List ℕ) → S
  deliver s [] = s
  deliver s (f ∷ fs) = deliver (handle s f) fs

  forget : Client → Client
  forget c = record c { prev_packet_data = 0; curr_packet_size = 0 }

  -- A round that completes the packet `f`, of which `bytes` were kept and `m` arrives.
  complete :
      (fuel : ℕ) (s : S) (bytes m more stale f : List ℕ) (c : Client)
      → Keeps bytes c
      → IsPacket f
      → f ≡ bytes ++ m
      → length bytes < length f
      → receive_loop handle (suc fuel) s (length (m ++ more)) ((m ++ more) ++ stale) c
        ≡ receive_loop handle fuel (handle s f) (length more) (more ++ stale) (forget c)
  unfolding receive_loop forget
  complete fuel s bytes m more stale f c k p e h =
      let lf : length f ≡ length bytes + length m = ap length e ∙ length-append bytes m in
      let d : length f - length bytes ≡ length m = omega (arith, lf) in
      let back : bytes ++ (m ++ more) ≡ f ++ more =
        sym (append_assoc bytes m more) ∙ ap (λ l. l ++ more) (sym e) in
      let size : packet_size ((m ++ more) ++ stale) c ≡ length f =
        packet_size-Keeps bytes (m ++ more) stale c k (
          omega
            (arith, length-append bytes (m ++ more), length-append m more, p.0.holds_header, lf))
        ∙ ap (word_at 0) back
        ∙ frame_size f more p.0 in
      let packet : take (length bytes) c.packet_buf
            ++ take (length f - length bytes) ((m ++ more) ++ stale)
          ≡ f =
        ap₂ (λ a b. a ++ b) (rw k.counted at k.kept)
          (rw (d, append_assoc m more stale) (take-append_length m (more ++ stale)))
        ∙ sym e in
      let rest : drop (length f - length bytes) ((m ++ more) ++ stale) ≡ more ++ stale =
        rw (d, append_assoc m more stale) (drop-append_length m (more ++ stale)) in
      let total = length-append m more in
      rw
        (
          size,
          k.counted,
          packet,
          rest,
          d,
          ==_ne (length (m ++ more)) 0 (omega (arith, total, lf)),
          le→leb (length f) (length (m ++ more) + length bytes) (omega (arith, total, lf)),
          le→ltb (length f) (length bytes) (omega arith),
          le→ltb max_packet_size (length f) p.1,
          (let q : length (m ++ more) - length m ≡ length more = omega (arith, total) in q),
        )
        refl

  -- The client that has kept `chunk` behind `bytes`.
  kept_client : List ℕ → List ℕ → List ℕ → Client → Client
  kept_client bytes chunk stale c = record {
    packet_buf = keep_bytes (length bytes) (length chunk) (chunk ++ stale) c.packet_buf;
    prev_packet_data = length bytes + length chunk;
    curr_packet_size = word_at 0 (bytes ++ chunk);
  }

  -- A round that keeps what has come of a packet.
  keep :
      (fuel : ℕ) (s : S) (bytes chunk stale : List ℕ) (c : Client)
      → Keeps bytes c
      → 2 ≤ length (bytes ++ chunk)
      → length (bytes ++ chunk) < word_at 0 (bytes ++ chunk)
      → word_at 0 (bytes ++ chunk) ≤ max_packet_size
      → 0 < length chunk
      → receive_loop handle (suc fuel) s (length chunk) (chunk ++ stale) c
        ≡ receive_loop handle fuel s 0 (chunk ++ stale) (kept_client bytes chunk stale c)
  unfolding receive_loop kept_client
  keep fuel s bytes chunk stale c k two short small h =
      rw (packet_size-Keeps bytes chunk stale c k two, k.counted)
        (ground (arith, length-append bytes chunk))

  ended :
      (fuel : ℕ) (s : S) (buf : List ℕ) (c : Client)
      → receive_loop handle (suc fuel) s 0 buf c ≡ received s c
  unfolding receive_loop
  ended fuel s buf c = refl

  kept_client-Keeps :
      (bytes chunk stale : List ℕ) (c : Client)
      → Keeps bytes c
      → IsStart (bytes ++ chunk)
      → 2 ≤ length (bytes ++ chunk)
      → Keeps (bytes ++ chunk) (kept_client bytes chunk stale c)
  unfolding kept_client
  kept_client-Keeps bytes chunk stale c k v two = record {
    start = v;
    kept =
        ap₂ take (sym (length-append bytes chunk)) joined
        ∙ take-append_length (bytes ++ chunk) (drop (length bytes + length chunk) c.packet_buf);
    counted = sym (length-append bytes chunk);
    size = rw (==_ne (length (bytes ++ chunk)) 0 (omega arith)) refl;
  }
    where
      joined :
          keep_bytes (length bytes) (length chunk) (chunk ++ stale) c.packet_buf
          ≡ (bytes ++ chunk) ++ drop (length bytes + length chunk) c.packet_buf
      joined =
          ap₂ (λ a b. a ++ (b ++ drop (length bytes + length chunk) c.packet_buf))
            (rw k.counted at k.kept) (take-append_length chunk stale)
          ∙ sym (append_assoc bytes chunk (drop (length bytes + length chunk) c.packet_buf))

  forget-Keeps : (c : Client) → Keeps [] (forget c)
  unfolding forget
  forget-Keeps c = record { start = inl refl; kept = refl; counted = refl; size = refl }

  -- The end of a receive: what is left over is the beginning of a packet.
  last :
      (fuel : ℕ) (s : S) (bytes chunk rest stale : List ℕ) (c : Client)
      → Keeps bytes c
      → IsStart rest
      → bytes ++ chunk ≡ rest
      → length chunk < fuel
      → (c' : Client) × (receive_loop handle fuel s (length chunk) (chunk ++ stale) c
          ≡ received s c')
        × Keeps rest c'
  last zero s bytes chunk rest stale c k v e h = absurd (omega arith)
  last (suc fuel) s bytes [] rest stale c k v e h =
      (c, ended fuel s stale c, subst (λ b. Keeps b c) (sym (append-nil bytes) ∙ e) k)
  last (suc zero) s bytes (x ∷ chunk) rest stale c k v e h = absurd (omega arith)
  last (suc (suc fuel)) s bytes (x ∷ chunk) rest stale c k (inl n) e h =
      absurd (omega (arith, ap length (e ∙ n), length-append bytes (x ∷ chunk)))
  last (suc (suc fuel)) s bytes (x ∷ chunk) rest stale c k (inr (two, short, small)) e h =
      let q : length (bytes ++ x ∷ chunk) ≡ length rest = ap length e in
      let w : word_at 0 (bytes ++ x ∷ chunk) ≡ word_at 0 rest = ap (word_at 0) e in
      (
        kept_client bytes (x ∷ chunk) stale c,
        keep (suc fuel) s bytes (x ∷ chunk) stale c k (omega (arith, q)) (omega (arith, q, w))
              (omega (arith, w)) (omega arith)
            ∙ ended fuel s ((x ∷ chunk) ++ stale) (kept_client bytes (x ∷ chunk) stale c),
        subst (λ b. Keeps b (kept_client bytes (x ∷ chunk) stale c)) e
            (kept_client-Keeps bytes (x ∷ chunk) stale c k
              (inr (omega (arith, q), omega (arith, q, w), omega (arith, w))) (omega (arith, q))),
      )

  loop :
      (fs : List (List ℕ)) (fuel : ℕ) (s : S) (bytes chunk rest stale : List ℕ) (c : Client)
      → Keeps bytes c
      → All IsPacket fs
      → IsStart rest
      → bytes ++ chunk ≡ concat fs ++ rest
      → length chunk < fuel
      → (c' : Client) × (receive_loop handle fuel s (length chunk) (chunk ++ stale) c
          ≡ received (deliver s fs) c')
        × Keeps rest c'
  loop fs zero s bytes chunk rest stale c k ps v e h = absurd (omega arith)
  loop [] fuel s bytes chunk rest stale c k ps v e h = last fuel s bytes chunk rest stale c k v e h
  loop (f ∷ fs) (suc fuel) s bytes chunk rest stale c k ps v e h =
      let whole = e ∙ append_assoc f (concat fs) rest in
      let lt = begun bytes chunk f (concat fs ++ rest) k.start ps.0 whole in
      let (m, p, q) = split bytes chunk f (concat fs ++ rest) whole (omega (arith, lt)) in
      let a : length chunk ≡ length m + length (concat fs ++ rest) =
        ap length q ∙ length-append m (concat fs ++ rest) in
      let b : length f ≡ length bytes + length m = ap length p ∙ length-append bytes m in
      let (c', r, t) =
        loop fs fuel (handle s f) [] (concat fs ++ rest) rest stale (forget c) (forget-Keeps c) ps.1
          v refl (omega (arith, lt)) in
      (
        c',
        ap (λ l. receive_loop handle (suc fuel) s (length l) (l ++ stale) c) q
            ∙ complete fuel s bytes m (concat fs ++ rest) stale f c k ps.0 p lt
            ∙ r,
        t,
      )

  -- A receive of the test client that has kept the beginning of a packet ends, and never copies
  -- beyond a buffer: what has been kept and received being whole packets, each of at most 255 bytes,
  -- and the beginning of one more, of which not exactly one byte has come, it handles exactly the
  -- packets, in order, and keeps that beginning. What stands in the buffer behind the bytes received
  -- does not matter.
  pub receive-frames :
      (fs : List (List ℕ)) (s : S) (bytes chunk rest stale : List ℕ) (c : Client)
      → Keeps bytes c
      → All IsPacket fs
      → IsStart rest
      → bytes ++ chunk ≡ concat fs ++ rest
      → (c' : Client) × (receive handle s chunk stale c ≡ received (deliver s fs) c')
        × Keeps rest c'
  unfolding receive
  receive-frames fs s bytes chunk rest stale c k ps v e =
      loop fs (suc (length chunk)) s bytes chunk rest stale c k ps v e (omega arith)
