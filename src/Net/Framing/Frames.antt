-- ===== src/Net/Framing/Frames.antt =====
-- The framing (`Session::ProcessData`) on data made of whole packets and the beginning of one more.
use simple_mmo.Prelude.{
  ℕ, zero, suc, ◌+◌, ◌≤◌, ◌<◌, ◌≡◌, ap, ◌∙◌, ◌⊎◌, some, List, [], ◌∷◌, ◌++◌, append_assoc, arith,
  length, All, length-append, drop-append_length, set, refl, sym, subst,
}
use simple_mmo.Net.Framing.{
  read_header, header_bytes, Write, apply_writes, process_from, process_data,
}

-- A whole packet: its size field is its length, and it holds a header.
pub record IsFrame (frame : List ℕ) : Type 0 where
  pub holds_header : header_bytes ≤ length frame
  pub sized : (rest : List ℕ) → (read_header (frame ++ rest)).size ≡ length frame

-- The beginning of a packet, with the memory behind it: no whole header has arrived yet, or fewer
-- bytes than the header says.
abbrev pub IsPartial : List ℕ → List ℕ → Type 0
IsPartial rest tail =
    (length rest < header_bytes) ⊎ (length rest < (read_header (rest ++ tail)).size)

abbrev pub concat : List (List ℕ) → List ℕ
concat [] = []
concat (f ∷ fs) = f ++ concat fs

-- The writes stay inside a packet of `n` bytes.
abbrev pub Inside : ℕ → List Write → Type 0
Inside n ws = All (λ w. header_bytes + w.0 < n) ws

length-set : (xs : List ℕ) (i b : ℕ) → length (set xs i b) ≡ length xs
length-set [] i b = refl
length-set (x ∷ xs) zero b = refl
length-set (x ∷ xs) (suc i) b = ap suc (length-set xs i b)

set-append_left : (ys zs : List ℕ) (i b : ℕ) → i < length ys → set (ys ++ zs) i b ≡ set ys i b ++ zs
set-append_left [] zs i b h = absurd (omega arith)
set-append_left (y ∷ ys) zs zero b h = refl
set-append_left (y ∷ ys) zs (suc i) b h = ap (λ l. y ∷ l) (set-append_left ys zs i b (omega arith))

set-append_right : (xs ys : List ℕ) (i b : ℕ) → set (xs ++ ys) (length xs + i) b ≡ xs ++ set ys i b
set-append_right [] ys i b = ap (λ k. set ys k b) (omega arith)
set-append_right (x ∷ xs) ys i b =
    ap (λ k. set (x ∷ (xs ++ ys)) k b) (next (length xs) i)
    ∙ ap (λ l. x ∷ l) (set-append_right xs ys i b)
  where
    next : (n i : ℕ) → suc n + i ≡ suc (n + i)
    next n i = omega arith

length-apply_writes :
    (ws : List Write) (frame : List ℕ) → length (apply_writes 0 ws frame) ≡ length frame
length-apply_writes [] frame = refl
length-apply_writes ((i, b) ∷ ws) frame =
    length-apply_writes ws (set frame (0 + header_bytes + i) b)
    ∙ length-set frame (0 + header_bytes + i) b

-- Writes inside a packet change nothing before it and nothing behind it.
apply_writes-Inside :
    (ws : List Write) (before frame after : List ℕ)
    → Inside (length frame) ws
    → apply_writes (length before) ws (before ++ (frame ++ after))
      ≡ before ++ (apply_writes 0 ws frame ++ after)
apply_writes-Inside [] before frame after h = refl
apply_writes-Inside ((i, b) ∷ ws) before frame after h =
    let changed : List ℕ = set frame (0 + header_bytes + i) b in
    ap (λ k. apply_writes (length before) ws (set (before ++ (frame ++ after)) k b)) (omega arith)
    ∙ ap (apply_writes (length before) ws)
        (set-append_right before (frame ++ after) (0 + header_bytes + i) b)
    ∙ ap (λ l. apply_writes (length before) ws (before ++ l))
        (set-append_left frame after (0 + header_bytes + i) b (omega (arith, h.0)))
    ∙ apply_writes-Inside ws before changed after
        (subst (λ n. Inside n ws) (sym (length-set frame (0 + header_bytes + i) b)) h.1)

module _ {S : Type 0} (handle : S → List ℕ → ℕ → S × List Write) where
  -- What delivering the packets one after the other does; `after` is the memory behind them.
  abbrev pub deliver : S → List (List ℕ) → List ℕ → S
  deliver s [] after = s
  deliver s (f ∷ fs) after = deliver (handle s (f ++ (concat fs ++ after)) (length f)).0 fs after

  -- No handler of the packets writes behind its packet.
  abbrev pub StayInside : S → List (List ℕ) → List ℕ → Type 0
  StayInside s [] after = Unit
  StayInside s (f ∷ fs) after =
      Inside (length f) (handle s (f ++ (concat fs ++ after)) (length f)).1
      × StayInside (handle s (f ++ (concat fs ++ after)) (length f)).0 fs after

  -- The bytes of the packets as their handlers leave them.
  abbrev pub written : S → List (List ℕ) → List ℕ → List ℕ
  written s [] after = []
  written s (f ∷ fs) after =
      apply_writes 0 (handle s (f ++ (concat fs ++ after)) (length f)).1 f
      ++ written (handle s (f ++ (concat fs ++ after)) (length f)).0 fs after

  process_from-partial :
      (fuel : ℕ) (s : S) (before rest tail : List ℕ) (len : ℕ)
      → len ≡ length before + length rest
      → IsPartial rest tail
      → process_from handle (suc fuel) s (before ++ (rest ++ tail)) len (length before)
        ≡ some (s, before ++ (rest ++ tail), length before)
  unfolding process_from
  process_from-partial fuel s before rest tail len e p =
      rw (drop-append_length before (rest ++ tail)) (ground arith)

  process_from-frame :
      (fuel : ℕ) (s : S) (before frame after : List ℕ) (len : ℕ)
      → length before + length frame ≤ len
      → IsFrame frame
      → process_from handle (suc fuel) s (before ++ (frame ++ after)) len (length before)
        ≡ process_from handle fuel
            (handle s (frame ++ after) (length frame)).0
            (apply_writes
              (length before)
              (handle s (frame ++ after) (length frame)).1
              (before ++ (frame ++ after)))
            len
            (length before + length frame)
  unfolding process_from
  process_from-frame fuel s before frame after len e w =
      rw (drop-append_length before (frame ++ after), w.sized after)
        (ground (arith, w.holds_header))

  -- A packet whose handler stays inside it.
  process_from-Inside :
      (fuel : ℕ) (s : S) (before frame after : List ℕ) (len : ℕ)
      → length before + length frame ≤ len
      → IsFrame frame
      → Inside (length frame) (handle s (frame ++ after) (length frame)).1
      → let left = apply_writes 0 (handle s (frame ++ after) (length frame)).1 frame in
        process_from handle (suc fuel) s (before ++ (frame ++ after)) len (length before)
        ≡ process_from handle fuel
            (handle s (frame ++ after) (length frame)).0
            ((before ++ left) ++ after)
            len
            (length (before ++ left))
  process_from-Inside fuel s before frame after len e w h =
      let ws : List Write = (handle s (frame ++ after) (length frame)).1 in
      let left : List ℕ = apply_writes 0 ws frame in
      let t : S = (handle s (frame ++ after) (length frame)).0 in
      process_from-frame fuel s before frame after len e w
      ∙ ap (λ m. process_from handle fuel t m len (length before + length frame))
          (apply_writes-Inside ws before frame after h ∙ sym (append_assoc before left after))
      ∙ ap (λ n. process_from handle fuel t ((before ++ left) ++ after) len n)
          (omega (arith, length-append before left, length-apply_writes ws frame))

  process_from-frames :
      (fs : List (List ℕ)) (fuel : ℕ) (s : S) (before rest tail : List ℕ) (len : ℕ)
      → All IsFrame fs
      → IsPartial rest tail
      → StayInside s fs (rest ++ tail)
      → len ≡ length before + length (concat fs) + length rest
      → length fs < fuel
      → process_from handle fuel s (before ++ (concat fs ++ (rest ++ tail))) len (length before)
        ≡ some (
          deliver s fs (rest ++ tail),
          before ++ (written s fs (rest ++ tail) ++ (rest ++ tail)),
          length before + length (concat fs),
        )
  process_from-frames fs zero s before rest tail len ws p i e h = absurd (omega arith)
  process_from-frames [] (suc fuel) s before rest tail len ws p i e h =
      process_from-partial fuel s before rest tail len (omega arith) p
      ∙ ap (λ n. some (s, before ++ (rest ++ tail), n)) (omega arith)
  process_from-frames (f ∷ fs) (suc fuel) s before rest tail len ws p i e h =
      let after : List ℕ = rest ++ tail in
      let t : S = (handle s (f ++ (concat fs ++ after)) (length f)).0 in
      let left : List ℕ = apply_writes 0 (handle s (f ++ (concat fs ++ after)) (length f)).1 f in
      let same = length-apply_writes (handle s (f ++ (concat fs ++ after)) (length f)).1 f in
      ap (λ m. process_from handle (suc fuel) s (before ++ m) len (length before))
        (append_assoc f (concat fs) after)
      ∙ process_from-Inside fuel s before f (concat fs ++ after) len
          (omega (arith, length-append f (concat fs))) ws.0 i.0
      ∙ process_from-frames fs fuel t (before ++ left) rest tail len ws.1 p i.1
          (omega (arith, same, length-append before left, length-append f (concat fs)))
          (omega arith)
      ∙ ap (λ m. some (deliver t fs after, m, length (before ++ left) + length (concat fs)))
          (append_assoc before left (written t fs after ++ after)
            ∙ ap (λ m. before ++ m) (sym (append_assoc left (written t fs after) after)))
      ∙ ap (λ n. some (deliver t fs after, before ++ ((left ++ written t fs after) ++ after), n))
          (omega (arith, same, length-append before left, length-append f (concat fs)))

  -- On whole packets and the beginning of one more, when no handler of the packets writes behind
  -- its packet, `ProcessData` handles exactly the packets, in order, each once, leaves the bytes
  -- behind them alone, and reports exactly their bytes as consumed; one round more than there are
  -- packets is enough.
  pub process_data-frames :
      (fs : List (List ℕ)) (fuel : ℕ) (s : S) (rest tail : List ℕ)
      → All IsFrame fs
      → IsPartial rest tail
      → StayInside s fs (rest ++ tail)
      → length fs < fuel
      → process_data handle fuel s (concat fs ++ (rest ++ tail)) (length (concat fs) + length rest)
        ≡ some (
          deliver s fs (rest ++ tail),
          written s fs (rest ++ tail) ++ (rest ++ tail),
          length (concat fs),
        )
  unfolding process_data
  process_data-frames fs fuel s rest tail ws p i h =
      process_from-frames fs fuel s [] rest tail _ ws p i (omega arith) h
      ∙ ap
          (λ n.
            some (deliver s fs (rest ++ tail), written s fs (rest ++ tail) ++ (rest ++ tail), n))
          (omega arith)
