-- ===== src/Net/Framing/Stall.antt =====
-- When the loop of `Session::ProcessData` (Session.cpp) ends.
use simple_mmo.Prelude.{
  ℕ, zero, suc, ◌+◌, ◌-◌, ◌≤◌, ◌<◌, ◌≡◌, refl, ap, ◌∙◌, ◌⊎◌, inl, inr, none, some, List, [], ◌∷◌,
  arith, drop, get_or, set, dec_lt,
}
use simple_mmo.Net.Framing.{read_header, header_bytes, Write, apply_writes, process_from}

get_or-set_later : (i j : ℕ) (b : ℕ) (xs : List ℕ) → i < j → get_or (set xs j b) i 0 ≡ get_or xs i 0
get_or-set_later i j b [] h = refl
get_or-set_later i zero b (x ∷ xs) h = absurd (omega arith)
get_or-set_later zero (suc j) b (x ∷ xs) h = refl
get_or-set_later (suc i) (suc j) b (x ∷ xs) h = get_or-set_later i j b xs (omega arith)

get_or-apply_writes :
    (start i : ℕ) (ws : List Write) (buffer : List ℕ)
    → i < start + header_bytes
    → get_or (apply_writes start ws buffer) i 0 ≡ get_or buffer i 0
get_or-apply_writes start i [] buffer h = refl
get_or-apply_writes start i ((k, b) ∷ ws) buffer h =
    get_or-apply_writes start i ws (set buffer (start + header_bytes + k) b) h
    ∙ get_or-set_later i (start + header_bytes + k) b buffer (omega arith)

get_or-drop : (n i : ℕ) (xs : List ℕ) → get_or (drop n xs) i 0 ≡ get_or xs (n + i) 0
get_or-drop zero i xs = ap (λ k. get_or xs k 0) (omega arith)
get_or-drop (suc n) i [] = refl
get_or-drop (suc n) i (x ∷ xs) = get_or-drop n i xs ∙ ap (λ k. get_or (x ∷ xs) k 0) (later n i)
  where
    later : (n i : ℕ) → suc (n + i) ≡ suc n + i
    later n i = omega arith

-- The writes of a packet's handler leave the packet's size field alone.
pub size-apply_writes :
    (done : ℕ) (ws : List Write) (buffer : List ℕ)
    → (read_header (drop done (apply_writes done ws buffer))).size
      ≡ (read_header (drop done buffer)).size
unfolding read_header
size-apply_writes done ws buffer =
    rw
      (
        get_or-drop done 0 (apply_writes done ws buffer),
        get_or-drop done 1 (apply_writes done ws buffer),
        get_or-drop done 0 buffer,
        get_or-drop done 1 buffer,
        get_or-apply_writes done (done + 0) ws buffer (omega arith),
        get_or-apply_writes done (done + 1) ws buffer (omega arith),
      )
      refl

module _ {S : Type 0} (handle : S → List ℕ → ℕ → S × List Write) where
  -- Where the data holds a header whose size field is 0, no number of rounds ends the loop: the
  -- worker thread handles the same bytes for ever.
  pub process_from-zero_size :
      (fuel done len : ℕ) (s : S) (buffer : List ℕ)
      → header_bytes ≤ len - done
      → (read_header (drop done buffer)).size ≡ 0
      → process_from handle fuel s buffer len done ≡ none
  unfolding process_from
  process_from-zero_size zero done len s buffer h z = refl
  process_from-zero_size (suc fuel) done len s buffer h z =
      let handled : S × List Write = handle s (drop done buffer) 0 in
      ground (
        arith,
        process_from-zero_size fuel done len handled.0 (apply_writes done handled.1 buffer) h
            (size-apply_writes done handled.1 buffer ∙ z),
      )

  -- The rounds of the loop over `len` bytes, none or more: from a state, a memory and a count of
  -- handled bytes to those with which it comes to its test again.
  pub data Rounds (len : ℕ) : S → List ℕ → ℕ → S → List ℕ → ℕ → Type 0 where
    none_yet : (s : S) (buffer : List ℕ) (done : ℕ) → Rounds len s buffer done s buffer done
    one_more :
        {t : S} {memory : List ℕ} {at : ℕ} (s : S) (buffer : List ℕ) (done : ℕ)
        → header_bytes ≤ len - done
        → (read_header (drop done buffer)).size ≤ len - done
        → Rounds len
            (handle s (drop done buffer) (read_header (drop done buffer)).size).0
            (apply_writes done
              (handle s (drop done buffer) (read_header (drop done buffer)).size).1
              buffer)
            (done + (read_header (drop done buffer)).size)
            t
            memory
            at
        → Rounds len s buffer done t memory at

  -- The loop comes to a whole header whose size field is 0.
  pub record MeetsZero (len : ℕ) (s : S) (buffer : List ℕ) (done : ℕ) : Type 0 where
    pub state : S
    pub memory : List ℕ
    pub at : ℕ
    pub rounds : Rounds len s buffer done state memory at
    pub has_header : header_bytes ≤ len - at
    pub is_zero : (read_header (drop at memory)).size ≡ 0

  Rounds-zero_size :
      {len done at : ℕ} {s t : S} {buffer memory : List ℕ} (fuel : ℕ)
      → Rounds len s buffer done t memory at
      → header_bytes ≤ len - at
      → (read_header (drop at memory)).size ≡ 0
      → process_from handle fuel s buffer len done ≡ none
  unfolding process_from
  Rounds-zero_size {len = len} fuel (none_yet s buffer done) h z =
      process_from-zero_size fuel done len s buffer h z
  Rounds-zero_size zero (one_more s buffer done a b r) h z = refl
  Rounds-zero_size (suc fuel) (one_more s buffer done a b r) h z =
      ground (arith, Rounds-zero_size fuel r h z)

  MeetsZero-none :
      (fuel done len : ℕ) (s : S) (buffer : List ℕ)
      → MeetsZero len s buffer done
      → process_from handle fuel s buffer len done ≡ none
  MeetsZero-none fuel done len s buffer m = Rounds-zero_size fuel m.rounds m.has_header m.is_zero

  process_from-ends :
      (fuel done len : ℕ) (s : S) (buffer : List ℕ)
      → done ≤ len
      → len - done < fuel
      → ((r : S × List ℕ × ℕ) × (process_from handle fuel s buffer len done ≡ some r) × (r.2 ≤ len))
        ⊎ MeetsZero len s buffer done
  unfolding process_from
  process_from-ends zero done len s buffer le m = absurd (omega arith)
  process_from-ends (suc fuel) done len s buffer le m =
      let size : ℕ = (read_header (drop done buffer)).size in
      let handled : S × List Write = handle s (drop done buffer) size in
      elim (dec_lt (len - done) header_bytes) [
        | yes too_few ↦ inl ((s, buffer, done), ground arith, le)
        | no header ↦ elim (dec_lt (len - done) size) [
          | yes short ↦ inl ((s, buffer, done), ground arith, le)
          | no whole ↦ elim (dec_lt 0 size) [
            | no zero_size ↦ inr (record {
              state = s;
              memory = buffer;
              at = done;
              rounds = none_yet s buffer done;
              has_header = omega arith;
              is_zero = omega arith;
            })
            | yes positive ↦
                elim (process_from-ends fuel (done + size) len handled.0
                  (apply_writes done handled.1 buffer) (omega arith) (omega arith)) [
                    | inl (r, e, b) ↦ inl (r, ground (arith, e), b)
                    | inr z ↦ inr (record {
                      state = z.state;
                      memory = z.memory;
                      at = z.at;
                      rounds = one_more s buffer done (omega arith) (omega arith) z.rounds;
                      has_header = z.has_header;
                      is_zero = z.is_zero;
                    })
                  ]
          ]
        ]
      ]

  -- One round more than there are bytes left is enough for the loop of ProcessData to end, with no
  -- more bytes consumed than there are, unless its rounds, with what the handlers write into the
  -- memory, come to a whole header whose size field is 0; and then no number of rounds ends it.
  pub process_from_total :
      (fuel done len : ℕ) (s : S) (buffer : List ℕ)
      → done ≤ len
      → len - done < fuel
      → ((r : S × List ℕ × ℕ) × (process_from handle fuel s buffer len done ≡ some r) × (r.2 ≤ len))
        ⊎ (MeetsZero len s buffer done
            × ((more : ℕ) → process_from handle more s buffer len done ≡ none))
  process_from_total fuel done len s buffer le m =
      elim (process_from-ends fuel done len s buffer le m) [
        | inl ends ↦ inl ends
        | inr meets ↦ inr (meets, λ more. MeetsZero-none more done len s buffer meets)
      ]
