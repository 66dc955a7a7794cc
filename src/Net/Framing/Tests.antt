-- ===== src/Net/Framing/Tests.antt =====
-- Packets in a row, and the theorems on framing at them. The handler keeps the sizes it was given,
-- and one of them writes the byte 9 behind the header.
use simple_mmo.Prelude.{
  ℕ, ◌+◌, ◌≤◌, ◌≡◌, refl, ◌⊎◌, inl, List, [], ◌∷◌, ◌++◌, none, some, arith, ◌==◌, if◌then◌else◌,
}
use simple_mmo.Net.Framing.{Write, read_header, process_from, process_data}
use simple_mmo.Net.Framing.Frames.{IsFrame, concat, deliver, written, process_data-frames}
use simple_mmo.Net.Framing.Stall.{process_from-zero_size, MeetsZero, process_from_total}

abbrev sizes : List ℕ → List ℕ → ℕ → List ℕ × List Write
sizes seen bytes n = (seen ++ n ∷ [], [])

abbrev marks : List ℕ → List ℕ → ℕ → List ℕ × List Write
marks seen bytes n = (seen ++ n ∷ [], if n == 5 then (0, 9) ∷ [] else [])

-- An attack that is one byte long behind the header.
abbrev short_attack : List ℕ
short_attack = 5 ∷ 0 ∷ 8 ∷ 0 ∷ 1 ∷ []

short_attack-IsFrame : IsFrame short_attack
unfolding read_header
short_attack-IsFrame = record { holds_header = omega arith; sized = λ rest. refl }

-- `CS_LOGOUT`.
abbrev logout : List ℕ
logout = 4 ∷ 0 ∷ 2 ∷ 0 ∷ []

logout-IsFrame : IsFrame logout
unfolding read_header
logout-IsFrame = record { holds_header = omega arith; sized = λ rest. refl }

two_packets :
    process_data marks 3 [] (short_attack ++ logout) 9
    ≡ some (5 ∷ 4 ∷ [], 5 ∷ 0 ∷ 8 ∷ 0 ∷ 9 ∷ logout, 9)
unfolding process_data process_from read_header
two_packets = refl

process_data-frames_example :
    process_data marks 3 [] (concat (short_attack ∷ logout ∷ []) ++ (8 ∷ [] ++ 0 ∷ [])) (9 + 1)
    ≡ some (
      deliver marks [] (short_attack ∷ logout ∷ []) (8 ∷ [] ++ 0 ∷ []),
      written marks [] (short_attack ∷ logout ∷ []) (8 ∷ [] ++ 0 ∷ []) ++ (8 ∷ [] ++ 0 ∷ []),
      9,
    )
process_data-frames_example =
    process_data-frames marks (short_attack ∷ logout ∷ []) 3 [] (8 ∷ []) (0 ∷ [])
      (short_attack-IsFrame, (logout-IsFrame, tt)) (inl (omega arith)) ((omega arith, tt), (tt, tt))
      (omega arith)

zero_size : (read_header (0 ∷ 0 ∷ 4 ∷ 0 ∷ [])).size ≡ 0
unfolding read_header
zero_size = refl

process_from-zero_size_example : process_from sizes 1000 [] (0 ∷ 0 ∷ 4 ∷ 0 ∷ []) 4 0 ≡ none
process_from-zero_size_example =
    process_from-zero_size sizes 1000 0 4 [] (0 ∷ 0 ∷ 4 ∷ 0 ∷ []) (omega arith) zero_size

process_from_total_example :
    ((r : List ℕ × List ℕ × ℕ) × (process_from sizes 5 [] logout 4 0 ≡ some r) × (r.2 ≤ 4))
    ⊎ (MeetsZero sizes 4 [] logout 0 × ((more : ℕ) → process_from sizes more [] logout 4 0 ≡ none))
process_from_total_example = process_from_total sizes 5 0 4 [] logout (omega arith) (omega arith)
