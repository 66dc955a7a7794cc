-- ===== src/Wire/Bytes.antt =====
-- Little-endian integers of 16 and 32 bits, as the compiler lays them out in a packed struct.
use simple_mmo.Prelude.{
  ℕ, ◌+◌, ◌-◌, ◌*◌, ◌/◌, ◌%◌, ◌<◌, Option, none, some, List, ◌∷◌, ltb, if◌then◌else◌, ◌≡◌, refl, ap,
  arith, length,
}
use simple_mmo.Prelude.Options.{◌>>=◌}
use simple_mmo.Prelude.Int.{ℤ, pos, negsuc}

abbrev pub two_16 : ℕ
two_16 = 65536

abbrev pub two_31 : ℕ
two_31 = 2147483648

abbrev pub two_32 : ℕ
two_32 = 4294967296

-- What a reader gives: the value, and the bytes behind it.
abbrev pub Reader : Type 0 → Type 0
Reader A = List ℕ → Option (A × List ℕ)

-- What a writer does: it puts the value in front of the bytes behind it.
abbrev pub Writer : Type 0 → Type 0
Writer A = A → List ℕ → List ℕ

unfoldable pub write_u16 : Writer ℕ
write_u16 n rest = n % 256 ∷ n / 256 % 256 ∷ rest

unfoldable pub read_u16 : Reader ℕ
read_u16 (a ∷ b ∷ rest) = some (a + 256 * b, rest)
read_u16 _ = none

unfoldable pub write_u32 : Writer ℕ
write_u32 n rest = n % 256 ∷ n / 256 % 256 ∷ n / 65536 % 256 ∷ n / 16777216 % 256 ∷ rest

unfoldable pub read_u32 : Reader ℕ
read_u32 (a ∷ b ∷ c ∷ d ∷ rest) = some (a + 256 * b + 65536 * c + 16777216 * d, rest)
read_u32 _ = none

-- Two's complement.
unfoldable pub to_u32 : ℤ → ℕ
to_u32 (pos n) = n % two_32
to_u32 (negsuc n) = two_32 - 1 - n % two_32

unfoldable pub of_u32 : ℕ → ℤ
of_u32 n = if ltb n two_31 then pos n else negsuc (two_32 - 1 - n)

-- The values of `int`.
abbrev pub IsInt : ℤ → Type 0
IsInt (pos n) = n < two_31
IsInt (negsuc n) = n < two_31

pub read_u16-write_u16 :
    (n : ℕ) (rest : List ℕ) → n < two_16 → read_u16 (write_u16 n rest) ≡ some (n, rest)
unfolding read_u16 write_u16
read_u16-write_u16 n rest h = ap (λ k. some (k, rest)) (omega arith)

pub read_u32-write_u32 :
    (n : ℕ) (rest : List ℕ) → n < two_32 → read_u32 (write_u32 n rest) ≡ some (n, rest)
unfolding read_u32 write_u32
read_u32-write_u32 n rest h = ap (λ k. some (k, rest)) (omega arith)

pub of_u32-to_u32 : (z : ℤ) → IsInt z → of_u32 (to_u32 z) ≡ z
unfolding of_u32 to_u32
of_u32-to_u32 (pos n) h = ground arith
of_u32-to_u32 (negsuc n) h = ground arith

pub to_u32_lt : (z : ℤ) → to_u32 z < two_32
unfolding to_u32
to_u32_lt (pos n) = omega arith
to_u32_lt (negsuc n) = omega arith

unfoldable pub write_int : Writer ℤ
write_int z rest = write_u32 (to_u32 z) rest

unfoldable pub read_int : Reader ℤ
read_int bytes = do (n, rest) ← read_u32 bytes; some (of_u32 n, rest)

pub read_int-write_int :
    (z : ℤ) (rest : List ℕ) → IsInt z → read_int (write_int z rest) ≡ some (z, rest)
unfolding read_int write_int
read_int-write_int z rest h =
    rw (read_u32-write_u32 (to_u32 z) rest (to_u32_lt z), of_u32-to_u32 z h) refl

pub length-write_u32 : (n : ℕ) (rest : List ℕ) → length (write_u32 n rest) ≡ 4 + length rest
unfolding write_u32
length-write_u32 n rest = omega arith

pub length-write_int : (z : ℤ) (rest : List ℕ) → length (write_int z rest) ≡ 4 + length rest
unfolding write_int
length-write_int z rest = length-write_u32 (to_u32 z) rest
