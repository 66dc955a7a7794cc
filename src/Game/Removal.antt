-- ===== src/Game/Removal.antt =====
-- The removal from a vector that the server uses for view lists and for cells: the first occurrence
-- is overwritten with the last element, and the last place is dropped. Also `find` on a vector.
use simple_mmo.Prelude.{
  ℕ, ◌+◌, ◌≤◌, ◌≡◌, refl, ◌≢◌, Bool, true, false, List, [], ◌∷◌, ◌++◌, ◌==◌, if◌then◌else◌, arith,
  Bool-cases, inl, inr, ==_refl,
}

unfoldable pub contains : ℕ → List ℕ → Bool
contains k [] = false
contains k (x ∷ xs) = if x == k then true else contains k xs

-- `vector::back`, which is called on no empty vector.
unfoldable pub back : List ℕ → ℕ
back [] = 0
back (x ∷ []) = x
back (x ∷ y ∷ xs) = back (y ∷ xs)

unfoldable pub pop_back : List ℕ → List ℕ
pop_back [] = []
pop_back (x ∷ []) = []
pop_back (x ∷ y ∷ xs) = x ∷ pop_back (y ∷ xs)

unfoldable pub overwrite : ℕ → ℕ → List ℕ → List ℕ
overwrite k v [] = []
overwrite k v (x ∷ xs) = if x == k then v ∷ xs else x ∷ overwrite k v xs

unfoldable pub remove_swap : ℕ → List ℕ → List ℕ
remove_swap k xs = if contains k xs then pop_back (overwrite k (back xs) xs) else xs

unfoldable pub count : ℕ → List ℕ → ℕ
count k [] = 0
count k (x ∷ xs) = (if x == k then 1 else 0) + count k xs

pub count-append : (k : ℕ) (xs ys : List ℕ) → count k (xs ++ ys) ≡ count k xs + count k ys
unfolding count
count-append k [] ys = omega arith
count-append k (x ∷ xs) ys = ground (arith, count-append k xs ys)

pub contains-count : (k : ℕ) (xs : List ℕ) → contains k xs ≡ false → count k xs ≡ 0
unfolding contains count
contains-count k [] h = refl
contains-count k (x ∷ xs) h = ground (arith, contains-count k xs)

count-pop_back :
    (k x : ℕ) (xs : List ℕ)
    → count k (pop_back (x ∷ xs)) + (if back (x ∷ xs) == k then 1 else 0) ≡ count k (x ∷ xs)
unfolding count pop_back back
count-pop_back k x [] = ground arith
count-pop_back k x (y ∷ xs) = ground (arith, count-pop_back k y xs)

count-overwrite :
    (j k v : ℕ) (xs : List ℕ)
    → contains k xs ≡ true
    → count j (overwrite k v xs) + (if k == j then 1 else 0)
      ≡ count j xs + (if v == j then 1 else 0)
unfolding count overwrite contains
count-overwrite j k v [] h = cc
count-overwrite j k v (x ∷ xs) h = ground (arith, count-overwrite j k v xs)

back-overwrite :
    (k v x y : ℕ) (xs : List ℕ) → back (x ∷ overwrite k v (y ∷ xs)) ≡ back (overwrite k v (y ∷ xs))
unfolding overwrite back
back-overwrite k v x y xs = ground arith

overwrite-back :
    (k : ℕ) (xs : List ℕ) → contains k xs ≡ true → back (overwrite k (back xs) xs) ≡ back xs
unfolding overwrite back contains
overwrite-back k [] h = cc
overwrite-back k (x ∷ []) h = ground arith
overwrite-back k (x ∷ y ∷ xs) h =
    ground (arith, overwrite-back k (y ∷ xs), back-overwrite k (back (y ∷ xs)) x y xs)

count-pop_back_ne :
    (k : ℕ) (xs : List ℕ)
    → xs ≢ []
    → count k (pop_back xs) + (if back xs == k then 1 else 0) ≡ count k xs
count-pop_back_ne k [] h = absurd (h refl)
count-pop_back_ne k (x ∷ xs) h = count-pop_back k x xs

overwrite-ne-nil : (k v : ℕ) (xs : List ℕ) → contains k xs ≡ true → overwrite k v xs ≢ []
unfolding overwrite contains
overwrite-ne-nil k v [] h = cc
overwrite-ne-nil k v (x ∷ xs) h = ground arith

-- Removal takes out exactly one occurrence of the key, if there is one, and leaves every other
-- element as often as before; where it is absent the vector is unchanged.
pub count-remove_swap :
    (j k : ℕ) (xs : List ℕ)
    → count j (remove_swap k xs) + (if contains k xs then (if k == j then 1 else 0) else 0)
      ≡ count j xs
unfolding remove_swap
count-remove_swap j k xs = elim (Bool-cases (contains k xs)) [
  | inr absent ↦ ground arith
  | inl found ↦
      let ys : List ℕ = overwrite k (back xs) xs in
      ground (
        arith,
        found,
        count-pop_back_ne j ys (overwrite-ne-nil k (back xs) xs found),
        count-overwrite j k (back xs) xs found,
        overwrite-back k xs found,
      )
]

-- A key that occurs at most once is gone after its removal.
pub count-remove_swap_self : (k : ℕ) (xs : List ℕ) → count k xs ≤ 1 → count k (remove_swap k xs) ≡ 0
count-remove_swap_self k xs h =
    ground (arith, count-remove_swap k k xs, contains-count k xs, ==_refl k)
