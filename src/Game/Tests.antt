-- ===== src/Game/Tests.antt =====
-- The removal from a vector at small lists.
use simple_mmo.Prelude.{◌≡◌, refl, [], ◌∷◌}
use simple_mmo.Game.Removal.{contains, back, pop_back, overwrite, remove_swap}

last_moves_forward : remove_swap 2 (1 ∷ 2 ∷ 3 ∷ 4 ∷ []) ≡ 1 ∷ 4 ∷ 3 ∷ []
unfolding remove_swap contains back pop_back overwrite
last_moves_forward = refl
