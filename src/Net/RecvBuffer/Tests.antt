-- ===== src/Net/RecvBuffer/Tests.antt =====
-- Runs of the receive buffer, and its theorems at them.
use simple_mmo.Prelude.{◌≡◌, refl, [], ◌∷◌, ◌++◌, arith, length, ◌↔◌, ◌⊎◌}
use simple_mmo.Net.RecvBuffer.{RecvBuffer, data_size, free_size, clean_check, unread}
use simple_mmo.Net.RecvBuffer.Laws.{IsValid, stale, unread-clean_check, clean_check-keeps_iff}

-- Six bytes have come, of which four are read.
abbrev two_left : RecvBuffer
two_left = record {
  buffer_size = 8;
  read_pos = 4;
  write_pos = 6;
  buffer = 4 ∷ 0 ∷ 3 ∷ 0 ∷ 8 ∷ 0 ∷ 0 ∷ 0 ∷ [];
}

two_left-IsValid : IsValid two_left
two_left-IsValid = omega arith

-- The two unread bytes are announced as six.
unread-two_left : unread (clean_check two_left) ≡ 8 ∷ 0 ∷ 3 ∷ 0 ∷ 8 ∷ 0 ∷ []
unfolding clean_check
unread-two_left = refl

unread-clean_check_example :
    (unread (clean_check two_left) ≡ unread two_left ++ stale two_left)
    × (length (stale two_left) ≡ 4)
    × (free_size (clean_check two_left) ≡ free_size two_left)
unread-clean_check_example = unread-clean_check two_left two_left-IsValid (omega arith)

clean_check-keeps_iff_example :
    (unread (clean_check two_left) ≡ unread two_left)
    ↔ ((two_left.read_pos ≡ 0) ⊎ (data_size two_left ≡ 0))
clean_check-keeps_iff_example = clean_check-keeps_iff two_left two_left-IsValid
