-- ===== src/Net/RecvBuffer/Laws.antt =====
-- What the receive buffer keeps, and what compaction (`RecvBuffer::CleanCheck`) does to the bytes
-- that are still unread.
use simple_mmo.Prelude.{
  ℕ, zero, suc, ◌+◌, ◌-◌, ◌≤◌, ◌<◌, ◌≡◌, sym, ap, ◌∙◌, ◌⊎◌, ◌↔◌, List, append-nil, ℕ_discrete, [],
  ◌∷◌, ◌++◌, arith, length, take, drop, length-append, length-take, length-drop, length-replicate,
  inl, inr,
}
use simple_mmo.Net.RecvBuffer.{
  RecvBuffer, make, data_size, free_size, on_read, on_write, copy_to_front, clean_check, deposit,
  unread,
}

-- Every access stays inside the vector, and no position is behind another.
pub record IsValid (b : RecvBuffer) : Type 0 where
  pub storage : length b.buffer ≡ b.buffer_size
  pub read_le : b.read_pos ≤ b.write_pos
  pub write_le : b.write_pos ≤ b.buffer_size

pub make-IsValid : (n : ℕ) → IsValid (make n)
unfolding make
make-IsValid n = record {
  storage = length-replicate n 0;
  read_le = omega arith;
  write_le = omega arith;
}

pub on_read-IsValid : (n : ℕ) (b : RecvBuffer) → IsValid b → IsValid (on_read n b).1
unfolding on_read
on_read-IsValid n b v = ground arith

pub on_write-IsValid : (n : ℕ) (b : RecvBuffer) → IsValid b → IsValid (on_write n b).1
unfolding on_write
on_write-IsValid n b v = ground arith

length-copy_to_front :
    (b : RecvBuffer) → IsValid b → length (copy_to_front (data_size b) b) ≡ length b.buffer
length-copy_to_front b v = omega (
  arith,
  length-append (take (data_size b) (drop b.read_pos b.buffer)) (drop (data_size b) b.buffer),
  length-take (data_size b) (drop b.read_pos b.buffer),
  length-drop b.read_pos b.buffer,
  length-drop (data_size b) b.buffer,
)

pub clean_check-IsValid : (b : RecvBuffer) → IsValid b → IsValid (clean_check b)
unfolding clean_check
clean_check-IsValid b v = ground (arith, length-copy_to_front b v)

pub deposit-IsValid :
    (bytes : List ℕ) (b : RecvBuffer)
    → length bytes ≤ free_size b
    → IsValid b
    → IsValid (deposit bytes b)
unfolding deposit
deposit-IsValid bytes b fits v = record {
  storage = omega (
    arith,
    length-append (take b.write_pos b.buffer) (bytes ++ drop (b.write_pos + length bytes) b.buffer),
    length-append bytes (drop (b.write_pos + length bytes) b.buffer),
    length-take b.write_pos b.buffer,
    length-drop (b.write_pos + length bytes) b.buffer,
    v.storage,
    v.write_le,
  );
  read_le = v.read_le;
  write_le = v.write_le;
}

take-append {ℓ} :
    {A : Type ℓ} (m k : ℕ) (xs ys : List A)
    → m ≡ length xs + k
    → take m (xs ++ ys) ≡ xs ++ take k ys
take-append m k [] ys h = ap (λ n. take n ys) (omega arith)
take-append zero k (x ∷ xs) ys h = absurd (omega arith)
take-append (suc m) k (x ∷ xs) ys h = ap (λ t. x ∷ t) (take-append m k xs ys (omega arith))

length-unread : (b : RecvBuffer) → IsValid b → length (unread b) ≡ data_size b
length-unread b v =
    omega
      (arith, length-take (data_size b) (drop b.read_pos b.buffer), length-drop b.read_pos b.buffer)

-- The bytes that `clean_check` puts behind the unread ones.
abbrev pub stale : RecvBuffer → List ℕ
stale b = take b.read_pos (drop (data_size b) b.buffer)

clean_check_partial :
    (b : RecvBuffer)
    → 0 < data_size b
    → ((clean_check b).read_pos ≡ 0)
      × ((clean_check b).write_pos ≡ b.write_pos)
      × ((clean_check b).buffer ≡ copy_to_front (data_size b) b)
      × ((clean_check b).buffer_size ≡ b.buffer_size)
unfolding clean_check
clean_check_partial b more = ground arith

unread-append_stale :
    (b : RecvBuffer) → IsValid b → 0 < data_size b → unread (clean_check b) ≡ unread b ++ stale b
unread-append_stale b v more =
    let (r, w, c, _) = clean_check_partial b more in
    rw (r, w, c)
      (take-append (b.write_pos - 0) b.read_pos (unread b) (drop (data_size b) b.buffer)
        (omega (arith, length-unread b v)))

length-stale : (b : RecvBuffer) → IsValid b → length (stale b) ≡ b.read_pos
length-stale b v = omega (
  arith,
  length-take b.read_pos (drop (data_size b) b.buffer),
  length-drop (data_size b) b.buffer,
)

length-unread_append_stale :
    (b : RecvBuffer) → IsValid b → length (unread b ++ stale b) ≡ data_size b + b.read_pos
length-unread_append_stale b v =
    omega (arith, length-append (unread b) (stale b), length-unread b v, length-stale b v)

-- While a valid buffer holds unread bytes, compaction leaves them in front but announces as many
-- bytes more as had been read already, bytes of the old contents, and frees no room.
pub unread-clean_check :
    (b : RecvBuffer)
    → IsValid b
    → 0 < data_size b
    → (unread (clean_check b) ≡ unread b ++ stale b)
      × (length (stale b) ≡ b.read_pos)
      × (free_size (clean_check b) ≡ free_size b)
unread-clean_check b v more =
    (unread-append_stale b v more, length-stale b v, omega (arith, clean_check_partial b more))

-- With nothing left unread, compaction makes the whole buffer free.
pub clean_check_drained :
    (b : RecvBuffer)
    → data_size b ≡ 0
    → (unread (clean_check b) ≡ []) × (free_size (clean_check b) ≡ b.buffer_size)
unfolding clean_check
clean_check_drained b done = ground arith

unread-drained : (b : RecvBuffer) → data_size b ≡ 0 → unread b ≡ []
unread-drained b done = rw done

clean_check-grows :
    (b : RecvBuffer)
    → IsValid b
    → 0 < data_size b
    → unread (clean_check b) ≡ unread b
    → b.read_pos ≡ 0
clean_check-grows b v more kept = omega (
  arith,
  ap length (sym (unread-append_stale b v more) ∙ kept),
  length-unread_append_stale b v,
  length-unread b v,
)

clean_check-keeps :
    (b : RecvBuffer)
    → IsValid b
    → 0 < data_size b
    → b.read_pos ≡ 0
    → unread (clean_check b) ≡ unread b
clean_check-keeps b v more start =
    unread-append_stale b v more ∙ rw start (append-nil (take (b.write_pos - 0) b.buffer))

-- Compaction keeps the unread bytes of a valid buffer exactly when none was read since the last
-- compaction or none is left.
pub clean_check-keeps_iff :
    (b : RecvBuffer)
    → IsValid b
    → (unread (clean_check b) ≡ unread b) ↔ ((b.read_pos ≡ 0) ⊎ (data_size b ≡ 0))
clean_check-keeps_iff b v = elim (ℕ_discrete (data_size b) 0) [
  | yes done ↦ (λ _. inr done, λ _. (clean_check_drained b done).0 ∙ sym (unread-drained b done))
  | no more ↦ (
    λ kept. inl (clean_check-grows b v (omega arith) kept),
    λ h. elim h [
      | inl start ↦ clean_check-keeps b v (omega arith) start
      | inr done ↦ absurd (more done)
    ],
  )
]
