-- ===== src/Net/Session/Threads/Races.antt =====
-- What can happen around the exchange and the store of `_sendRegistered` (Session.cpp).
use simple_mmo.Prelude.{ℕ, true, List, [], ◌∷◌, ◌++◌, refl, append-nil}
use simple_mmo.Net.Session.Threads.{
  SendThreads, at_rest, push, register, already_registered, gather, start, complete, found_empty,
  store, Reach, here, next,
}

Reach-trans : {s t u : SendThreads} → Reach s t → Reach t u → Reach s u
Reach-trans p here = p
Reach-trans p (next r st) = next (Reach-trans p r) st

-- A send of one buffer, up to the completion that has found the queue empty.
abbrev about_to_close : List ℕ → List ℕ → SendThreads
about_to_close all done = record (at_rest [] all done) { send_registered = true; closing = 1 }

send_one :
    (b : ℕ) (all done : List ℕ)
    → Reach (at_rest [] all done) (about_to_close (all ++ b ∷ []) (done ++ b ∷ []))
send_one b all done =
    next
      (next
        (next (next (next (next here (push b)) (register refl refl)) (gather refl refl))
          (start refl refl))
        (complete refl))
      (found_empty refl refl)

-- The second push comes between `isEmpty` and the store.
stranded_buffer :
    (b c : ℕ) (all done : List ℕ)
    → Reach (at_rest [] all done) (at_rest (c ∷ []) (all ++ b ∷ [] ++ c ∷ []) (done ++ b ∷ []))
stranded_buffer b c all done =
    Reach-trans (send_one b all done)
      (next (next (next here (push c)) (already_registered refl refl)) (store refl))

-- `WSASend` has been called with no buffer at all.
abbrev pub empty_send : List ℕ → List ℕ → SendThreads
empty_send all done = record (at_rest [] all done) { send_registered = true; in_socket = 1 }

-- The first thread's call takes the second thread's buffer before that comes to its exchange.
starts_empty_send :
    (b c : ℕ) (all done : List ℕ)
    → Reach (at_rest [] all done) (empty_send (all ++ b ∷ [] ++ c ∷ []) (done ++ (b ∷ c ∷ [])))
starts_empty_send b c all done = rw (← append-nil (done ++ (b ∷ c ∷ []))) (
    next
      (next
        (next
          (next
            (next
              (next
                (next
                  (next (next (next (next here (push b)) (push c)) (register refl refl))
                    (gather refl refl))
                  (gather refl refl))
                (start refl refl))
              (complete refl))
            (found_empty refl refl))
          (store refl))
        (register refl refl))
      (start refl refl))

pub send_races :
    (b c : ℕ) (all done : List ℕ)
    → Reach (at_rest [] all done) (at_rest (c ∷ []) (all ++ b ∷ [] ++ c ∷ []) (done ++ b ∷ []))
      × Reach (at_rest [] all done) (empty_send (all ++ b ∷ [] ++ c ∷ []) (done ++ (b ∷ c ∷ [])))
send_races b c all done = (stranded_buffer b c all done, starts_empty_send b c all done)
