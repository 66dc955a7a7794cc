-- ===== src/Net/Session/Threads/Order.antt =====
-- What holds of the sends of a session (Session.cpp) however its threads interleave.
use simple_mmo.Prelude.{
  ℕ, zero, suc, ◌+◌, ◌≤◌, Bool, true, false, List, [], ◌∷◌, ◌++◌, ◌≡◌, refl, sym, ap, ◌∙◌,
  append_assoc, arith,
}
use simple_mmo.Net.Session.Threads.{
  SendThreads, at_rest, SendStep, push, register, already_registered, gather, start, complete,
  found_empty, found_more, store, Reach, here, next,
}

abbrev count_true : Bool → ℕ
count_true true = 1
count_true false = 0

-- What is gathered and not yet handed to `WSASend`.
abbrev pub gathered : ℕ → List ℕ → List ℕ
gathered zero bs = []
gathered (suc n) bs = bs

-- The flag is set exactly while one thread or completion is responsible for the sends.
pub record IsSingle (s : SendThreads) : Type 0 where
  pub responsible :
      s.gathering + s.in_socket + s.completing + s.closing ≡ count_true s.send_registered
  pub cleared : s.gathering + s.in_socket ≡ 0 → s.send_buffers ≡ []
  pub in_order : s.sent ++ (gathered s.gathering s.send_buffers ++ s.send_queue) ≡ s.submitted

push-in_order :
    (sent bs queue all : List ℕ) (b : ℕ)
    → sent ++ (bs ++ queue) ≡ all
    → sent ++ (bs ++ (queue ++ b ∷ [])) ≡ all ++ b ∷ []
push-in_order sent bs queue all b e =
    ap (λ t. sent ++ t) (sym (append_assoc bs queue (b ∷ [])))
    ∙ sym (append_assoc sent (bs ++ queue) (b ∷ []))
    ∙ ap (λ t. t ++ b ∷ []) e

gather-in_order :
    (k n b : ℕ) (sent bs queue rest all : List ℕ)
    → k ≡ suc n
    → queue ≡ b ∷ rest
    → sent ++ (gathered k bs ++ queue) ≡ all
    → sent ++ (gathered k (bs ++ b ∷ []) ++ rest) ≡ all
gather-in_order zero n b sent bs queue rest all z e f = absurd (omega arith)
gather-in_order (suc k) n b sent bs queue rest all z e f =
    ap (λ t. sent ++ t) (append_assoc bs (b ∷ []) rest ∙ ap (λ t. bs ++ t) (sym e)) ∙ f

start-in_order :
    (k n : ℕ) (sent bs queue all : List ℕ)
    → k ≡ suc n
    → n ≡ 0
    → sent ++ (gathered k bs ++ queue) ≡ all
    → (sent ++ bs) ++ (gathered n bs ++ queue) ≡ all
start-in_order zero n sent bs queue all z y f = absurd (omega arith)
start-in_order (suc k) zero sent bs queue all z y f = append_assoc sent bs queue ∙ f
start-in_order (suc k) (suc n) sent bs queue all z y f = absurd (omega arith)

at_most_one : (b : Bool) → count_true b ≤ 1
at_most_one b = ground arith

SendStep-IsSingle : {s t : SendThreads} → SendStep s t → IsSingle s → IsSingle t
SendStep-IsSingle {s} (push b) v = record {
  responsible = v.responsible;
  cleared = v.cleared;
  in_order =
      push-in_order s.sent (gathered s.gathering s.send_buffers) s.send_queue s.submitted b
        v.in_order;
}
SendStep-IsSingle (register a b) v = ground (arith, v)
SendStep-IsSingle (already_registered a b) v = ground (arith, v)
SendStep-IsSingle {s} (gather {n = n} {b = b} {rest = rest} a e) v = record {
  responsible = v.responsible;
  cleared = λ z. absurd (omega arith);
  in_order =
      gather-in_order s.gathering n b s.sent s.send_buffers s.send_queue rest s.submitted a e
        v.in_order;
}
SendStep-IsSingle {s} (start {n = n} a e) v = record {
  responsible = ground (arith, v);
  cleared = λ z. absurd (omega arith);
  in_order =
      start-in_order s.gathering n s.sent s.send_buffers s.send_queue s.submitted a
        (omega (arith, v.responsible, at_most_one s.send_registered)) v.in_order;
}
SendStep-IsSingle (complete a) v = ground (arith, v)
SendStep-IsSingle (found_empty a b) v = ground (arith, v)
SendStep-IsSingle (found_more a b) v = ground (arith, v)
SendStep-IsSingle (store a) v = ground (arith, v)

Reach-IsSingle : {s t : SendThreads} → IsSingle s → Reach s t → IsSingle t
Reach-IsSingle v here = v
Reach-IsSingle v (next r st) = SendStep-IsSingle st (Reach-IsSingle v r)

-- However sends and completions interleave on a session that stays connected, whose WSASends do
-- not fail and whose completions report at least one byte, at most one thread or call uses the
-- send event at a time, and the buffers handed to WSASend are, in order and each once, the first
-- of those handed to Send; the others are, in order, those that a thread has gathered for the next
-- call and those in the queue.
pub reachable-in_order :
    {s : SendThreads}
    → Reach (at_rest [] [] []) s
    → (s.gathering + s.in_socket ≤ 1)
      × (s.sent ++ (gathered s.gathering s.send_buffers ++ s.send_queue) ≡ s.submitted)
reachable-in_order {s} r =
    let v =
      Reach-IsSingle (record { responsible = refl; cleared = λ z. refl; in_order = refl }) r in
    (omega (arith, v.responsible, at_most_one s.send_registered), v.in_order)
