-- ===== src/Jobs/JobQueue/Stranded.antt =====
-- What can happen between the last failing `try_pop` of `ExecuteJobs` and its exchange.
use simple_mmo.Prelude.{ℕ, true, false, List, [], ◌∷◌, ◌++◌, refl, append-nil, append_assoc}
use simple_mmo.Jobs.JobQueue.{
  JobQueue, push, register, already_registered, post, dispatch, begin, finish, found_empty, leave,
  Reach, here, next,
}

-- The queue at rest, with these jobs waiting, pushed and begun: no thread is anywhere in its code,
-- and no event for it is under way.
abbrev pub at_rest : List ℕ → List ℕ → List ℕ → JobQueue
at_rest waiting all done = record {
  queue = waiting;
  is_processing = false;
  registering = 0;
  posting = 0;
  posted = 0;
  popping = 0;
  executing = 0;
  leaving = 0;
  pushed = all;
  begun = done;
}

abbrev popping_with : List ℕ → List ℕ → List ℕ → JobQueue
popping_with waiting all done = record (at_rest waiting all done) {
  is_processing = true;
  popping = 1;
}

Reach-trans : {q r s : JobQueue} → Reach q r → Reach r s → Reach q s
Reach-trans p here = p
Reach-trans p (next r st) = next (Reach-trans p r) st

-- A push at rest, up to the thread that takes the event.
wake :
    (k : ℕ) (waiting all done : List ℕ)
    → Reach (at_rest waiting all done) (popping_with (waiting ++ k ∷ []) (all ++ k ∷ []) done)
wake k waiting all done =
    next (next (next (next here (push k)) (register refl refl)) (post refl)) (dispatch refl)

drain :
    (waiting all done : List ℕ)
    → Reach (popping_with waiting all done) (at_rest [] all (done ++ waiting))
drain [] all done =
    rw (append-nil done) (next (next here (found_empty refl refl)) (leave refl refl))
drain (j ∷ waiting) all done = rw (← append_assoc done (j ∷ []) waiting) (
    Reach-trans (next (next here (begin refl refl)) (finish refl))
      (drain waiting all (done ++ j ∷ [])))

-- A job is lost until somebody pushes again: from any state at rest with an empty queue, two pushes
-- can interleave so that the queue comes to rest with the second job still in it, unexecuted, and
-- no thread or event that would execute it.
pub stranded_job :
    (j k : ℕ) (all done : List ℕ)
    → Reach (at_rest [] all done) (at_rest (k ∷ []) (all ++ j ∷ [] ++ k ∷ []) (done ++ j ∷ []))
stranded_job j k all done = Reach-trans (wake j [] all done) (
    next
      (next
        (next (next (next (next here (begin refl refl)) (finish refl)) (found_empty refl refl))
          (push k))
        (already_registered refl refl))
      (leave refl refl))

-- The next push can always repair that: from any state at rest, whatever waits, a push can be
-- followed by steps that execute all waiting jobs and the new one, in order, and come to rest.
pub push_drains :
    (k : ℕ) (waiting all done : List ℕ)
    → Reach (at_rest waiting all done) (at_rest [] (all ++ k ∷ []) (done ++ (waiting ++ k ∷ [])))
push_drains k waiting all done =
    Reach-trans (wake k waiting all done) (drain (waiting ++ k ∷ []) (all ++ k ∷ []) done)
