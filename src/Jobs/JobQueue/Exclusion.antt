-- ===== src/Jobs/JobQueue/Exclusion.antt =====
-- The threads at a job queue (JobQueue.h), over all interleavings.
use simple_mmo.Prelude.{
  ℕ, ◌+◌, ◌≤◌, Bool, true, false, List, [], ◌∷◌, ◌++◌, ◌≡◌, sym, ap, ◌∙◌, append_assoc, arith,
}
use simple_mmo.Jobs.JobQueue.{
  JobQueue, make, Step, push, register, already_registered, post, dispatch, begin, finish,
  found_empty, leave, go_round, Reach, here, next,
}

abbrev pub count_true : Bool → ℕ
count_true true = 1
count_true false = 0

-- The flag is set exactly while one thread or event is responsible for the queue; the jobs begun and
-- those that wait are those pushed, in order.
pub record IsExclusive (q : JobQueue) : Type 0 where
  pub responsible :
      q.posting + q.posted + q.popping + q.executing + q.leaving ≡ count_true q.is_processing
  pub in_order : q.begun ++ q.queue ≡ q.pushed

make-IsExclusive : IsExclusive make
unfolding make
make-IsExclusive = ground arith

push-in_order :
    (q : JobQueue) (j : ℕ)
    → q.begun ++ q.queue ≡ q.pushed
    → q.begun ++ (q.queue ++ j ∷ []) ≡ q.pushed ++ j ∷ []
push-in_order q j e = sym (append_assoc q.begun q.queue (j ∷ [])) ∙ ap (λ t. t ++ j ∷ []) e

begin-in_order :
    (q : JobQueue) (j : ℕ) (rest : List ℕ)
    → q.queue ≡ j ∷ rest
    → (q.begun ++ j ∷ []) ++ rest ≡ q.begun ++ q.queue
begin-in_order q j rest e = append_assoc q.begun (j ∷ []) rest ∙ ap (λ t. q.begun ++ t) (sym e)

Step-IsExclusive : {q r : JobQueue} → Step q r → IsExclusive q → IsExclusive r
Step-IsExclusive {q} (push j) v = record {
  responsible = v.responsible;
  in_order = push-in_order q j v.in_order;
}
Step-IsExclusive (register a b) v = ground (arith, v)
Step-IsExclusive (already_registered a b) v = ground (arith, v)
Step-IsExclusive (post a) v = ground (arith, v)
Step-IsExclusive (dispatch a) v = ground (arith, v)
Step-IsExclusive {q} (begin {j = j} {rest = rest} a b) v = record {
  responsible = ground (arith, v);
  in_order = begin-in_order q j rest b ∙ v.in_order;
}
Step-IsExclusive (finish a) v = ground (arith, v)
Step-IsExclusive (found_empty a b) v = ground (arith, v)
Step-IsExclusive (leave a b) v = ground (arith, v)
Step-IsExclusive (go_round a b) v = ground (arith, v)

Reach-IsExclusive : {q r : JobQueue} → IsExclusive q → Reach q r → IsExclusive r
Reach-IsExclusive v here = v
Reach-IsExclusive v (next r s) = Step-IsExclusive s (Reach-IsExclusive v r)

-- However pushes, posts and drains interleave, at most one thread executes a job of the queue at a
-- time, at most one event for it is in the completion port, and the jobs begun are, in order and
-- each once, the first of those pushed; the others still wait.
pub reachable-exclusive :
    {q : JobQueue}
    → Reach make q
    → (q.executing ≤ 1) × (q.posted ≤ 1) × (q.begun ++ q.queue ≡ q.pushed)
reachable-exclusive r = let v = Reach-IsExclusive make-IsExclusive r in ground (arith, v)
