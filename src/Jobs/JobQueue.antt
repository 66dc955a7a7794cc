-- ===== src/Jobs/JobQueue.antt =====
-- JobQueue.h and JobQueue.cpp: a queue of jobs that the threads of the completion port drain. Each
-- operation on the concurrent queue and on the atomic flag is one step, and any thread may take the
-- next step. The counters say how many threads stand at a point of the code. Jobs are named by
-- numbers; what a job does to other objects is not part of this module, and a job that pushes a job
-- is one more thread that pushes.
pub mod Exclusion
pub mod Stranded
mod Tests
use simple_mmo.Prelude.{ℕ, suc, Bool, true, false, List, [], ◌∷◌, ◌++◌, ◌≡◌}

pub record JobQueue : Type 0 where
  -- `_jobQueue`, its oldest job first, and `_isProcessing`
  pub queue : List ℕ
  pub is_processing : Bool
  -- in `RegisterJobs`, before the exchange; behind it, before the post
  pub registering : ℕ
  pub posting : ℕ
  -- `_jobEvent` in the completion port
  pub posted : ℕ
  -- in `ExecuteJobs`: before `try_pop`, in `job->Execute()`, before the exchange
  pub popping : ℕ
  pub executing : ℕ
  pub leaving : ℕ
  -- the jobs pushed and the jobs begun so far, oldest first
  pub pushed : List ℕ
  pub begun : List ℕ

unfoldable pub make : JobQueue
make = record {
  queue = [];
  is_processing = false;
  registering = 0;
  posting = 0;
  posted = 0;
  popping = 0;
  executing = 0;
  leaving = 0;
  pushed = [];
  begun = [];
}

pub data Step (q : JobQueue) : JobQueue → Type 0 where
  -- `_jobQueue.push(job)`
  push :
      (j : ℕ)
      → Step q (record q {
        queue = q.queue ++ j ∷ [];
        pushed = q.pushed ++ j ∷ [];
        registering = suc q.registering;
      })
  -- `RegisterJobs`: the exchange from false to true succeeds, or fails
  register :
      {n : ℕ}
      → q.registering ≡ suc n
      → q.is_processing ≡ false
      → Step q (record q { registering = n; is_processing = true; posting = suc q.posting })
  already_registered :
      {n : ℕ}
      → q.registering ≡ suc n
      → q.is_processing ≡ true
      → Step q (record q { registering = n })
  -- `PostQueuedCompletionStatus`
  post : {n : ℕ} → q.posting ≡ suc n → Step q (record q { posting = n; posted = suc q.posted })
  -- `Dispatch` on a thread that takes the event
  dispatch : {n : ℕ} → q.posted ≡ suc n → Step q (record q { posted = n; popping = suc q.popping })
  -- `try_pop` with a job, and its execution's end
  begin :
      {n : ℕ} {j : ℕ} {rest : List ℕ}
      → q.popping ≡ suc n
      → q.queue ≡ j ∷ rest
      → Step q (record q {
        popping = n;
        queue = rest;
        executing = suc q.executing;
        begun = q.begun ++ j ∷ [];
      })
  finish :
      {n : ℕ} → q.executing ≡ suc n → Step q (record q { executing = n; popping = suc q.popping })
  -- `try_pop` without one
  found_empty :
      {n : ℕ}
      → q.popping ≡ suc n
      → q.queue ≡ []
      → Step q (record q { popping = n; leaving = suc q.leaving })
  -- the exchange from true to false: `break`, or round again
  leave :
      {n : ℕ}
      → q.leaving ≡ suc n
      → q.is_processing ≡ true
      → Step q (record q { leaving = n; is_processing = false })
  go_round :
      {n : ℕ}
      → q.leaving ≡ suc n
      → q.is_processing ≡ false
      → Step q (record q { leaving = n; popping = suc q.popping })

pub data Reach (q : JobQueue) : JobQueue → Type 0 where
  here : Reach q q
  next : {r s : JobQueue} → Reach q r → Step r s → Reach q s
