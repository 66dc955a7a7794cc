-- ===== src/Jobs/Timer.antt =====
-- Timer.h, Timer.cpp and `ConcurrentPQ` (ConcurrentQueue.h): jobs that are pushed to a job queue
-- after a delay. Times are milliseconds of the steady clock. `std::priority_queue` is a list in the
-- order in which its elements come out; the library leaves the order of equal times open, here
-- they come out in the order of the pushes, and no theorem is about that.
pub mod Order
mod Tests
use simple_mmo.Prelude.{
  ℕ, ◌+◌, Bool, true, false, Option, none, some, List, [], ◌∷◌, ltb, leb, if◌then◌else◌,
}

pub record TimerItem : Type 0 where
  pub execute_time : ℕ
  pub job : ℕ
  -- the job queue that the weak pointer names
  pub job_queue : ℕ

-- `operator<`, by which the top of the priority queue is the earliest item.
abbrev pub precedes : TimerItem → TimerItem → Bool
precedes x y = ltb y.execute_time x.execute_time

unfoldable pub push : TimerItem → List TimerItem → List TimerItem
push x [] = x ∷ []
push x (y ∷ q) = if precedes y x then x ∷ y ∷ q else y ∷ push x q

-- `ConcurrentPQ::Pop` and `Peek`; `none` is the result false.
unfoldable pub pop : List TimerItem → Option (TimerItem × List TimerItem)
pop [] = none
pop (x ∷ q) = some (x, q)

unfoldable pub peek : List TimerItem → Option TimerItem
peek [] = none
peek (x ∷ q) = some x

-- `Timer::Reserve` at the time `now`.
unfoldable pub reserve : ℕ → ℕ → ℕ → ℕ → List TimerItem → List TimerItem
reserve now milliseconds job job_queue q =
    push (record { execute_time = now + milliseconds; job = job; job_queue = job_queue }) q

-- Until when the loop of `Timer::Run` waits at most.
unfoldable pub wait_until : ℕ → List TimerItem → ℕ
wait_until now [] = now + 1000
wait_until now (x ∷ q) = x.execute_time

-- The inner loop of `Timer::Run`: the items that are ready, and those that stay.
unfoldable pub collect : ℕ → List TimerItem → List TimerItem × List TimerItem
collect now [] = ([], [])
collect now (x ∷ q) =
    let (ready, rest) = collect now q in
    if leb x.execute_time now then (x ∷ ready, rest) else ([], x ∷ q)

-- The jobs that one round pushes, each with its queue; a queue that is gone gets none.
unfoldable pub release : (ℕ → Bool) → List TimerItem → List (ℕ × ℕ)
release alive [] = []
release alive (x ∷ ready) =
    let rest = release alive ready in
    if alive x.job_queue then (x.job_queue, x.job) ∷ rest else rest

-- One round of `Timer::Run`, whose clock was read as `now`.
unfoldable pub run_once : (ℕ → Bool) → ℕ → List TimerItem → List (ℕ × ℕ) × List TimerItem
run_once alive now q = let (ready, rest) = collect now q in (release alive ready, rest)
