-- ===== src/Jobs/Timer/Tests.antt =====
-- A timer with jobs for two queues, and the theorems on it there.
use simple_mmo.Prelude.{ℕ, ◌≡◌, refl, true, List, [], ◌∷◌, arith, map}
use simple_mmo.Jobs.Timer.{TimerItem, push, reserve, collect, release, run_once}
use simple_mmo.Jobs.Timer.Order.{reserve-IsAscending, IsAscending, IsCut, run_once-jobs}

abbrev item : ℕ → ℕ → TimerItem
item time job = record { execute_time = time; job = job; job_queue = 9 }

abbrev waiting : List TimerItem
waiting = item 10 1 ∷ item 20 2 ∷ item 30 3 ∷ []

waiting-IsAscending : IsAscending waiting
waiting-IsAscending = ground arith

round_at_20 : run_once (λ _. true) 20 waiting ≡ ((9, 1) ∷ (9, 2) ∷ [], item 30 3 ∷ [])
unfolding run_once collect release
round_at_20 = refl

reserved : reserve 5 20 4 9 waiting ≡ item 10 1 ∷ item 20 2 ∷ item 25 4 ∷ item 30 3 ∷ []
unfolding reserve push
reserved = refl

run_once-jobs_example :
    (ready : List TimerItem) × IsCut 20 waiting ready (run_once (λ _. true) 20 waiting).1
    × ((run_once (λ _. true) 20 waiting).0 ≡ map (λ x. (x.job_queue, x.job)) ready)
run_once-jobs_example = run_once-jobs 20 waiting waiting-IsAscending

reserve-IsAscending_example : IsAscending (reserve 5 20 4 9 waiting)
reserve-IsAscending_example = reserve-IsAscending 5 20 4 9 waiting waiting-IsAscending
